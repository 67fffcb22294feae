-- ===== src/Buddy/Aliases.antt =====
-- icq-buddy.c: the aliases that a list gives to numbers.
use irssi_icq.Base.{
  ◌≡◌, refl, ◌∙◌, sym, List, [], ◌∷◌, ◌++◌, Bool, true, false, ◌||◌, if◌then◌else◌, arith, inl, inr,
  Bool-cases, reverse, reverse-cons, All, bytes_eq, bytes_eq→eq,
}
use irssi_icq.Buddy.{Text, Buddy, get_buddy, getalias}

-- The numbers of the buddies, in order.
unfoldable pub numbers : List Buddy → List Text
numbers [] = []
numbers (b ∷ l) = b.uin ∷ numbers l

-- Whether a number is in a list.
abbrev pub has : Text → List Text → Bool
has uin [] = false
has uin (x ∷ xs) = bytes_eq uin x || has uin xs

getalias-new : (uin : Text) (bs : List Buddy) → has uin (numbers bs) ≡ false → getalias uin bs ≡ uin
unfolding numbers getalias get_buddy
getalias-new uin [] e = refl
getalias-new uin (b ∷ bs) e = ground (arith, getalias-new uin bs)

has-append : (uin : Text) (xs ys : List Text) → has uin (xs ++ ys) ≡ (has uin xs || has uin ys)
has-append uin [] ys = refl
has-append uin (x ∷ xs) ys = ground (arith, has-append uin xs ys)

pub has-reverse : (uin : Text) (xs : List Text) → has uin (reverse xs) ≡ has uin xs
has-reverse uin [] = refl
has-reverse uin (x ∷ xs) =
    rw (reverse-cons x xs)
      (ground (arith, has-append uin (reverse xs) (x ∷ []), has-reverse uin xs))

getalias-cons :
    (uin : Text) (b : Buddy) (bs : List Buddy)
    → getalias uin (b ∷ bs) ≡ (if bytes_eq uin b.uin then b.alias else getalias uin bs)
unfolding getalias get_buddy
getalias-cons uin b bs = ground arith

module _ (l : List Buddy) where
  -- The entries of a list have the aliases of `l`.
  abbrev pub Keeps : List Buddy → Type 0
  Keeps bs = All (λ (b : Buddy). b.alias ≡ getalias b.uin l) bs

  getalias-has :
      (uin : Text) (bs : List Buddy)
      → Keeps bs
      → has uin (numbers bs) ≡ true
      → getalias uin bs ≡ getalias uin l
  unfolding numbers
  getalias-has uin [] k e = cc
  getalias-has uin (b ∷ bs) k e =
      ground (arith, getalias-cons uin b bs, bytes_eq→eq uin b.uin, k.0, getalias-has uin bs k.1)

  -- A list with the same numbers.
  pub getalias-same :
      (uin : Text) (bs : List Buddy)
      → Keeps bs
      → has uin (numbers bs) ≡ has uin (numbers l)
      → getalias uin bs ≡ getalias uin l
  getalias-same uin bs k e = elim (Bool-cases (has uin (numbers bs))) [
    | inl q ↦ getalias-has uin bs k q
    | inr q ↦ getalias-new uin bs q ∙ sym (getalias-new uin l (sym e ∙ q))
  ]
