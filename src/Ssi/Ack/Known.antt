-- ===== src/Ssi/Ack/Known.antt =====
-- ssi.c: the numbers that a list of items has, and what another list lacks of it.
use irssi_icq.Base.{
  List, ◌≡◌, ℕ, All, Bool, [], some, ◌==◌, ◌∷◌, refl, ◌&&◌, none, ◌||◌, false, true, arith, ◌∙◌, ap,
  Option-cases, inl, inr, sym, Bool-cases, ap₂, subst,
}
use irssi_icq.Ssi.{Item, itemlist_find, insert, insert_after, precedes}
use irssi_icq.Ssi.Sync.{deref}
use irssi_icq.Ssi.Sync.Plan.{Resolves, lacking}

-- A list has an item of these numbers.
abbrev pub knows : List Item → ℕ → ℕ → Bool
knows l g b = elim (itemlist_find l g b) [ none ↦ false | some c ↦ true ]

knows-insert_after :
    (new : Item) (l : List Item) (g b : ℕ)
    → knows (insert_after new l) g b ≡ (new.gid == g && new.bid == b || knows l g b)
unfolding itemlist_find insert_after
knows-insert_after new [] g b = ground arith
knows-insert_after new (cur ∷ rest) g b = ground (arith, knows-insert_after new rest g b)

pub knows-insert :
    (new : Item) (l : List Item) (g b : ℕ)
    → knows (insert new l) g b ≡ (new.gid == g && new.bid == b || knows l g b)
unfolding itemlist_find insert
knows-insert new [] g b = ground arith
knows-insert new (cur ∷ rest) g b = ground (arith, knows-insert_after new rest g b)

pub knows-cons :
    (x : Item) (o : List Item) (g b : ℕ)
    → knows (x ∷ o) g b ≡ (x.gid == g && x.bid == b || knows o g b)
unfolding itemlist_find
knows-cons x o g b = ground arith

pub knows-some :
    (o : List Item) (g b : ℕ) (c : Item) → itemlist_find o g b ≡ some c → knows o g b ≡ true
knows-some o g b c e = rw (e, knows) refl

pub knows-none : (o : List Item) (g b : ℕ) → itemlist_find o g b ≡ none → knows o g b ≡ false
knows-none o g b e = rw (e, knows) refl

pub lacking_known :
    (x : Item) (l o : List Item) → knows o x.gid x.bid ≡ true → lacking (x ∷ l) o ≡ lacking l o
lacking_known x l o h = elim (Option-cases (itemlist_find o x.gid x.bid)) [
  | inl m ↦ absurd (unknown m)
  | inr (c, m) ↦ rw (m, lacking) refl
]
  where
    unknown : itemlist_find o x.gid x.bid ≡ none → ⊥
    unknown m = let e : false ≡ true = rw (m, knows) at h in cc

pub lacking_first :
    (x : Item) (o l : List Item) → knows l x.gid x.bid ≡ false → lacking (x ∷ o) l ≡ x ∷ lacking o l
lacking_first x o l h = elim (Option-cases (itemlist_find l x.gid x.bid)) [
  | inl m ↦ rw (m, lacking) refl
  | inr (c, m) ↦ absurd (unknown c m)
]
  where
    unknown : (c : Item) → itemlist_find l x.gid x.bid ≡ some c → ⊥
    unknown c m = let e : true ≡ false = rw (m, knows) at h in cc

-- What a list lacks that has the numbers of two others is what the one lacks of what the other lacks.
pub lacking-both :
    (l xs o o' : List Item)
    → ((g b : ℕ) → knows o' g b ≡ (knows xs g b || knows o g b))
    → lacking l o' ≡ lacking (lacking l o) xs
lacking-both [] xs o o' k = refl
lacking-both (x ∷ l) xs o o' k =
    let rest = lacking-both l xs o o' k in
    let both : knows o' x.gid x.bid ≡ (knows xs x.gid x.bid || knows o x.gid x.bid) =
      k x.gid x.bid in
    elim (Bool-cases (knows o x.gid x.bid)) [
      | inl e ↦
          lacking_known x l o' (both ∙ ap (◌||◌ (knows xs x.gid x.bid)) e ∙ or_true _)
          ∙ rest
          ∙ sym (ap (λ t. lacking t xs) (lacking_known x l o e))
      | inr e ↦ elim (Bool-cases (knows xs x.gid x.bid)) [
        | inl q ↦
            lacking_known x l o' (both ∙ ap (λ t. t || knows o x.gid x.bid) q)
            ∙ rest
            ∙ sym (
                ap (λ t. lacking t xs) (lacking_first x l o e) ∙ lacking_known x (lacking l o) xs q)
        | inr q ↦
            lacking_first x l o' (both ∙ ap₂ ◌||◌ q e)
            ∙ ap (◌∷◌ x) rest
            ∙ sym (
                ap (λ t. lacking t xs) (lacking_first x l o e) ∙ lacking_first x (lacking l o) xs q)
      ]
    ]
  where
    or_true : (p : Bool) → (p || true) ≡ true
    or_true p = ground arith

lacking-behind :
    (c : Item) (o o' l : List Item)
    → lacking o l ≡ lacking o' l
    → lacking (c ∷ o) l ≡ lacking (c ∷ o') l
lacking-behind c o o' l e = elim (Bool-cases (knows l c.gid c.bid)) [
  | inl k ↦ lacking_known c o l k ∙ e ∙ sym (lacking_known c o' l k)
  | inr k ↦ lacking_first c o l k ∙ ap (◌∷◌ c) e ∙ sym (lacking_first c o' l k)
]

-- The place of a new item of known numbers makes no difference to what is lacked.
module _ (x : Item) (l : List Item) (k : knows l x.gid x.bid ≡ true) where
  lacking-insert_after : (o : List Item) → lacking (insert_after x o) l ≡ lacking o l
  lacking-insert_after [] = unfold insert_after in lacking_known x [] l k
  lacking-insert_after (c ∷ o) = elim (Bool-cases (precedes c x)) [
    | inl p ↦
        ap (λ t. lacking t l) (first p)
        ∙ lacking-behind c (insert_after x o) o l (lacking-insert_after o)
    | inr p ↦ ap (λ t. lacking t l) (here p) ∙ lacking_known x (c ∷ o) l k
  ]
    where
      first : precedes c x ≡ true → insert_after x (c ∷ o) ≡ c ∷ insert_after x o
      first p = unfold insert_after in rw (p, insert_after) refl

      here : precedes c x ≡ false → insert_after x (c ∷ o) ≡ x ∷ (c ∷ o)
      here p = unfold insert_after in rw (p, insert_after) refl

  pub lacking-insert : (o : List Item) → lacking (insert x o) l ≡ lacking o l
  lacking-insert [] = unfold insert in lacking_known x [] l k
  lacking-insert (c ∷ o) = elim (Bool-cases (precedes x c)) [
    | inl p ↦ ap (λ t. lacking t l) (here p) ∙ lacking_known x (c ∷ o) l k
    | inr p ↦
        ap (λ t. lacking t l) (behind p)
        ∙ lacking-behind c (insert_after x o) o l (lacking-insert_after o)
  ]
    where
      here : precedes x c ≡ true → insert x (c ∷ o) ≡ x ∷ (c ∷ o)
      here p = unfold insert in rw (p, insert) refl

      behind : precedes x c ≡ false → insert x (c ∷ o) ≡ c ∷ insert_after x o
      behind p = unfold insert in rw (p, insert) refl

-- What is found at an address is known by its numbers.
deref-knows : (l : List Item) (a : ℕ) (x : Item) → deref l a ≡ some x → knows l x.gid x.bid ≡ true
unfolding deref
deref-knows [] a x e = absurd (cc)
deref-knows (c ∷ l) a x e = knows-cons c l x.gid x.bid ∙ (elim (Bool-cases (c.addr == a)) [
  | inl q ↦
      (let here : some c ≡ some x = rw q at e in
        let same : c ≡ x = cc in
        subst (λ (t : Item). (c.gid == t.gid && c.bid == t.bid || knows l t.gid t.bid) ≡ true) same
          (ground arith))
  | inr q ↦ ap (◌||◌ (c.gid == x.gid && c.bid == x.bid)) (deref-knows l a x (rw q at e)) ∙ or_true _
])
  where
    or_true : (p : Bool) → (p || true) ≡ true
    or_true p = ground arith

pub Resolves-knows : (l xs : List Item) → Resolves l xs → All (λ x. knows l x.gid x.bid ≡ true) xs
Resolves-knows l [] h = tt
Resolves-knows l (x ∷ xs) (d, h) = (deref-knows l x.addr x d, Resolves-knows l xs h)
