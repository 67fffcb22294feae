-- ===== src/Ssi/Ack/Spared.antt =====
-- ssi.c: parseack, what the two lists lack of each other once items are taken from one of them.
use irssi_icq.Base.{
  List, ◌≡◌, ℕ, All, ◌++◌, Bool, [], ◌==◌, ◌∷◌, refl, ◌&&◌, none, ◌||◌, false, true, arith, ◌∙◌,
  append_assoc, ap, ap₂, sym, Bool-cases, inl, inr,
}
use irssi_icq.Ssi.{Item, itemlist_find, itemlist_valid}
use irssi_icq.Ssi.Sync.Plan.{lacking}
use irssi_icq.Ssi.Ack.Known.{knows, knows-cons, knows-none, lacking_known, lacking_first}
use irssi_icq.Ssi.Ack.Common.{spared, spared-dropped, spared-kept}

-- The items asked for that a list still has are of numbers that another list lacks.
abbrev pub IsLacked : List Item → List Item → List Item → Type 0
IsLacked xs l other =
    All (λ c. itemlist_valid xs c.addr ≡ true → itemlist_find other c.gid c.bid ≡ none) l

-- What a list still lacks of the spared items.
pub lacking-spared :
    (xs l other : List Item) → lacking (spared xs l) other ≡ spared xs (lacking l other)
lacking-spared xs [] other = refl
lacking-spared xs (c ∷ l) other =
    let rest = lacking-spared xs l other in
    elim (Bool-cases (itemlist_valid xs c.addr)) [
      | inl v ↦ elim (Bool-cases (knows other c.gid c.bid)) [
        | inl k ↦
            ap (λ o. lacking o other) (spared-dropped xs c l v)
            ∙ rest
            ∙ ap (spared xs) (sym (lacking_known c l other k))
        | inr k ↦
            ap (λ o. lacking o other) (spared-dropped xs c l v)
            ∙ rest
            ∙ sym (
                ap (spared xs) (lacking_first c l other k)
                ∙ spared-dropped xs c (lacking l other) v)
      ]
      | inr v ↦ elim (Bool-cases (knows other c.gid c.bid)) [
        | inl k ↦
            ap (λ o. lacking o other) (spared-kept xs c l v)
            ∙ lacking_known c (spared xs l) other k
            ∙ rest
            ∙ ap (spared xs) (sym (lacking_known c l other k))
        | inr k ↦
            ap (λ o. lacking o other) (spared-kept xs c l v)
            ∙ lacking_first c (spared xs l) other k
            ∙ ap (◌∷◌ c) rest
            ∙ sym
                (ap (spared xs) (lacking_first c l other k) ∙ spared-kept xs c (lacking l other) v)
      ]
    ]

clash : Path Bool true false → ⊥
clash e = cc

-- The spared items have the numbers of the list that another list has.
knows-spared :
    (xs l other : List Item) (g b : ℕ)
    → IsLacked xs l other
    → knows other g b ≡ true
    → knows (spared xs l) g b ≡ knows l g b
knows-spared xs [] other g b u h = refl
knows-spared xs (c ∷ l) other g b (n, u) h = elim (Bool-cases (itemlist_valid xs c.addr)) [
  | inl v ↦
      ap (λ o. knows o g b) (spared-dropped xs c l v)
      ∙ knows-spared xs l other g b u h
      ∙ sym (knows-cons c l g b ∙ ap (λ t. t || knows l g b) (elsewhere (n v)))
  | inr v ↦
      ap (λ o. knows o g b) (spared-kept xs c l v)
      ∙ knows-cons c (spared xs l) g b
      ∙ ap (◌||◌ (c.gid == g && c.bid == b)) (knows-spared xs l other g b u h)
      ∙ sym (knows-cons c l g b)
]
  where
    elsewhere : itemlist_find other c.gid c.bid ≡ none → (c.gid == g && c.bid == b) ≡ false
    elsewhere m = elim (Bool-cases (c.gid == g && c.bid == b)) [
      | inr e ↦ e
      | inl e ↦ absurd (
          clash (
            sym h
            ∙ ap₂ (knows other) (sym (ground (arith, e))) (sym (ground (arith, e)))
            ∙ knows-none other c.gid c.bid m))
    ]

lacking-agree :
    (l o o' : List Item)
    → All (λ x. knows o' x.gid x.bid ≡ knows o x.gid x.bid) l
    → lacking l o' ≡ lacking l o
lacking-agree [] o o' h = refl
lacking-agree (x ∷ l) o o' (same, h) = elim (Bool-cases (knows o x.gid x.bid)) [
  | inl k ↦ lacking_known x l o' (same ∙ k) ∙ lacking-agree l o o' h ∙ sym (lacking_known x l o k)
  | inr k ↦
      lacking_first x l o' (same ∙ k)
      ∙ ap (◌∷◌ x) (lacking-agree l o o' h)
      ∙ sym (lacking_first x l o k)
]

-- Every item of a list is known to it.
knows_own : (front l : List Item) → All (λ x. knows (front ++ l) x.gid x.bid ≡ true) l
knows_own front [] = tt
knows_own front (x ∷ l) =
    (known front, rw (append_assoc front (x ∷ []) l) at (knows_own (front ++ (x ∷ [])) l))
  where
    known : (front : List Item) → knows (front ++ (x ∷ l)) x.gid x.bid ≡ true
    known [] = knows-cons x l x.gid x.bid ∙ ground arith
    known (f ∷ front) =
        knows-cons f (front ++ (x ∷ l)) x.gid x.bid
        ∙ ap (◌||◌ (f.gid == x.gid && f.bid == x.bid)) (known front)
        ∙ ground arith

-- A list lacks as much of another one after items that the other has not are taken from it.
pub spared-agree :
    (xs l other : List Item) → IsLacked xs l other → lacking other (spared xs l) ≡ lacking other l
spared-agree xs l other u =
    lacking-agree other l (spared xs l) (agreeing other (knows_own [] other))
  where
    agreeing :
        (m : List Item)
        → All (λ x. knows other x.gid x.bid ≡ true) m
        → All (λ x. knows (spared xs l) x.gid x.bid ≡ knows l x.gid x.bid) m
    agreeing [] h = tt
    agreeing (x ∷ m) (k, h) = (knows-spared xs l other x.gid x.bid u k, agreeing m h)
