-- ===== src/Ssi/Ack/Common.antt =====
-- ssi.c: parseack where changes take the items asked for from one of the two lists.
use irssi_icq.Base.{
  List, ◌≡◌, ◌≢◌, ℕ, All, [], some, ◌==◌, ◌∷◌, refl, none, false, true, arith, ◌∙◌, ap, sym,
  Bool-cases, inl, inr, ==_false, ==_iff, if_true, if_false, subst, if◌then◌else◌,
}
use mathlib.Core.List.{map}
use irssi_icq.Ssi.{Item, itemlist_del, itemlist_valid}
use irssi_icq.Ssi.Deletion.{deref_past, deref_here, itemlist_del_past, itemlist_del_here}
use irssi_icq.Ssi.Sync.{Store, Tmp, deref}
use irssi_icq.Ssi.Ack.{settle, settle_all}

-- The addresses of a list are different.
abbrev pub IsDistinct : List Item → Type 0
IsDistinct [] = Unit
IsDistinct (x ∷ o) = All (λ c. x.addr ≢ c.addr) o × IsDistinct o

-- The items of a list that are none of those asked for, which their addresses tell.
abbrev pub spared : List Item → List Item → List Item
spared xs [] = []
spared xs (item ∷ rest) = elim (itemlist_valid xs item.addr) [
  | true ↦ spared xs rest
  | false ↦ item ∷ spared xs rest
]

module _ (xs : List Item) (c : Item) (l : List Item) where
  pub spared-dropped : itemlist_valid xs c.addr ≡ true → spared xs (c ∷ l) ≡ spared xs l
  spared-dropped e = rw (e, spared) refl

  pub spared-kept : itemlist_valid xs c.addr ≡ false → spared xs (c ∷ l) ≡ c ∷ spared xs l
  spared-kept e = rw (e, spared) refl

itemlist_valid-cons :
    (x : Item) (xs : List Item) (a : ℕ)
    → itemlist_valid (x ∷ xs) a ≡ (if x.addr == a then true else itemlist_valid xs a)
unfolding itemlist_valid
itemlist_valid-cons x xs a = refl

spared-nothing : (l : List Item) → spared [] l ≡ l
spared-nothing [] = refl
spared-nothing (c ∷ l) =
    spared-kept [] c l (unfold itemlist_valid in refl) ∙ ap (◌∷◌ c) (spared-nothing l)

module _ (x : Item) (xs : List Item) where
  spared-elsewhere :
      (l : List Item) → All (λ c. x.addr ≢ c.addr) l → spared (x ∷ xs) l ≡ spared xs l
  spared-elsewhere [] h = refl
  spared-elsewhere (c ∷ l) (n, h) =
      let test : itemlist_valid (x ∷ xs) c.addr ≡ itemlist_valid xs c.addr =
        itemlist_valid-cons x xs c.addr ∙ if_false _ _ (==_false x.addr c.addr n) in
      elim (Bool-cases (itemlist_valid xs c.addr)) [
        | inl e ↦
            spared-dropped (x ∷ xs) c l (test ∙ e)
            ∙ spared-elsewhere l h
            ∙ sym (spared-dropped xs c l e)
        | inr e ↦
            spared-kept (x ∷ xs) c l (test ∙ e)
            ∙ ap (◌∷◌ c) (spared-elsewhere l h)
            ∙ sym (spared-kept xs c l e)
      ]

  -- To take out one item and then others is to take out them all.
  spared-itemlist_del :
      (l : List Item) → IsDistinct l → spared xs (itemlist_del l x.addr) ≡ spared (x ∷ xs) l
  spared-itemlist_del [] d = unfold itemlist_del in refl
  spared-itemlist_del (c ∷ l) (n, d) = elim (Bool-cases (c.addr == x.addr)) [
    | inl e ↦
        let q : c.addr ≡ x.addr = (==_iff c.addr x.addr).0 e in
        ap (spared xs) (itemlist_del_here c l x.addr e)
        ∙ sym (spared-elsewhere l (subst (λ a. All (λ (t : Item). a ≢ t.addr) l) q n))
        ∙ sym (
            spared-dropped (x ∷ xs) c l
              (itemlist_valid-cons x xs c.addr ∙ if_true _ _ ((==_iff x.addr c.addr).1 (sym q))))
    | inr e ↦
        let test : itemlist_valid (x ∷ xs) c.addr ≡ itemlist_valid xs c.addr =
          itemlist_valid-cons x xs c.addr ∙ if_false _ _ (flip e) in
        ap (spared xs) (itemlist_del_past c l x.addr e)
        ∙ (elim (Bool-cases (itemlist_valid xs c.addr)) [
          | inl v ↦
              spared-dropped xs c (itemlist_del l x.addr) v
              ∙ spared-itemlist_del l d
              ∙ sym (spared-dropped (x ∷ xs) c l (test ∙ v))
          | inr v ↦
              spared-kept xs c (itemlist_del l x.addr) v
              ∙ ap (◌∷◌ c) (spared-itemlist_del l d)
              ∙ sym (spared-kept (x ∷ xs) c l (test ∙ v))
        ])
  ]
    where
      flip : (c.addr == x.addr) ≡ false → (x.addr == c.addr) ≡ false
      flip e = ground (arith, e)

itemlist_del-All : (P : Item → Type 0) (l : List Item) (a : ℕ) → All P l → All P (itemlist_del l a)
itemlist_del-All P [] a h = unfold itemlist_del in tt
itemlist_del-All P (c ∷ l) a (p, h) = elim (Bool-cases (c.addr == a)) [
  | inl e ↦ rw (itemlist_del_here c l a e) h
  | inr e ↦ rw (itemlist_del_past c l a e) (p, itemlist_del-All P l a h)
]

itemlist_del-IsDistinct : (l : List Item) (a : ℕ) → IsDistinct l → IsDistinct (itemlist_del l a)
itemlist_del-IsDistinct [] a d = unfold itemlist_del in tt
itemlist_del-IsDistinct (c ∷ l) a (n, d) = elim (Bool-cases (c.addr == a)) [
  | inl e ↦ rw (itemlist_del_here c l a e) d
  | inr e ↦
      rw (itemlist_del_past c l a e)
        (itemlist_del-All (λ t. c.addr ≢ t.addr) l a n, itemlist_del-IsDistinct l a d)
]

-- An address that leads to nothing is that of no item.
pub itemlist_del-absent : (l : List Item) (a : ℕ) → deref l a ≡ none → itemlist_del l a ≡ l
itemlist_del-absent [] a e = unfold itemlist_del in refl
itemlist_del-absent (c ∷ l) a e = elim (Bool-cases (c.addr == a)) [
  | inl here ↦ absurd (found (sym (deref_here c l a here) ∙ e))
  | inr past ↦
      itemlist_del_past c l a past
      ∙ ap (◌∷◌ c) (itemlist_del-absent l a (sym (deref_past c l a past) ∙ e))
]
  where
    found : some c ≡ none → ⊥
    found q = cc

pub settle_step :
    (s s' : Store) (t : Tmp) (ts : List Tmp)
    → (t.ack == 0xffff) ≡ false
    → settle s t ≡ some s'
    → settle_all s (t ∷ ts) ≡ settle_all s' ts
settle_step s s' t ts h e = unfold settle_all in rw (h, settle_all) (rw (e, settle_all) refl)

-- A list of the store, from which each settled change drops its item.
module _ (tmp : Item → Tmp) (put : List Item → Store)
    (kept : (x : Item) → ((tmp x).ack == 0xffff) ≡ false)
    (drops : (o : List Item) (x : Item)
      → settle (put o) (tmp x) ≡ some (put (itemlist_del o x.addr))) where
  pub settle_all-drops :
      (xs l : List Item) → IsDistinct l → settle_all (put l) (map tmp xs) ≡ some (put (spared xs l))
  settle_all-drops [] l d = unfold settle_all in ap (λ o. some (put o)) (sym (spared-nothing l))
  settle_all-drops (x ∷ xs) l d =
      settle_step (put l) _ (tmp x) _ (kept x) (drops l x)
      ∙ settle_all-drops xs (itemlist_del l x.addr) (itemlist_del-IsDistinct l x.addr d)
      ∙ ap (λ o. some (put o)) (spared-itemlist_del x xs l d)
