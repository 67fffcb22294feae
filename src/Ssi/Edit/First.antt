-- ===== src/Ssi/Edit/First.antt =====
-- ssi.c: what the search for an item finds after an addition, and after a write to an item.
use irssi_icq.Base.{
  Bool, List, ◌≡◌, true, none, some, ◌∷◌, [], ◌==◌, refl, Bool-cases, false, inl, sym, ◌∙◌, inr,
  subst, ap, ℕ, ==_iff, All,
}
use irssi_icq.Tlv.{Tlv}
use irssi_icq.Ssi.{Item, first, insert, insert_after, precedes, Bool}
use irssi_icq.Ssi.Sync.{deref}
use irssi_icq.Ssi.Edit.{set_tlvs}

module _ (test : Item → Bool) where
  first_hit : (cur : Item) (rest : List Item) → test cur ≡ true → first test (cur ∷ rest) ≡ some cur
  first_hit cur rest h = unfold first in rw (h, first) refl

  first_miss :
      (cur : Item) (rest : List Item) → test cur ≡ false → first test (cur ∷ rest) ≡ first test rest
  first_miss cur rest h = unfold first in rw (h, first) refl

  first-none :
      (cur : Item) (rest : List Item)
      → first test (cur ∷ rest) ≡ none
      → (test cur ≡ false) × (first test rest ≡ none)
  first-none cur rest e = elim (Bool-cases (test cur)) [
    | inl h ↦ absurd (hit h)
    | inr h ↦ (h, sym (first_miss cur rest h) ∙ e)
  ]
    where
      hit : test cur ≡ true → ⊥
      hit h = let clash : some cur ≡ none = sym (first_hit cur rest h) ∙ e in cc

  insert_after_past :
      (new cur : Item) (rest : List Item)
      → precedes cur new ≡ true
      → insert_after new (cur ∷ rest) ≡ cur ∷ insert_after new rest
  insert_after_past new cur rest h = unfold insert_after in rw (h, insert_after) refl

  first-insert_after :
      (new : Item) (l : List Item)
      → first test l ≡ none
      → test new ≡ true
      → first test (insert_after new l) ≡ some new
  first-insert_after new [] e h = unfold insert_after in first_hit new [] h
  first-insert_after new (cur ∷ rest) e h = elim (Bool-cases (precedes cur new)) [
    | inl past ↦
        let (miss, others) = first-none cur rest e in
        rw (insert_after_past new cur rest past)
          (first_miss cur (insert_after new rest) miss ∙ first-insert_after new rest others h)
    | inr stop ↦ unfold insert_after in rw (stop, insert_after) (first_hit new (cur ∷ rest) h)
  ]

  pub first-insert :
      (new : Item) (l : List Item)
      → first test l ≡ none
      → test new ≡ true
      → first test (insert new l) ≡ some new
  first-insert new [] e h = unfold insert in first_hit new [] h
  first-insert new (cur ∷ rest) e h = elim (Bool-cases (precedes new cur)) [
    | inl front ↦ unfold insert in rw (front, insert) (first_hit new (cur ∷ rest) h)
    | inr later ↦
        let (miss, others) = first-none cur rest e in
        unfold insert in
        rw (later, insert)
          (first_miss cur (insert_after new rest) miss ∙ first-insert_after new rest others h)
  ]

  pub first-All :
      (P : Item → Type 0) (l : List Item) (c : Item) → All P l → first test l ≡ some c → P c
  first-All P [] c h e = let e' : none ≡ some c = unfold first in e in cc
  first-All P (cur ∷ rest) c h e = elim (Bool-cases (test cur)) [
    | inl hit ↦
        let same : some cur ≡ some c = sym (first_hit cur rest hit) ∙ e in
        let q : cur ≡ c = cc in subst P q h.0
    | inr miss ↦ first-All P rest c h.1 (sym (first_miss cur rest miss) ∙ e)
  ]

  pub first_holds : (l : List Item) (c : Item) → first test l ≡ some c → test c ≡ true
  first_holds [] c e = let e' : none ≡ some c = unfold first in e in cc
  first_holds (cur ∷ rest) c e = elim (Bool-cases (test cur)) [
    | inl h ↦
        let same : some cur ≡ some c = sym (first_hit cur rest h) ∙ e in
        let q : cur ≡ c = cc in subst (λ x. test x ≡ true) q h
    | inr h ↦ first_holds rest c (sym (first_miss cur rest h) ∙ e)
  ]

  set_tlvs_past :
      (cur : Item) (rest : List Item) (addr : ℕ) (chain : List Tlv)
      → (cur.addr == addr) ≡ false
      → set_tlvs (cur ∷ rest) addr chain ≡ cur ∷ set_tlvs rest addr chain
  set_tlvs_past cur rest addr chain h = unfold set_tlvs in rw (h, set_tlvs) refl

  deref_past :
      (cur : Item) (rest : List Item) (addr : ℕ)
      → (cur.addr == addr) ≡ false
      → deref (cur ∷ rest) addr ≡ deref rest addr
  deref_past cur rest addr h = unfold deref in rw (h, deref) refl

  -- The item that is found, with another chain, is found again.
  pub first-set_tlvs :
      (l : List Item) (c : Item) (chain : List Tlv)
      → test (record c { tlvs = chain }) ≡ true
      → first test l ≡ some c
      → deref l c.addr ≡ some c
      → first test (set_tlvs l c.addr chain) ≡ some (record c { tlvs = chain })
  first-set_tlvs [] c chain t e d = let e' : none ≡ some c = unfold first in e in cc
  first-set_tlvs (cur ∷ rest) c chain t e d = elim (Bool-cases (cur.addr == c.addr)) [
    | inl here ↦
        let d' : some cur ≡ some c = unfold deref in rw (here, deref) at d in
        let q : cur ≡ c = cc in
        unfold set_tlvs in
        rw (here, set_tlvs)
          (first_hit (record cur { tlvs = chain }) rest
              (subst (λ x. test (record x { tlvs = chain }) ≡ true) (sym q) t)
            ∙ ap {A = Item} (λ x. some (record x { tlvs = chain })) q)
    | inr past ↦ elim (Bool-cases (test cur)) [
      | inl h ↦ absurd (elsewhere past h)
      | inr h ↦ rw (set_tlvs_past cur rest c.addr chain past) (
          first_miss cur (set_tlvs rest c.addr chain) h
          ∙ first-set_tlvs rest c chain t (sym (first_miss cur rest h) ∙ e)
              (sym (deref_past cur rest c.addr past) ∙ d))
    ]
  ]
    where
      elsewhere : (cur.addr == c.addr) ≡ false → test cur ≡ true → ⊥
      elsewhere p h =
          let same : some cur ≡ some c = sym (first_hit cur rest h) ∙ e in
          let q : cur.addr ≡ c.addr = cc in
          let hit : (cur.addr == c.addr) ≡ true = (==_iff cur.addr c.addr).1 q in cc
