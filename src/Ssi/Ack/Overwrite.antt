-- ===== src/Ssi/Ack/Overwrite.antt =====
-- ssi.c: what is found in a list after a write to one of its items.
use irssi_icq.Base.{
  ℕ, List, ◌≡◌, ◌≢◌, [], some, ◌==◌, ==_iff, ==_refl, ==_false, ◌∷◌, refl, ◌&&◌, none, false, true,
  arith, ◌∙◌, sym, ap, Option, All, if◌then◌else◌, Option-cases, Bool-cases, inl, inr, if_true,
  subst, if_false,
}
use irssi_icq.Ssi.{Item, itemlist_find}
use irssi_icq.Ssi.Deletion.{deref_past, deref_here}
use irssi_icq.Ssi.Edit.{set_tlvs, set_name}
use irssi_icq.Ssi.Sync.{deref}
use irssi_icq.Ssi.Ack.{overwrite}
use irssi_icq.Ssi.Ack.Common.{IsDistinct}

-- The official item once the local one `x` is copied to it.
abbrev pub copied : Item → Item → Item
copied x c = record c { name = x.name; tlvs = x.tlvs }

-- Writing through an address changes that item alone.
overwrite-past :
    (d : Item) (o : List Item) (a : ℕ) (x : Item)
    → (d.addr == a) ≡ false
    → overwrite (d ∷ o) a x ≡ d ∷ overwrite o a x
unfolding overwrite set_name set_tlvs
overwrite-past d o a x e = rw (e, set_name, set_tlvs) (rw (e, set_tlvs) refl)

overwrite-here :
    (d : Item) (o : List Item) (a : ℕ) (x : Item)
    → (d.addr == a) ≡ true
    → overwrite (d ∷ o) a x ≡ copied x d ∷ o
unfolding overwrite set_name set_tlvs
overwrite-here d o a x e = ground (arith, e)

find-cons :
    (d : Item) (o : List Item) (g b : ℕ)
    → itemlist_find (d ∷ o) g b ≡ (if d.gid == g && d.bid == b then some d else itemlist_find o g b)
unfolding itemlist_find
find-cons d o g b = refl

module _ (g b : ℕ) where
  -- What holds of all items holds of the one that is found.
  found-All {ℓ} :
      (P : Item → Type ℓ) (o : List Item) (c : Item) → All P o → itemlist_find o g b ≡ some c → P c
  found-All P [] c h e = absurd (nothing c e)
    where
      nothing : (c : Item) → itemlist_find [] g b ≡ some c → ⊥
      nothing c e = unfold itemlist_find in cc
  found-All P (d ∷ o) c h e = elim (Bool-cases (d.gid == g && d.bid == b)) [
    | inl n ↦
        let q : some d ≡ some c = sym (find-cons d o g b ∙ if_true _ _ n) ∙ e in
        let same : d ≡ c = cc in subst P same h.0
    | inr n ↦ found-All P o c h.1 (sym (find-cons d o g b ∙ if_false _ _ n) ∙ e)
  ]

  -- A found item has the numbers that were looked for.
  pub found-numbers :
      (o : List Item) (c : Item) → itemlist_find o g b ≡ some c → (c.gid ≡ g) × (c.bid ≡ b)
  unfolding itemlist_find
  found-numbers [] c e = absurd (cc)
  found-numbers (d ∷ o) c e = ground (arith, e, found-numbers o c)

  -- In a list of different addresses a found item is at its address.
  found-deref :
      (o : List Item) (c : Item)
      → IsDistinct o
      → itemlist_find o g b ≡ some c
      → deref o c.addr ≡ some c
  found-deref [] c h e = absurd (nothing c e)
    where
      nothing : (c : Item) → itemlist_find [] g b ≡ some c → ⊥
      nothing c e = unfold itemlist_find in cc
  found-deref (d ∷ o) c h e = elim (Bool-cases (d.gid == g && d.bid == b)) [
    | inl n ↦
        let q : some d ≡ some c = sym (find-cons d o g b ∙ if_true _ _ n) ∙ e in
        let same : d ≡ c = cc in
        subst (λ (t : Item). deref (d ∷ o) t.addr ≡ some t) same
          (deref_here d o d.addr (==_refl d.addr))
    | inr n ↦
        let e' : itemlist_find o g b ≡ some c = sym (find-cons d o g b ∙ if_false _ _ n) ∙ e in
        let apart : d.addr ≢ c.addr = found-All (λ t. d.addr ≢ t.addr) o c h.0 e' in
        deref_past d o c.addr (==_false d.addr c.addr apart) ∙ found-deref o c h.1 e'
  ]

  -- What is found after a write.
  abbrev pub touched : ℕ → Item → Option Item → Option Item
  touched a x none = none
  touched a x (some d) = some (if d.addr == a then copied x d else d)

  touched-elsewhere :
      (o : List Item) (a : ℕ) (x : Item)
      → All (λ (c : Item). a ≢ c.addr) o
      → itemlist_find o g b ≡ touched a x (itemlist_find o g b)
  touched-elsewhere o a x h = elim (Option-cases (itemlist_find o g b)) [
    | inl e ↦ e ∙ sym (ap (touched a x) e)
    | inr (c, e) ↦
        let apart : a ≢ c.addr = found-All (λ t. a ≢ t.addr) o c h e in
        let other : (c.addr == a) ≡ false = ==_false c.addr a (λ q. apart (sym q)) in
        e ∙ sym (ap (touched a x) e ∙ ap some (if_false _ _ other))
  ]

  pub find-overwrite :
      (o : List Item) (a : ℕ) (x : Item)
      → IsDistinct o
      → itemlist_find (overwrite o a x) g b ≡ touched a x (itemlist_find o g b)
  find-overwrite [] a x h = unfold itemlist_find in unfold overwrite in refl
  find-overwrite (d ∷ o) a x h = elim (Bool-cases (d.gid == g && d.bid == b)) [
    | inl n ↦
        let found = ap (touched a x) (find-cons d o g b ∙ if_true _ _ n) in
        elim (Bool-cases (d.addr == a)) [
          | inl e ↦
              ap (λ l. itemlist_find l g b) (overwrite-here d o a x e)
              ∙ find-cons (copied x d) o g b
              ∙ if_true _ _ n
              ∙ sym (found ∙ ap some (if_true _ _ e))
          | inr e ↦
              ap (λ l. itemlist_find l g b) (overwrite-past d o a x e)
              ∙ find-cons d (overwrite o a x) g b
              ∙ if_true _ _ n
              ∙ sym (found ∙ ap some (if_false _ _ e))
        ]
    | inr n ↦
        let passed = ap (touched a x) (find-cons d o g b ∙ if_false _ _ n) in
        elim (Bool-cases (d.addr == a)) [
          | inl e ↦
              let apart : All (λ (c : Item). a ≢ c.addr) o =
                subst (λ k. All (λ (c : Item). k ≢ c.addr) o) ((==_iff d.addr a).0 e) h.0 in
              ap (λ l. itemlist_find l g b) (overwrite-here d o a x e)
              ∙ find-cons (copied x d) o g b
              ∙ if_false _ _ n
              ∙ touched-elsewhere o a x apart
              ∙ sym passed
          | inr e ↦
              ap (λ l. itemlist_find l g b) (overwrite-past d o a x e)
              ∙ find-cons d (overwrite o a x) g b
              ∙ if_false _ _ n
              ∙ find-overwrite o a x h.1
              ∙ sym passed
        ]
  ]

-- Other numbers are found as before.
pub find-overwrite_other :
    (o : List Item) (x c : Item) (g b : ℕ)
    → IsDistinct o
    → itemlist_find o x.gid x.bid ≡ some c
    → (x.gid == g && x.bid == b) ≡ false
    → itemlist_find (overwrite o c.addr x) g b ≡ itemlist_find o g b
find-overwrite_other o x c g b h f other = elim (Option-cases (itemlist_find o g b)) [
  | inl e ↦ find-overwrite g b o c.addr x h ∙ ap (touched g b c.addr x) e ∙ sym e
  | inr (d, e) ↦ elim (Bool-cases (d.addr == c.addr)) [
    | inl q ↦
        let at_d = found-deref g b o d h e in
        let at_c = found-deref x.gid x.bid o c h f in
        let same : some d ≡ some c = sym at_d ∙ ap (deref o) ((==_iff d.addr c.addr).0 q) ∙ at_c in
        let item : d ≡ c = cc in
        let m = found-numbers g b o d e in
        let n = found-numbers x.gid x.bid o c f in
        let gid : d.gid ≡ c.gid = ap (λ (t : Item). t.gid) item in
        let bid : d.bid ≡ c.bid = ap (λ (t : Item). t.bid) item in
        absurd (clash (sym n.0 ∙ sym gid ∙ m.0) (sym n.1 ∙ sym bid ∙ m.1))
    | inr q ↦
        find-overwrite g b o c.addr x h
        ∙ ap (touched g b c.addr x) e
        ∙ ap some (if_false _ _ q)
        ∙ sym e
  ]
]
  where
    clash : x.gid ≡ g → x.bid ≡ b → ⊥
    clash p q = ground (arith, p, q, other)
