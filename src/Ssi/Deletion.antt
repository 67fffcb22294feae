-- ===== src/Ssi/Deletion.antt =====
-- ssi.c: aim_ssi_itemlist_del keeps the order of the lists, and takes out one item.
use irssi_icq.Base.{
  ℕ, List, ◌+◌, ◌≤◌, ◌∷◌, ◌==◌, ◌≡◌, false, arith, true, if◌then◌else◌, some, none, refl,
  Bool-cases, [], ◌&&◌, inl, sym, inr, ◌∙◌, subst,
}
use irssi_icq.Ssi.{Item, itemlist_find, itemlist_del, ℕ, List}
use irssi_icq.Ssi.Items.{key, IsNumbered, Above, IsSorted}
use irssi_icq.Ssi.Sync.{deref}

Above-weaken : (m n : ℕ) (l : List Item) → m ≤ n → Above n l → Above m l
Above-weaken m n [] h a = tt
Above-weaken m n (cur ∷ rest) h a = (a.0, omega (arith, h, a.1), a.2)

module _ (cur : Item) (rest : List Item) (addr : ℕ) where
  pub deref_past : (cur.addr == addr) ≡ false → deref (cur ∷ rest) addr ≡ deref rest addr
  deref_past h = unfold deref in rw (h, deref) refl

  pub deref_here : (cur.addr == addr) ≡ true → deref (cur ∷ rest) addr ≡ some cur
  deref_here h = unfold deref in rw (h, deref) refl

  pub itemlist_del_past :
      (cur.addr == addr) ≡ false → itemlist_del (cur ∷ rest) addr ≡ cur ∷ itemlist_del rest addr
  itemlist_del_past h = unfold itemlist_del in rw (h, itemlist_del) refl

  pub itemlist_del_here : (cur.addr == addr) ≡ true → itemlist_del (cur ∷ rest) addr ≡ rest
  itemlist_del_here h = unfold itemlist_del in rw (h, itemlist_del) refl

-- What a pointer leads to is an item of the list, with numbers in its range.
deref-Above :
    (l : List Item) (m addr : ℕ) (c : Item)
    → deref l addr ≡ some c
    → Above m l
    → IsNumbered c × (m ≤ key c)
deref-Above [] m addr c e a = let e' : none ≡ some c = unfold deref in e in cc
deref-Above (cur ∷ rest) m addr c e a = elim (Bool-cases (cur.addr == addr)) [
  | inl here ↦
      let same : some cur ≡ some c = sym (deref_here cur rest addr here) ∙ e in
      let q : cur ≡ c = cc in subst (λ x. IsNumbered x × (m ≤ key x)) q (a.0, a.1)
  | inr past ↦
      let (n, k) =
        deref-Above rest (key cur + 1) addr c (sym (deref_past cur rest addr past) ∙ e) a.2 in
      (n, omega (arith, k, a.1))
]

itemlist_find-Above :
    (l : List Item) (c : Item)
    → IsNumbered c
    → Above (key c + 1) l
    → itemlist_find l c.gid c.bid ≡ none
unfolding itemlist_find
itemlist_find-Above [] c n a = refl
itemlist_find-Above (cur ∷ rest) c n a =
    let others =
      itemlist_find-Above rest c n
        (Above-weaken (key c + 1) (key cur + 1) rest (omega (arith, a.1)) a.2) in
    ground (arith, others, n, a.0, a.1)

itemlist_del-Above :
    (l : List Item) (m : ℕ) (c : Item)
    → deref l c.addr ≡ some c
    → Above m l
    → Above m (itemlist_del l c.addr)
itemlist_del-Above [] m c e a = unfold itemlist_del in tt
itemlist_del-Above (cur ∷ rest) m c e a = elim (Bool-cases (cur.addr == c.addr)) [
  | inl here ↦
      rw (itemlist_del_here cur rest c.addr here)
        (Above-weaken m (key cur + 1) rest (omega (arith, a.1)) a.2)
  | inr past ↦ rw (itemlist_del_past cur rest c.addr past) (
    a.0,
    a.1,
    itemlist_del-Above rest (key cur + 1) c (sym (deref_past cur rest c.addr past) ∙ e) a.2,
  )
]

find_cons :
    (cur : Item) (rest : List Item) (g b : ℕ)
    → itemlist_find (cur ∷ rest) g b
      ≡ (if cur.gid == g && cur.bid == b then some cur else itemlist_find rest g b)
unfolding itemlist_find
find_cons cur rest g b = refl

-- Behind an item of a sorted list nothing has its numbers.
find_behind :
    (cur : Item) (rest : List Item) (g b : ℕ)
    → IsNumbered cur
    → Above (key cur + 1) rest
    → itemlist_find rest g b
      ≡ (if cur.gid == g && cur.bid == b then none else itemlist_find (cur ∷ rest) g b)
find_behind cur rest g b n a = elim (Bool-cases (cur.gid == g && cur.bid == b)) [
  | inl hit ↦ let (x, y) = both hit in rw (hit, ← x, ← y) (itemlist_find-Above rest cur n a)
  | inr miss ↦ rw (miss) (ground (find_cons cur rest g b, miss, arith))
]
  where
    both : (cur.gid == g && cur.bid == b) ≡ true → (cur.gid ≡ g) × (cur.bid ≡ b)
    both h = ground (arith, h)

find-itemlist_del :
    (l : List Item) (m : ℕ) (c : Item) (g b : ℕ)
    → deref l c.addr ≡ some c
    → Above m l
    → itemlist_find (itemlist_del l c.addr) g b
      ≡ (if c.gid == g && c.bid == b then none else itemlist_find l g b)
find-itemlist_del [] m c g b e a = let e' : none ≡ some c = unfold deref in e in cc
find-itemlist_del (cur ∷ rest) m c g b e a = elim (Bool-cases (cur.addr == c.addr)) [
  | inl here ↦
      let same : some cur ≡ some c = sym (deref_here cur rest c.addr here) ∙ e in
      let q : cur ≡ c = cc in rw (itemlist_del_here cur rest c.addr here) (taken q)
  | inr past ↦
      let e' = sym (deref_past cur rest c.addr past) ∙ e in
      let (n, k) = deref-Above rest (key cur + 1) c.addr c e' a.2 in
      let others = find-itemlist_del rest (key cur + 1) c g b e' a.2 in
      rw (itemlist_del_past cur rest c.addr past) (
        ground (
          arith,
          others,
          find_cons cur (itemlist_del rest c.addr) g b,
          find_cons cur rest g b,
          n,
          k,
          a.0,
        ))
]
  where
    taken :
        cur ≡ c
        → itemlist_find rest g b
          ≡ (if c.gid == g && c.bid == b then none else itemlist_find (cur ∷ rest) g b)
    taken q =
        subst
          (λ x.
            itemlist_find rest g b
            ≡ (if x.gid == g && x.bid == b then none else itemlist_find (cur ∷ rest) g b))
          q (find_behind cur rest g b a.0 a.2)

-- Deleting the item that an address leads to keeps a list sorted; looking for the numbers of the item
-- finds nothing then, and looking for other numbers what was found before.
pub itemlist_del-IsSorted :
    (l : List Item) (c : Item)
    → IsSorted l
    → deref l c.addr ≡ some c
    → IsSorted (itemlist_del l c.addr)
      × ((g b : ℕ)
          → itemlist_find (itemlist_del l c.addr) g b
            ≡ (if c.gid == g && c.bid == b then none else itemlist_find l g b))
itemlist_del-IsSorted l c h e =
    (itemlist_del-Above l 0 c e h, λ g b. find-itemlist_del l 0 c g b e h)
