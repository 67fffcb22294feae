-- ===== src/Ssi/Numbers.antt =====
-- ssi.c: the search of aim_ssi_itemlist_add for a free group or buddy number comes to its end.
use irssi_icq.Base.{
  ℕ, zero, suc, [], ◌∷◌, ◌≡◌, refl, List, Bool, ◌+◌, ◌≤◌, if◌then◌else◌, false, ◌<◌, true, ◌==◌,
  length, ltb, arith, ◌^◌, none, some, Bool-cases, inl, ◌%◌, inr, Option-cases, ◌≢◌, sym, subst,
  ◌∙◌, ==_iff, Option,
}
use irssi_icq.Ssi.{Item, group, gid_taken, bid_taken, free_loop, pick_gid, pick_bid}

abbrev has : ℕ → List ℕ → Bool
has i [] = false
has i (x ∷ xs) = if x == i then true else has i xs

-- How many numbers of a list are below a bound.
abbrev below : ℕ → List ℕ → ℕ
below m [] = 0
below m (x ∷ xs) = (if ltb x m then 1 else 0) + below m xs

below-le-length : (m : ℕ) (xs : List ℕ) → below m xs ≤ length xs
below-le-length m [] = omega arith
below-le-length m (x ∷ xs) = ground (arith, below-le-length m xs)

below_mono : (m : ℕ) (xs : List ℕ) → below m xs ≤ below (m + 1) xs
below_mono m [] = omega arith
below_mono m (x ∷ xs) = ground (arith, below_mono m xs)

below-suc : (m : ℕ) (xs : List ℕ) → has m xs ≡ true → below m xs + 1 ≤ below (m + 1) xs
below-suc m [] h = cc
below-suc m (x ∷ xs) h = ground (arith, below-suc m xs, below_mono m xs)

-- Numbers that are all in a list are no more than it is long.
all_has-below : (m : ℕ) (xs : List ℕ) → ((i : ℕ) → i < m → has i xs ≡ true) → m ≤ below m xs
all_has-below zero xs h = omega arith
all_has-below (suc m) xs h = omega (arith, all_has-below m xs (λ i k. h i (omega arith)), below_at)
  where
    below_at : below m xs + 1 ≤ below (suc m) xs
    below_at = rw (← plus_one) (below-suc m xs (h m (omega arith)))
      where
        plus_one : m + 1 ≡ suc m
        plus_one = omega arith

module _ (fuel : ℕ) (taken : ℕ → Bool) (id : ℕ) where
  free_loop_busy :
      taken id ≡ true → free_loop (suc fuel) taken id ≡ free_loop fuel taken ((id + 1) % 2 ^ 16)
  free_loop_busy e = unfold free_loop in rw (e, free_loop) refl

  free_loop_idle : taken id ≡ false → free_loop (suc fuel) taken id ≡ some id
  free_loop_idle e = unfold free_loop in rw (e, free_loop) refl

-- A search that finds nothing has passed taken numbers only.
free_loop-none :
    (fuel : ℕ) (taken : ℕ → Bool) (id i : ℕ)
    → id + fuel ≤ 2 ^ 16
    → free_loop fuel taken id ≡ none
    → id ≤ i
    → i < id + fuel
    → taken i ≡ true
free_loop-none zero taken id i b e lo hi = absurd (omega arith)
free_loop-none (suc fuel) taken id i b e lo hi = elim (Bool-cases (taken id)) [
  | inl busy ↦ elim (Bool-cases (id == i)) [
    | inl same ↦ subst (λ k. taken k ≡ true) ((==_iff id i).0 same) busy
    | inr other ↦
        let apart : id ≢ i = λ q. ne_of other q in
        let stepped : (id + 1) % 2 ^ 16 ≡ id + 1 = omega arith in
        free_loop-none fuel taken (id + 1) i (omega arith)
          (subst (λ k. free_loop fuel taken k ≡ none) stepped
            (sym (free_loop_busy fuel taken id busy) ∙ e))
          (omega arith) (omega arith)
  ]
  | inr idle ↦ absurd (some_ne_none (sym (free_loop_idle fuel taken id idle) ∙ e))
]
  where
    ne_of : (id == i) ≡ false → id ≢ i
    ne_of o q = ground arith

    some_ne_none : some id ≡ none → ⊥
    some_ne_none q = cc

free_loop-free :
    (fuel : ℕ) (taken : ℕ → Bool) (id i : ℕ)
    → id < 2 ^ 16
    → free_loop fuel taken id ≡ some i
    → (taken i ≡ false) × (i < 2 ^ 16)
free_loop-free zero taken id i b e = absurd (never e)
  where
    never : free_loop zero taken id ≡ some i → ⊥
    never q = unfold free_loop in cc
free_loop-free (suc fuel) taken id i b e = elim (Bool-cases (taken id)) [
  | inl busy ↦
      free_loop-free fuel taken ((id + 1) % 2 ^ 16) i (omega arith)
        (sym (free_loop_busy fuel taken id busy) ∙ e)
  | inr idle ↦ found (sym (free_loop_idle fuel taken id idle) ∙ e) idle
]
  where
    found : some id ≡ some i → taken id ≡ false → (taken i ≡ false) × (i < 2 ^ 16)
    found q idle = ground arith

-- A search over fewer numbers than there are, one round more than the taken ones, finds a free one.
free_loop_total :
    (used : List ℕ) (taken : ℕ → Bool) (n : ℕ)
    → ((i : ℕ) → taken i ≡ has i used)
    → length used ≤ n
    → n + 1 < 2 ^ 16
    → (i : ℕ) × (free_loop (n + 1) taken 0 ≡ some i) × (taken i ≡ false) × (i < 2 ^ 16)
free_loop_total used taken n t h b = elim (Option-cases (free_loop (n + 1) taken 0)) [
  | inl never ↦
      let busy : (i : ℕ) → i < n + 1 → has i used ≡ true = λ i k.
        sym (t i)
        ∙ free_loop-none (n + 1) taken 0 i (omega arith) never (omega arith) (omega arith) in
      absurd (omega (arith, all_has-below (n + 1) used busy, below-le-length (n + 1) used))
  | inr (i, e) ↦
      let free = free_loop-free (n + 1) taken 0 i (omega arith) e in (i, e, free.0, free.1)
]

-- The numbers that the inner loops find taken.
abbrev gids : List Item → List ℕ
gids [] = []
gids (cur ∷ rest) = if cur.type == group then cur.gid ∷ gids rest else gids rest

abbrev bids : List Item → ℕ → List ℕ
bids [] gid = []
bids (cur ∷ rest) gid = if cur.gid == gid then cur.bid ∷ bids rest gid else bids rest gid

gid_taken-has : (list : List Item) (i : ℕ) → gid_taken list i ≡ has i (gids list)
unfolding gid_taken
gid_taken-has [] i = refl
gid_taken-has (cur ∷ rest) i = ground (arith, gid_taken-has rest i)

bid_taken-has : (list : List Item) (gid i : ℕ) → bid_taken list gid i ≡ has i (bids list gid)
unfolding bid_taken
bid_taken-has [] gid i = refl
bid_taken-has (cur ∷ rest) gid i = ground (arith, bid_taken-has rest gid i)

length-gids : (list : List Item) → length (gids list) ≤ length list
length-gids [] = omega arith
length-gids (cur ∷ rest) = ground (arith, length-gids rest)

length-bids : (list : List Item) (gid : ℕ) → length (bids list gid) ≤ length list
length-bids [] gid = omega arith
length-bids (cur ∷ rest) gid = ground (arith, length-bids rest gid)

abbrev pub FreeGid : List Item → Option ℕ → Type 0
FreeGid list o = (g : ℕ) × (o ≡ some g) × (gid_taken list g ≡ false) × (g < 2 ^ 16)

abbrev pub FreeBid : List Item → ℕ → Option ℕ → Type 0
FreeBid list gid o = (b : ℕ) × (o ≡ some b) × (bid_taken list gid b ≡ false) × (b < 2 ^ 16)

pub pick_gid_free :
    (list : List Item) (name : List ℕ)
    → length list + 1 < 2 ^ 16
    → FreeGid list (pick_gid list (some name) 0xffff group)
unfolding pick_gid
pick_gid_free list name h =
    free_loop_total (gids list) (gid_taken list) (length list) (gid_taken-has list)
      (length-gids list) (omega arith)

pub pick_bid_free :
    (list : List Item) (gid type : ℕ)
    → (type == group) ≡ false
    → length list + 1 < 2 ^ 16
    → FreeBid list gid (pick_bid list gid 0xffff type)
pick_bid_free list gid type k h = rw searched (
    free_loop_total (bids list gid) (bid_taken list gid) (length list) (bid_taken-has list gid)
      (length-bids list gid) (omega arith))
  where
    searched : pick_bid list gid 0xffff type ≡ free_loop (length list + 1) (bid_taken list gid) 0
    searched = unfold pick_bid in rw (k, pick_bid) refl

-- With fewer than 65535 items in the list, the search for a number comes to its end: a new group that
-- asks for one, and has a name, gets a group number that no group has, and an item of another type
-- that asks for one gets a buddy number that no item of its group number has.
pub pick_free :
    (list : List Item) (name : List ℕ) (gid type : ℕ)
    → (type == group) ≡ false
    → length list + 1 < 2 ^ 16
    → FreeGid list (pick_gid list (some name) 0xffff group)
      × FreeBid list gid (pick_bid list gid 0xffff type)
pick_free list name gid type k h = (pick_gid_free list name h, pick_bid_free list gid type k h)
