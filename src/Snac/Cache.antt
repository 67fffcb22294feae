-- ===== src/Snac/Cache.antt =====
-- snac.c: the chains of the cache, and looking up an entry in them.
use irssi_icq.Base.{
  Option, List, ℕ, ◌%◌, ◌≡◌, ◌∷◌, some, none, if◌then◌else◌, [], ◌==◌, arith, refl, true, false,
  Bool-cases, ltb, ◌+◌, inl, subst, inr, ==_iff, ◌∙◌, sym, ap,
}
use irssi_icq.Snac.{
  Snac, Session, hash_size, set_chain, released, rem_loop, clean_loop, List, ℕ, Option,
}

-- The entry of an identifier in a chain: the newest.
abbrev pub entry : List Snac → ℕ → Option Snac
entry [] id = none
entry (cur ∷ rest) id = if cur.id == id then some cur else entry rest id

-- The entry of an identifier.
abbrev pub outstanding : Session → ℕ → Option Snac
outstanding sess id = entry (sess.snac_hash (id % hash_size)) id

-- No identifier twice in a chain.
abbrev pub IsDistinct : List Snac → Type 0
IsDistinct [] = Unit {0}
IsDistinct (cur ∷ rest) = (entry rest cur.id ≡ none) × IsDistinct rest

abbrev pub IsCache : Session → Type 0
IsCache sess = (i : ℕ) → IsDistinct (sess.snac_hash i)

abbrev pub hand_out : Option Snac → Option Snac
hand_out none = none
hand_out (some cur) = some (released cur)

module _ (cur : Snac) (rest : List Snac) (id : ℕ) where
  rem_loop_hit : (cur.id == id) ≡ true → rem_loop (cur ∷ rest) id ≡ (some (released cur), rest)
  rem_loop_hit h = unfold rem_loop in rw (h, rem_loop) refl

  rem_loop_miss :
      (cur.id == id) ≡ false
      → rem_loop (cur ∷ rest) id ≡ ((rem_loop rest id).0, cur ∷ (rem_loop rest id).1)
  rem_loop_miss h = unfold rem_loop in rw (h, rem_loop) refl

  entry_gone :
      (k : ℕ)
      → (cur.id == id) ≡ true
      → entry rest cur.id ≡ none
      → entry rest k ≡ (if k == id then none else entry (cur ∷ rest) k)
  entry_gone k h e = elim (Bool-cases (k == id)) [
    | inl same ↦
        rw (same)
          (subst (λ n. entry rest n ≡ none) ((==_iff cur.id id).0 h ∙ sym ((==_iff k id).0 same)) e)
    | inr other ↦ rw (other) (ground (arith, h, other))
  ]

pub rem_loop_lem :
    (l : List Snac) (id k : ℕ)
    → IsDistinct l
    → ((rem_loop l id).0 ≡ hand_out (entry l id))
      × (entry (rem_loop l id).1 k ≡ (if k == id then none else entry l k))
rem_loop_lem [] id k h = unfold rem_loop in ground arith
rem_loop_lem (cur ∷ rest) id k h = elim (Bool-cases (cur.id == id)) [
  | inl hit ↦ rw (rem_loop_hit cur rest id hit, hit) (refl, entry_gone cur rest id k hit h.0)
  | inr miss ↦
      let (found, left) = rem_loop_lem rest id k h.1 in
      rw (rem_loop_miss cur rest id miss, miss) (found, ground (arith, left, miss))
]

pub rem_loop-IsDistinct : (l : List Snac) (id : ℕ) → IsDistinct l → IsDistinct (rem_loop l id).1
rem_loop-IsDistinct [] id h = unfold rem_loop in tt
rem_loop-IsDistinct (cur ∷ rest) id h = elim (Bool-cases (cur.id == id)) [
  | inl hit ↦ rw (rem_loop_hit cur rest id hit) h.1
  | inr miss ↦
      let left = (rem_loop_lem rest id cur.id h.1).1 in
      rw (rem_loop_miss cur rest id miss) (left ∙ rw (miss) h.0, rem_loop-IsDistinct rest id h.1)
]

abbrev pub keep : Option Snac → ℕ → ℕ → Option Snac
keep none now maxage = none
keep (some cur) now maxage = if ltb (cur.issuetime + maxage) now then none else some cur

clean_loop_old :
    (cur : Snac) (rest : List Snac) (now maxage : ℕ)
    → ltb (cur.issuetime + maxage) now ≡ true
    → clean_loop (cur ∷ rest) now maxage ≡ clean_loop rest now maxage
clean_loop_old cur rest now maxage h = unfold clean_loop in rw (h, clean_loop) refl

clean_loop_young :
    (cur : Snac) (rest : List Snac) (now maxage : ℕ)
    → ltb (cur.issuetime + maxage) now ≡ false
    → clean_loop (cur ∷ rest) now maxage ≡ cur ∷ clean_loop rest now maxage
clean_loop_young cur rest now maxage h = unfold clean_loop in rw (h, clean_loop) refl

pub clean_loop_lem :
    (l : List Snac) (now maxage id : ℕ)
    → IsDistinct l
    → entry (clean_loop l now maxage) id ≡ keep (entry l id) now maxage
clean_loop_lem [] now maxage id h = unfold clean_loop in refl
clean_loop_lem (cur ∷ rest) now maxage id h =
    let others = clean_loop_lem rest now maxage id h.1 in
    elim (Bool-cases (ltb (cur.issuetime + maxage) now)) [
      | inl old ↦ rw (clean_loop_old cur rest now maxage old) (elim (Bool-cases (cur.id == id)) [
        | inl hit ↦ rw (hit) (
            rw (old) (
              others
              ∙ ap (λ o. keep o now maxage)
                  (subst (λ n. entry rest n ≡ none) ((==_iff cur.id id).0 hit) h.0)))
        | inr miss ↦ rw (miss) others
      ])
      | inr young ↦
          rw (clean_loop_young cur rest now maxage young) (elim (Bool-cases (cur.id == id)) [
            | inl hit ↦ rw (hit) (rw (young) refl)
            | inr miss ↦ rw (miss) others
          ])
    ]

pub clean_loop-IsDistinct :
    (l : List Snac) (now maxage : ℕ) → IsDistinct l → IsDistinct (clean_loop l now maxage)
clean_loop-IsDistinct [] now maxage h = unfold clean_loop in tt
clean_loop-IsDistinct (cur ∷ rest) now maxage h =
    let others = clean_loop-IsDistinct rest now maxage h.1 in
    elim (Bool-cases (ltb (cur.issuetime + maxage) now)) [
      | inl old ↦ rw (clean_loop_old cur rest now maxage old) others
      | inr young ↦
          rw (clean_loop_young cur rest now maxage young)
            (clean_loop_lem rest now maxage cur.id h.1 ∙ ap (λ o. keep o now maxage) h.0, others)
    ]

-- The cache with another chain at the index of `id`, in which only the entry of `id` differs.
pub set_chain_lem :
    (sess : Session) (id : ℕ) (chain : List Snac) (o : Option Snac)
    → ((k : ℕ) → entry chain k ≡ (if k == id then o else entry (sess.snac_hash (id % hash_size)) k))
    → (k : ℕ)
    → outstanding (set_chain sess (id % hash_size) chain) k
      ≡ (if k == id then o else outstanding sess k)
set_chain_lem sess id chain o h k = elim (Bool-cases (k % hash_size == id % hash_size)) [
  | inl same ↦ rw (same) (
      h k ∙ ap (λ i. if k == id then o else entry (sess.snac_hash i) k) (sym ((==_iff _ _).0 same)))
  | inr apart ↦ rw (apart) (rw (distinct apart) refl)
]
  where
    distinct : (k % hash_size == id % hash_size) ≡ false → (k == id) ≡ false
    distinct e = elim (Bool-cases (k == id)) [
      | inl q ↦ absurd (clash e ((==_iff k id).0 q))
      | inr q ↦ q
    ]
      where
        clash : (k % hash_size == id % hash_size) ≡ false → k ≡ id → ⊥
        clash e q =
            let e' : (k % hash_size == id % hash_size) ≡ true =
              (==_iff _ _).1 (ap (λ n. n % hash_size) q) in
            cc

pub set_chain-IsCache :
    (sess : Session) (index : ℕ) (chain : List Snac)
    → IsCache sess
    → IsDistinct chain
    → IsCache (set_chain sess index chain)
set_chain-IsCache sess index chain h d i = elim (Bool-cases (i == index)) [
  | inl here ↦ rw (here) d
  | inr past ↦ rw (past) (h i)
]
