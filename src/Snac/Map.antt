-- ===== src/Snac/Map.antt =====
-- snac.c: the cache as a map from identifiers to entries.
use irssi_icq.Base.{
  ℕ, ◌%◌, ◌≡◌, Bool-cases, List, ltb, Option, ◌+◌, inl, if◌then◌else◌, true, none, ◌^◌, ◌∷◌, inr,
  ◌==◌, arith, some, take, refl,
}
use irssi_icq.Snac.{Snac, Session, hash_size, cachesnac, newsnac, rem_loop, remsnac, cleansnacs, ℕ}
use irssi_icq.Snac.Cache.{
  outstanding, IsCache, hand_out, keep, rem_loop_lem, rem_loop-IsDistinct, clean_loop_lem,
  clean_loop-IsDistinct, set_chain_lem, set_chain-IsCache,
}

-- The entry that is cached for a SNAC.
abbrev pub fresh_snac : ℕ → Session → ℕ → ℕ → ℕ → List ℕ → ℕ → Snac
fresh_snac now sess family type flags bytes datalen = record {
  id = sess.snacid_next;
  family = family;
  type = type;
  flags = flags;
  content = if datalen == 0 then none else some (take datalen bytes);
  issuetime = now;
}

-- The outcome of caching: the identifier, and a cache with the new entry.
abbrev pub Stores : Session → Snac → ℕ × Session → Type 0
Stores sess snac (id, sess') =
    (id ≡ sess.snacid_next)
    × (sess'.snacid_next ≡ (sess.snacid_next + 1) % 2 ^ 32)
    × IsCache sess'
    × ((k : ℕ)
        → outstanding sess' k ≡ (if k == sess.snacid_next then some snac else outstanding sess k))

-- The outcome of a removal: the entry, and a cache without it.
abbrev pub Removes : Session → ℕ → Option Snac × Session → Type 0
Removes sess id (found, sess') =
    (found ≡ hand_out (outstanding sess id))
    × IsCache sess'
    × ((k : ℕ) → outstanding sess' k ≡ (if k == id then none else outstanding sess k))

-- The outcome of cleaning: each entry stays or goes by its age.
abbrev pub Cleans : Session → ℕ → ℕ → Session → Type 0
Cleans sess now maxage sess' =
    IsCache sess' × ((k : ℕ) → outstanding sess' k ≡ keep (outstanding sess k) now maxage)

either_way : (a b : ℕ) → (a == b) ≡ (b == a)
either_way a b = ground arith

cachesnac-Stores :
    (now : ℕ) (sess : Session) (family type flags : ℕ) (bytes : List ℕ) (datalen : ℕ)
    → IsCache sess
    → outstanding sess sess.snacid_next ≡ none
    → Stores sess
        (fresh_snac now sess family type flags bytes datalen)
        (cachesnac now sess family type flags bytes datalen)
unfolding cachesnac newsnac
cachesnac-Stores now sess family type flags bytes datalen h free =
    let new = fresh_snac now sess family type flags bytes datalen in
    let id = sess.snacid_next in
    let chain = new ∷ sess.snac_hash (id % hash_size) in
    let sess1 : Session = record sess { snacid_next = (id + 1) % 2 ^ 32 } in
    (
      refl,
      refl,
      set_chain-IsCache sess1 (id % hash_size) chain h (free, h (id % hash_size)),
      set_chain_lem sess1 id chain (some new) (λ k. rw (either_way id k) refl),
    )

remsnac-Removes : (sess : Session) (id : ℕ) → IsCache sess → Removes sess id (remsnac sess id)
unfolding remsnac
remsnac-Removes sess id h =
    let chain = sess.snac_hash (id % hash_size) in
    let d = h (id % hash_size) in
    (
      (rem_loop_lem chain id id d).0,
      set_chain-IsCache sess (id % hash_size) (rem_loop chain id).1 h
          (rem_loop-IsDistinct chain id d),
      set_chain_lem sess id (rem_loop chain id).1 none (λ k. (rem_loop_lem chain id k d).1),
    )

index_small : (k : ℕ) → ltb (k % hash_size) hash_size ≡ true
index_small k = ground arith

cleansnacs-Cleans :
    (now : ℕ) (sess : Session) (maxage : ℕ)
    → IsCache sess
    → Cleans sess now maxage (cleansnacs now sess maxage)
unfolding cleansnacs
cleansnacs-Cleans now sess maxage h = (
  λ i. elim (Bool-cases (ltb i hash_size)) [
    | inl inside ↦ rw (inside) (clean_loop-IsDistinct (sess.snac_hash i) now maxage (h i))
    | inr outside ↦ rw (outside) (h i)
  ],
  λ k.
      rw (index_small k)
        (clean_loop_lem (sess.snac_hash (k % hash_size)) now maxage k (h (k % hash_size))),
)

-- On a cache in which no identifier occurs twice, and the next one does not occur, the three operations
-- are those of a map from identifiers to entries. aim_cachesnac returns the next identifier and adds its
-- entry, aim_remsnac hands out the entry of an identifier and removes it, and aim_cleansnacs removes the
-- entries that are older than `maxage`; no other entry changes, and no identifier occurs twice after.
pub cache_lem :
    (now : ℕ) (sess : Session) (family type flags : ℕ) (bytes : List ℕ) (datalen id maxage : ℕ)
    → IsCache sess
    → outstanding sess sess.snacid_next ≡ none
    → Stores sess
        (fresh_snac now sess family type flags bytes datalen)
        (cachesnac now sess family type flags bytes datalen)
      × Removes sess id (remsnac sess id)
      × Cleans sess now maxage (cleansnacs now sess maxage)
cache_lem now sess family type flags bytes datalen id maxage h free = (
  cachesnac-Stores now sess family type flags bytes datalen h free,
  remsnac-Removes sess id h,
  cleansnacs-Cleans now sess maxage h,
)
