-- ===== src/Snac.antt =====
-- irssi-icq/src/protocols/oscar/snac.c: the cache of the SNACs that wait for a reply. The array of
-- chains is a function from the index; entries stand in the order of the `next` pointers. `now` is
-- what time() returns, and allocations succeed. An identifier is of the type fu32_t.
pub mod Cache
pub mod Map
mod Examples
use irssi_icq.Base.{
  ℕ, List, ◌+◌, Option, if◌then◌else◌, ◌%◌, ◌∷◌, ◌^◌, none, ◌==◌, ltb, [], some, true, take, false,
}

pub record Snac : Type 0 where
  pub id : ℕ
  pub family : ℕ
  pub type : ℕ
  pub flags : ℕ
  pub content : Option (List ℕ)
  pub issuetime : ℕ

pub record Session : Type 0 where
  pub snac_hash : ℕ → List Snac
  pub snacid_next : ℕ

abbrev pub hash_size : ℕ
hash_size = 16

unfoldable pub initsnachash : Session → Session
initsnachash sess = record sess {
  snac_hash = λ i. if ltb i hash_size then [] else sess.snac_hash i;
}

-- `snac_hash[index] = chain`
abbrev pub set_chain : Session → ℕ → List Snac → Session
set_chain sess index chain = record sess {
  snac_hash = λ i. if i == index then chain else sess.snac_hash i;
}

unfoldable pub newsnac : ℕ → Session → Snac → ℕ × Session
newsnac now sess snac =
    let index = snac.id % hash_size in
    (snac.id, set_chain sess index (record snac { issuetime = now } ∷ sess.snac_hash index))

-- The entry before it is cached; `issuetime` is set when it is.
unfoldable pub cachesnac : ℕ → Session → ℕ → ℕ → ℕ → List ℕ → ℕ → ℕ × Session
unfolding newsnac
cachesnac now sess family type flags bytes datalen =
    newsnac now (record sess { snacid_next = (sess.snacid_next + 1) % 2 ^ 32 })
      (record {
        id = sess.snacid_next;
        family = family;
        type = type;
        flags = flags;
        content = if datalen == 0 then none else some (take datalen bytes);
        issuetime = 0;
      })

-- `cur->flags & AIM_SNACFLAGS_DESTRUCTOR`: the entry that is handed out has lost its data.
unfoldable pub released : Snac → Snac
released cur = if cur.flags % 2 == 1 then record cur { content = none } else cur

-- The loop of aim_remsnac.
unfoldable pub rem_loop : List Snac → ℕ → Option Snac × List Snac
unfolding released
rem_loop [] id = (none, [])
rem_loop (cur ∷ rest) id = elim (cur.id == id) [
  | true ↦ (some (released cur), rest)
  | false ↦ (let (found, rest') = rem_loop rest id in (found, cur ∷ rest'))
]

unfoldable pub remsnac : Session → ℕ → Option Snac × Session
unfolding rem_loop
remsnac sess id =
    let index = id % hash_size in
    let (found, chain) = rem_loop (sess.snac_hash index) id in (found, set_chain sess index chain)

-- The inner loop of aim_cleansnacs: entries older than `maxage`, which is not negative, go.
unfoldable pub clean_loop : List Snac → ℕ → ℕ → List Snac
clean_loop [] now maxage = []
clean_loop (cur ∷ rest) now maxage =
    if ltb (cur.issuetime + maxage) now
    then clean_loop rest now maxage
    else cur ∷ clean_loop rest now maxage

unfoldable pub cleansnacs : ℕ → Session → ℕ → Session
unfolding clean_loop
cleansnacs now sess maxage = record sess {
  snac_hash =
      λ i. if ltb i hash_size then clean_loop (sess.snac_hash i) now maxage else sess.snac_hash i;
}
