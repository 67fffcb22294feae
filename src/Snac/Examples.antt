-- ===== src/Snac/Examples.antt =====
-- The theorem on the cache at one entry that waits, with the next identifier in its chain.
use irssi_icq.Base.{◌≡◌, ◌∷◌, none, if◌then◌else◌, Bool-cases, ◌==◌, [], refl, inl, inr}
use irssi_icq.Snac.{Snac, Session, cachesnac, remsnac, cleansnacs, none, if◌then◌else◌, ◌∷◌}
use irssi_icq.Snac.Cache.{IsCache, outstanding}
use irssi_icq.Snac.Map.{fresh_snac, Stores, Removes, Cleans, cache_lem}

abbrev waiting : Snac
waiting = record { id = 3; family = 0x13; type = 8; flags = 0; content = none; issuetime = 100 }

abbrev session : Session
session = record { snac_hash = λ i. if i == 3 then waiting ∷ [] else []; snacid_next = 19 }

session-IsCache : IsCache session
session-IsCache i = elim (Bool-cases (i == 3)) [
  | inl here ↦ rw (here) (refl, tt)
  | inr past ↦ rw (past) tt
]

next_free : outstanding session session.snacid_next ≡ none
next_free = refl

cache_example :
    Stores session
      (fresh_snac 160 session 0x13 9 0 (1 ∷ 2 ∷ []) 2)
      (cachesnac 160 session 0x13 9 0 (1 ∷ 2 ∷ []) 2)
    × Removes session 3 (remsnac session 3)
    × Cleans session 160 30 (cleansnacs 160 session 30)
cache_example = cache_lem 160 session 0x13 9 0 (1 ∷ 2 ∷ []) 2 3 30 session-IsCache next_free
