-- ===== src/Ssi/Ack/Examples.antt =====
-- The theorems on acknowledgements at a group and a buddy, and a further edit made while a request waits.
use irssi_icq.Base.{true, some, ℕ, arith, ◌≡◌, ◌∷◌, ◌++◌, List, [], refl, suc, zero, ◌↔◌, ap}
use irssi_icq.Word
use irssi_icq.Bstream.{Bstream}
use irssi_icq.Bstream.View.{IsValid, pending}
use irssi_icq.Ssi.{Item, itemlist_find, itemlist_valid, some, true, ℕ}
use irssi_icq.Ssi.Sync.{
  Store, new_tmp, action_add, action_del, action_mod, deref, sync, itemlist_cmp,
}
use irssi_icq.Ssi.Sync.Plan.{lacking, Resolves}
use irssi_icq.Ssi.Ack.{parseack}
use irssi_icq.Ssi.Ack.Added.{added, parseack-added}
use irssi_icq.Ssi.Ack.Answers.{successes}
use irssi_icq.Ssi.Ack.Common.{IsDistinct, spared}
use irssi_icq.Ssi.Ack.Spared.{IsLacked}
use irssi_icq.Ssi.Ack.Deleted.{deleted, parseack-deleted}
use irssi_icq.Ssi.Ack.Overwrite.{copied}
use irssi_icq.Ssi.Ack.Modified.{modified, parseack-modified}
use irssi_icq.Ssi.Sync.Agree.{IsMemory, IsName}

abbrev friends : Item
friends = record { addr = 1; name = some (b'a' ∷ []); gid = 1; bid = 0; type = 1; tlvs = [] }

abbrev friend : Item
friend = record { addr = 2; name = some (b'b' ∷ []); gid = 1; bid = 7; type = 0; tlvs = [] }

-- A buddy that is added here while the request for the first one waits.
abbrev newcomer : Item
newcomer = record { addr = 4; name = some (b'd' ∷ []); gid = 1; bid = 9; type = 0; tlvs = [] }

abbrev asked : Store
asked = record {
  received_data = true;
  numitems = 1;
  official = friends ∷ [];
  local = friends ∷ friend ∷ newcomer ∷ [];
  pending = new_tmp action_add friend ∷ [];
  timestamp = 0;
  waiting_for_ack = true;
  connected = true;
  sent = [];
  next = 9;
}

abbrev outcome : Bstream
outcome = record { bytes = 0 ∷ 0 ∷ []; len = 2; offset = 0 }

outcome-IsValid : IsValid outcome
outcome-IsValid = record { sized = refl; within = omega arith; bounded = omega arith }

abbrev zeros : ℕ → List ℕ
zeros zero = []
zeros (suc n) = 0 ∷ zeros n

asked-Resolves : Resolves asked.local (friend ∷ [])
unfolding deref
asked-Resolves = (refl, tt)

outcome_bytes : pending outcome ≡ successes (friend ∷ []) ++ []
unfolding Word.put16
outcome_bytes = refl

parseack-added_example :
    (parseack zeros asked outcome ≡ sync zeros (added asked (friend ∷ [])))
    × (lacking (added asked (friend ∷ [])).local (added asked (friend ∷ [])).official
        ≡ lacking (lacking asked.local asked.official) (friend ∷ []))
    × (lacking (added asked (friend ∷ [])).official (added asked (friend ∷ [])).local
        ≡ lacking asked.official asked.local)
parseack-added_example =
    parseack-added zeros asked (friend ∷ []) outcome [] refl asked-Resolves
      ((omega arith, omega arith, tt), tt) outcome-IsValid outcome_bytes

left_to_add : lacking (lacking asked.local asked.official) (friend ∷ []) ≡ newcomer ∷ []
unfolding itemlist_find
left_to_add = refl

-- The buddy is deleted here, and after the request another one: the server still has both.
abbrev parting : Store
parting = record asked {
  official = friends ∷ friend ∷ newcomer ∷ [];
  local = friends ∷ [];
  pending = new_tmp action_del friend ∷ [];
}

three-IsDistinct : IsDistinct (friends ∷ friend ∷ newcomer ∷ [])
three-IsDistinct = ((one_two, (one_four, tt)), ((two_four, tt), (tt, tt)))
  where
    one_two : Path ℕ 1 2 → ⊥
    one_two e = omega (arith, e)

    one_four : Path ℕ 1 4 → ⊥
    one_four e = omega (arith, e)

    two_four : Path ℕ 2 4 → ⊥
    two_four e = omega (arith, e)

friend-IsLacked : IsLacked (friend ∷ []) (friends ∷ friend ∷ newcomer ∷ []) (friends ∷ [])
unfolding itemlist_find itemlist_valid
friend-IsLacked = (λ e. cc, (λ e. refl, (λ e. refl, tt)))

parseack-deleted_example :
    (parseack zeros parting outcome ≡ sync zeros (deleted parting (friend ∷ [])))
    × (lacking (deleted parting (friend ∷ [])).official (deleted parting (friend ∷ [])).local
        ≡ spared (friend ∷ []) (lacking parting.official parting.local))
    × (lacking (deleted parting (friend ∷ [])).local (deleted parting (friend ∷ [])).official
        ≡ lacking parting.local parting.official)
parseack-deleted_example =
    parseack-deleted zeros parting (friend ∷ []) outcome [] refl three-IsDistinct friend-IsLacked
      outcome-IsValid outcome_bytes

left_to_delete : spared (friend ∷ []) (lacking parting.official parting.local) ≡ newcomer ∷ []
unfolding itemlist_find itemlist_valid
left_to_delete = refl

-- The server refuses the buddy with the code 13.
abbrev refusal : Bstream
refusal = record { bytes = 0 ∷ 13 ∷ []; len = 2; offset = 0 }

-- The buddy is called `c` here, and the server has not changed it yet.
abbrev server_side : Item
server_side = record friend { addr = 3 }

abbrev renamed : Item
renamed = record friend { name = some (b'c' ∷ []) }

abbrev renaming : Store
renaming = record asked {
  official = friends ∷ server_side ∷ [];
  local = friends ∷ renamed ∷ [];
  pending = new_tmp action_mod renamed ∷ [];
}

renamed_at : deref renaming.local 2 ≡ some renamed
unfolding deref
renamed_at = refl

renamed_found : itemlist_find renaming.official 1 7 ≡ some server_side
unfolding itemlist_find
renamed_found = refl

renaming-IsDistinct : IsDistinct renaming.official
renaming-IsDistinct = ((one_three, tt), (tt, tt))
  where
    one_three : Path ℕ 1 3 → ⊥
    one_three e = omega (arith, e)

zeros-IsMemory : IsMemory zeros
zeros-IsMemory zero = (refl, tt)
zeros-IsMemory (suc n) = let (size, bytes) = zeros-IsMemory n in (ap suc size, (omega arith, bytes))

renamed-IsName : IsName renamed.name
renamed-IsName = omega arith

renaming_bytes : pending outcome ≡ successes (renamed ∷ []) ++ []
unfolding Word.put16
renaming_bytes = refl

parseack-modified_example :
    (parseack zeros renaming outcome ≡ sync zeros (modified renaming renamed server_side))
    × (itemlist_find (modified renaming renamed server_side).official 1 7
        ≡ some (copied renamed server_side))
    × (itemlist_find (modified renaming renamed server_side).official 1 0
        ≡ itemlist_find renaming.official 1 0)
    × ((itemlist_cmp zeros renamed (copied renamed server_side) ≡ 0) ↔ Path ℕ 0 0)
parseack-modified_example =
    parseack-modified zeros renaming outcome [] renamed server_side 1 0 refl renamed_at
      renamed_found renaming-IsDistinct zeros-IsMemory tt renamed-IsName outcome-IsValid
      renaming_bytes refl
