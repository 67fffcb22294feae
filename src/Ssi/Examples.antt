-- ===== src/Ssi/Examples.antt =====
-- The theorems on server-stored items at lists of a group and two buddies.
use irssi_icq.Base.{
  some, ◌∷◌, arith, List, suc, ◌≡◌, ℕ, true, zero, [], refl, false, if◌then◌else◌, ◌==◌, ◌&&◌, none,
}
use irssi_icq.Util.{sncmp}
use irssi_icq.Ssi.{
  itemlist_find, Item, group, buddy, pick_gid, pick_bid, itemlist_add, itemlist_del,
}
use irssi_icq.Ssi.Deletion.{itemlist_del-IsSorted}
use irssi_icq.Ssi.Numbers.{FreeGid, FreeBid, pick_free}
use irssi_icq.Ssi.Items.{IsSorted, Adds, itemlist_add-Adds}
use irssi_icq.Ssi.Sync.{cmp_tlvs, cmp_name, deref, Store, edit_stop, sync}
use irssi_icq.Ssi.Sync.Plan.{IsLinked, planned, requested, sync_lem}
use irssi_icq.Ssi.Sync.Agree.{IsName, IsMemory, Agrees, sync-Agrees}

abbrev ann : List ℕ
ann = b'a' ∷ b'n' ∷ b'n' ∷ []

abbrev ann_spaced : List ℕ
ann_spaced = b'A' ∷ b'n' ∷ b' ' ∷ b'n' ∷ []

abbrev friends : Item
friends = record { addr = 1; name = some ann; gid = 1; bid = 0; type = 1; tlvs = [] }

abbrev friend : Item
friend = record { addr = 2; name = some ann; gid = 1; bid = 7; type = 0; tlvs = [] }

abbrev renamed : Item
renamed = record { addr = 3; name = some ann_spaced; gid = 1; bid = 7; type = 0; tlvs = [] }

abbrev two : List Item
two = friends ∷ friend ∷ []

two-IsSorted : IsSorted two
two-IsSorted =
    ((omega arith, omega arith), omega arith, ((omega arith, omega arith), omega arith, tt))

abbrev zeros : ℕ → List ℕ
zeros zero = []
zeros (suc n) = 0 ∷ zeros n

zeros-IsMemory : IsMemory zeros
zeros-IsMemory zero = (refl, tt)
zeros-IsMemory (suc n) =
    let (sized, bytes) = zeros-IsMemory n in (omega (arith, sized), (omega arith, bytes))

abbrev edited : Store
edited = record {
  received_data = true;
  numitems = 2;
  official = friends ∷ [];
  local = two;
  pending = [];
  timestamp = 0;
  waiting_for_ack = false;
  connected = true;
  sent = [];
  next = 9;
}

abbrev agreed : Store
agreed = record {
  received_data = true;
  numitems = 2;
  official = two;
  local = two;
  pending = [];
  timestamp = 0;
  waiting_for_ack = false;
  connected = true;
  sent = [];
  next = 9;
}

abbrev stopped : Store
stopped = record agreed { sent = edit_stop ∷ [] }

agreed-sync : sync zeros agreed ≡ some stopped
unfolding sync itemlist_find cmp_tlvs cmp_name sncmp
agreed-sync = refl

edited-IsLinked : IsLinked edited
unfolding deref
edited-IsLinked = ((refl, (refl, tt)), (refl, tt))

agreed-IsLinked : IsLinked agreed
unfolding deref
agreed-IsLinked = ((refl, (refl, tt)), (refl, (refl, tt)))

ann-IsName : IsName friend.name
ann-IsName = (omega arith, (omega arith, (omega arith, tt)))

spaced-IsName : IsName renamed.name
spaced-IsName = (omega arith, (omega arith, (omega arith, (omega arith, tt))))

pick_free_example :
    FreeGid two (pick_gid two (some ann) 0xffff group) × FreeBid two 1 (pick_bid two 1 0xffff buddy)
pick_free_example = pick_free two ann 1 buddy refl (omega arith)

itemlist_add-Adds_example :
    Adds two (some ann_spaced) 1 buddy [] (itemlist_add 9 two (some ann_spaced) 1 0xffff buddy [])
itemlist_add-Adds_example =
    itemlist_add-Adds 9 two (some ann_spaced) 1 buddy [] refl (omega arith) (omega arith)
      two-IsSorted tt

sync_example : sync zeros edited ≡ some (requested edited (planned zeros edited))
sync_example = sync_lem zeros edited refl refl refl edited-IsLinked

sync-Agrees_example : (stopped.sent ≡ edit_stop ∷ []) × Agrees zeros two two
sync-Agrees_example =
    sync-Agrees zeros agreed stopped refl refl refl agreed-IsLinked agreed-sync refl

found_friend : deref two friend.addr ≡ some friend
unfolding deref
found_friend = refl

itemlist_del-IsSorted_example :
    IsSorted (itemlist_del two friend.addr)
    × ((g b : ℕ)
        → itemlist_find (itemlist_del two friend.addr) g b
          ≡ (if friend.gid == g && friend.bid == b then none else itemlist_find two g b))
itemlist_del-IsSorted_example = itemlist_del-IsSorted two friend two-IsSorted found_friend
