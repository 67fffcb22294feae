-- ===== src/Ssi/Edit/Examples.antt =====
-- The theorem on settings at a list that holds one of the two.
use irssi_icq.Base.{none, ◌≡◌, true, ℕ, List, ◌%◌, [], suc, ◌^◌, ◌∷◌, zero, false, arith, refl}
use irssi_icq.Ssi.{Item, none, true, ℕ}
use irssi_icq.Ssi.Sync.{Store, deref}
use irssi_icq.Ssi.Sync.Plan.{Resolves}
use irssi_icq.Ssi.Edit.{synced, setpermdeny, setpresence, getpermdeny, getpresence}
use irssi_icq.Ssi.Edit.Settings.{settings_lem}

abbrev prefs : Item
prefs = record { addr = 4; name = none; gid = 0; bid = 3; type = 5; tlvs = [] }

abbrev held : Store
held = record {
  received_data = true;
  numitems = 1;
  official = [];
  local = prefs ∷ [];
  pending = [];
  timestamp = 0;
  waiting_for_ack = false;
  connected = true;
  sent = [];
  next = 9;
}

abbrev zeros : ℕ → List ℕ
zeros zero = []
zeros (suc n) = 0 ∷ zeros n

held-Resolves : Resolves held.local held.local
unfolding deref
held-Resolves = (refl, tt)

settings_example :
    ((s1 : Store) × (setpermdeny zeros held 259 1 ≡ synced zeros s1)
      × (getpermdeny s1.local ≡ 259 % 2 ^ 8))
    × ((s1 : Store) × (setpresence zeros held 1024 ≡ synced zeros s1)
        × (getpresence s1.local ≡ 1024 % 2 ^ 32))
settings_example = settings_lem zeros held 259 1 1024 (omega arith) held-Resolves
