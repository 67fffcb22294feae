-- ===== src/Ssi/Sync.antt =====
-- ssi.c: comparing items, and aim_ssi_sync with the functions that it calls. A request that is handed
-- to aim_tx_enqueue is a value of `Request`, and `sent` are those handed over so far, oldest first.
-- `connected` says whether aim_conn_findbygroup finds a connection, and `next` is the address that the
-- next `malloc` of an item returns. `mem` gives the content of the memory that `malloc` returns. The
-- result `none` stands for the use of a pointer to an item that was freed, or for a loop without end.
pub mod Plan
pub mod Agree
use irssi_icq.Base.{
  ℕ, List, [], ◌∷◌, ◌++◌, Option, none, some, Bool, true, not, ◌==◌, if◌then◌else◌, ◌>>=◌,
}
use irssi_icq.Util.{sncmp}
use irssi_icq.Tlv.{Tlv, sizetlvchain, tlvlist_cmp}
use irssi_icq.Ssi.{Item, itemlist_find}

abbrev pub action_add : ℕ
action_add = 0x0008

abbrev pub action_mod : ℕ
action_mod = 0x0009

abbrev pub action_del : ℕ
action_del = 0x000A

-- The tests on `data`.
unfoldable pub cmp_tlvs : (ℕ → List ℕ) → List Tlv → List Tlv → ℕ
cmp_tlvs mem [] [] = 0
cmp_tlvs mem (x ∷ l) [] = 2
cmp_tlvs mem [] (y ∷ m) = 3
cmp_tlvs mem (x ∷ l) (y ∷ m) =
    if tlvlist_cmp (mem (sizetlvchain (x ∷ l))) (mem (sizetlvchain (y ∷ m))) (x ∷ l) (y ∷ m) == 0
    then 0
    else 4

-- The tests on `name`.
unfoldable pub cmp_name : Option (List ℕ) → Option (List ℕ) → ℕ
cmp_name none none = 0
cmp_name (some name1) none = 5
cmp_name none (some name2) = 6
cmp_name (some name1) (some name2) = if sncmp name1 name2 == 0 then 0 else 7

unfoldable pub itemlist_cmp : (ℕ → List ℕ) → Item → Item → ℕ
itemlist_cmp mem cur1 cur2 =
    if not (cmp_tlvs mem cur1.tlvs cur2.tlvs == 0)
    then cmp_tlvs mem cur1.tlvs cur2.tlvs
    else if not (cmp_name cur1.name cur2.name == 0)
    then cmp_name cur1.name cur2.name
    else if not (cur1.gid == cur2.gid)
    then 8
    else if not (cur1.bid == cur2.bid)
    then 9
    else if not (cur1.type == cur2.type)
    then 10
    else 0

pub record Tmp : Type 0 where
  pub action : ℕ
  pub ack : ℕ
  pub name : Option (List ℕ)
  pub item : Option ℕ

pub data Request : Type 0 where
  edit : ℕ → List Item → Request
  edit_stop : Request

pub record Store : Type 0 where
  pub received_data : Bool
  pub numitems : ℕ
  pub official : List Item
  pub local : List Item
  pub pending : List Tmp
  pub timestamp : ℕ
  pub waiting_for_ack : Bool
  pub connected : Bool
  pub sent : List Request
  pub next : ℕ

-- What the loops append for an item.
abbrev pub new_tmp : ℕ → Item → Tmp
new_tmp action cur1 = record { action = action; ack = 0xffff; name = none; item = some cur1.addr }

-- The loops for additions and for deletions: the items of one list whose numbers the other lacks.
unfoldable pub missing : ℕ → List Item → List Item → List Tmp
missing action [] other = []
missing action (cur1 ∷ rest) other = elim (itemlist_find other cur1.gid cur1.bid) [
  | none ↦ new_tmp action cur1 ∷ missing action rest other
  | some cur2 ↦ missing action rest other
]

unfoldable pub modifications : (ℕ → List ℕ) → List Item → List Item → List Tmp
unfolding itemlist_cmp
modifications mem [] official = []
modifications mem (cur1 ∷ rest) official = elim (itemlist_find official cur1.gid cur1.bid) [
  | none ↦ modifications mem rest official
  | some cur2 ↦
      if not (itemlist_cmp mem cur1 cur2 == 0)
      then new_tmp action_mod cur1 ∷ modifications mem rest official
      else modifications mem rest official
]

-- `if (!sess->ssi.pending)` before a loop that fills it.
unfoldable pub or_else : List Tmp → List Tmp → List Tmp
or_else [] found = found
or_else (cur ∷ rest) found = cur ∷ rest

-- The item that a pointer points to.
unfoldable pub deref : List Item → ℕ → Option Item
deref [] addr = none
deref (cur ∷ rest) addr = if cur.addr == addr then some cur else deref rest addr

unfoldable pub deref_item : List Item → Option ℕ → Option Item
unfolding deref
deref_item heap none = none
deref_item heap (some addr) = deref heap addr

-- The loop of aim_ssi_addmoddel that writes the items.
unfoldable pub items_of : List Item → List Tmp → Option (List Item)
unfolding deref_item
items_of heap [] = some []
items_of heap (cur ∷ rest) = do
  item ← deref_item heap cur.item
  others ← items_of heap rest
  some (item ∷ others)

unfoldable pub send : Store → Request → Store
send s r = if s.connected then record s { sent = s.sent ++ (r ∷ []) } else s

unfoldable pub send_pending : Store → List Tmp → Option Store
unfolding items_of send
send_pending s [] = some s
send_pending s (cur ∷ rest) = elim cur.item [
  | none ↦ some s
  | some addr ↦ (do
    items ← items_of (s.local ++ s.official) (cur ∷ rest)
    some (send s (edit cur.action items)))
]

unfoldable pub addmoddel : Store → Option Store
unfolding send_pending
addmoddel s = if s.connected then send_pending s s.pending else some s

unfoldable pub modend : Store → Store
unfolding send
modend s = send s edit_stop

-- The work list of aim_ssi_sync: the first of the three loops that finds something fills it.
unfoldable pub work : (ℕ → List ℕ) → Store → List Tmp
unfolding missing modifications or_else
work mem s = or_else s.pending (
    or_else (missing action_add s.local s.official)
      (or_else (missing action_del s.official s.local) (modifications mem s.local s.official)))

unfoldable pub start : Store → List Tmp → Option Store
unfolding modend addmoddel
start s [] = some (modend (record s { pending = [] }))
start s (cur ∷ rest) = addmoddel (record s { pending = cur ∷ rest; waiting_for_ack = true })

unfoldable pub sync : (ℕ → List ℕ) → Store → Option Store
unfolding work start
sync mem s = if s.waiting_for_ack then some s else start s (work mem s)

unfoldable pub freelist : Store → Store
freelist s = record s { numitems = 0; official = []; local = []; pending = []; timestamp = 0 }

unfoldable pub deletelist : (ℕ → List ℕ) → Store → Option Store
unfolding sync
deletelist mem s = sync mem (record s { local = [] })
