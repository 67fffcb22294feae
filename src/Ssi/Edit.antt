-- ===== src/Ssi/Edit.antt =====
-- ssi.c: the functions that edit the local list and then call aim_ssi_sync, and those that read a
-- setting. `Code` is the C result, 0 or -EINVAL. Allocations succeed, and the session and `iconsum` are
-- not NULL. `mem` is that of aim_ssi_sync.
mod First
pub mod Settings
mod Examples
use irssi_icq.Base.{
  ℕ, zero, suc, ◌+◌, ◌%◌, ◌^◌, List, [], ◌∷◌, ◌++◌, Option, none, some, Bool, true, false, not,
  ◌&&◌, ◌==◌, ltb, if◌then◌else◌, ◌>>=◌, length, take, suc,
}
use irssi_icq.Word
use irssi_icq.Util.{before}
use irssi_icq.Tlv.{
  Tlv, addtlvtochain_raw, addtlvtochain8, addtlvtochain32, addtlvtochain_noval, gettlv, tlvlist_cmp,
  sizetlvchain,
}
use irssi_icq.Ssi.{
  Item, group, buddy, permit, deny, pdinfo, presenceprefs, iconinfo, itemlist_find, finditem,
  itemlist_add, itemlist_del,
}
use irssi_icq.Ssi.Sync.{Store, sync}

pub data Code : Type 0 where
  done einval : Code

-- Writes through the pointer to an item.
unfoldable pub set_tlvs : List Item → ℕ → List Tlv → List Item
set_tlvs [] addr chain = []
set_tlvs (cur ∷ rest) addr chain =
    if cur.addr == addr then record cur { tlvs = chain } ∷ rest else cur ∷ set_tlvs rest addr chain

unfoldable pub set_name : List Item → ℕ → Option (List ℕ) → List Item
set_name [] addr name = []
set_name (cur ∷ rest) addr name =
    if cur.addr == addr then record cur { name = name } ∷ rest else cur ∷ set_name rest addr name

-- The numbers that the group's 0x00c8 triple holds: of all groups but the master group, or of the
-- buddies of the group.
unfoldable pub member_bytes : List Item → ℕ → List ℕ
member_bytes [] gid = []
member_bytes (cur ∷ rest) gid =
    if gid == 0
    then (if cur.type == group && not (cur.gid == 0)
        then Word.put16 cur.gid ++ member_bytes rest gid
        else member_bytes rest gid)
    else if cur.gid == gid && cur.type == buddy
    then Word.put16 cur.bid ++ member_bytes rest gid
    else member_bytes rest gid

unfoldable pub group_tlvs : List ℕ → List Tlv
group_tlvs bytes =
    if ltb 0 (length bytes)
    then (addtlvtochain_raw [] 0x00c8 (length bytes % 2 ^ 16) bytes).1
    else []

unfoldable pub rebuildgroup : List Item → Option (List ℕ) → List Item
unfolding set_tlvs member_bytes group_tlvs
rebuildgroup list name = elim (finditem list name none group) [
  | none ↦ list
  | some g ↦ set_tlvs list g.addr (group_tlvs (member_bytes list g.gid))
]

-- aim_ssi_itemlist_add on the local list.
unfoldable pub add_local : Store → Option (List ℕ) → ℕ → ℕ → ℕ → List Tlv → Option (Item × Store)
add_local s name gid bid type chain = do
  (new, list) ← itemlist_add s.next s.local name gid bid type chain
  some (new, record s { local = list; next = s.next + 1 })

abbrev pub synced : (ℕ → List ℕ) → Store → Option (Code × Store)
synced mem s = do s' ← sync mem s; some (done, s')

-- The master group, added if there is none, then the new group.
unfoldable pub add_master : Store → Option Store
unfolding add_local
add_master s = elim (itemlist_find s.local 0 0) [
  | some parent ↦ some s
  | none ↦ (do (parent, s') ← add_local s none 0 0 group []; some s')
]

unfoldable pub add_parent : Store → List ℕ → Option (ℕ × Store)
unfolding add_master add_local rebuildgroup
add_parent s gn = elim (finditem s.local (some gn) none group) [
  | some parent ↦ some (parent.gid, s)
  | none ↦ (do
    s1 ← add_master s
    (parent, s2) ← add_local s1 (some gn) 0xFFFF 0 group []
    some (parent.gid, record s2 { local = rebuildgroup s2.local none }))
]

abbrev pub add_text : List Tlv → ℕ → Option (List ℕ) → List Tlv
add_text chain t none = chain
add_text chain t (some v) = (addtlvtochain_raw chain t (length v % 2 ^ 16) v).1

unfoldable pub buddy_tlvs : Option (List ℕ) → Option (List ℕ) → Option (List ℕ) → Bool → List Tlv
buddy_tlvs alias comment smsnum needauth =
    let c0 : List Tlv = if needauth then (addtlvtochain_noval [] 0x0066).1 else [] in
    add_text (add_text (add_text c0 0x0131 alias) 0x013a smsnum) 0x013c comment

unfoldable pub addbuddy :
    (ℕ → List ℕ)
    → Store
    → Option (List ℕ)
    → Option (List ℕ)
    → Option (List ℕ)
    → Option (List ℕ)
    → Option (List ℕ)
    → Bool
    → Option (Code × Store)
unfolding add_parent buddy_tlvs add_local rebuildgroup
addbuddy mem s none gn alias comment smsnum needauth = some (einval, s)
addbuddy mem s (some name) none alias comment smsnum needauth = some (einval, s)
addbuddy mem s (some name) (some gn) alias comment smsnum needauth = do
  (gid, s1) ← add_parent s gn
  (new, s2) ← add_local s1 (some name) gid 0xFFFF buddy (buddy_tlvs alias comment smsnum needauth)
  synced mem (record s2 { local = rebuildgroup s2.local (some gn) })

-- aim_ssi_addpermit and aim_ssi_adddeny, but for the type.
unfoldable pub add_listed : (ℕ → List ℕ) → Store → Option (List ℕ) → ℕ → Option (Code × Store)
unfolding add_local
add_listed mem s none type = some (einval, s)
add_listed mem s (some name) type = do
  (new, s1) ← add_local s (some name) 0 0xFFFF type []
  synced mem s1

unfoldable pub addpermit : (ℕ → List ℕ) → Store → Option (List ℕ) → Option (Code × Store)
unfolding add_listed
addpermit mem s name = add_listed mem s name permit

unfoldable pub adddeny : (ℕ → List ℕ) → Store → Option (List ℕ) → Option (Code × Store)
unfolding add_listed
adddeny mem s name = add_listed mem s name deny

abbrev pub is_null : List Tlv → Bool
is_null [] = true
is_null (x ∷ l) = false

-- The removal of the master group if it has no groups.
unfoldable pub prune_master : List Item → List Item
prune_master list = elim (itemlist_find list 0 0) [
  | none ↦ list
  | some del ↦ if is_null del.tlvs then itemlist_del list del.addr else list
]

-- The removal of the group if it has no buddies.
unfoldable pub prune_group : List Item → Option (List ℕ) → List Item
unfolding prune_master rebuildgroup
prune_group list gn = elim (finditem list gn none group) [
  | none ↦ list
  | some del ↦
      if is_null del.tlvs
      then prune_master (rebuildgroup (itemlist_del list del.addr) none)
      else list
]

unfoldable pub delbuddy :
    (ℕ → List ℕ) → Store → Option (List ℕ) → Option (List ℕ) → Option (Code × Store)
unfolding prune_group rebuildgroup
delbuddy mem s name gn = elim (finditem s.local gn name buddy) [
  | none ↦ some (einval, s)
  | some del ↦
      synced mem
        (record s { local = prune_group (rebuildgroup (itemlist_del s.local del.addr) gn) gn })
]

-- aim_ssi_delpermit and aim_ssi_deldeny, but for the type.
unfoldable pub del_listed : (ℕ → List ℕ) → Store → Option (List ℕ) → ℕ → Option (Code × Store)
del_listed mem s name type = elim (finditem s.local none name type) [
  | none ↦ some (einval, s)
  | some del ↦ synced mem (record s { local = itemlist_del s.local del.addr })
]

unfoldable pub delpermit : (ℕ → List ℕ) → Store → Option (List ℕ) → Option (Code × Store)
unfolding del_listed
delpermit mem s name = del_listed mem s name permit

unfoldable pub deldeny : (ℕ → List ℕ) → Store → Option (List ℕ) → Option (Code × Store)
unfolding del_listed
deldeny mem s name = del_listed mem s name deny

-- The alias as a C string: `strncpy` stops at a NUL.
unfoldable pub getalias : List Item → Option (List ℕ) → Option (List ℕ) → Option (List ℕ)
getalias list gn sn = do
  cur ← finditem list gn sn buddy
  tlv ← gettlv cur.tlvs 0x0131 1
  if not (tlv.len == 0) then some (before (take tlv.len tlv.value) 0) else none

unfoldable pub waitingforauth : List Item → Option (List ℕ) → Option (List ℕ) → Bool
waitingforauth list gn sn = elim (finditem list gn sn buddy) [
  | none ↦ false
  | some cur ↦ elim (gettlv cur.tlvs 0x0066 1) [ none ↦ false | some tlv ↦ true ]
]

unfoldable pub getpermdeny : List Item → ℕ
getpermdeny list = elim (finditem list none none pdinfo) [
  | none ↦ 0
  | some cur ↦ elim (gettlv cur.tlvs 0x00ca 1) [
    | none ↦ 0
    | some tlv ↦ if tlv.len == 0 then 0 else Word.get8 tlv.value 0
  ]
]

-- On a triple shorter than four bytes the C code reads past its end, here a 0.
unfoldable pub getpresence : List Item → ℕ
getpresence list = elim (finditem list none none presenceprefs) [
  | none ↦ 0xFFFFFFFF
  | some cur ↦ elim (gettlv cur.tlvs 0x00c9 1) [
    | none ↦ 0xFFFFFFFF
    | some tlv ↦ if tlv.len == 0 then 0xFFFFFFFF else Word.get32 tlv.value 0
  ]
]

unfoldable pub movebuddy :
    (ℕ → List ℕ)
    → Store
    → Option (List ℕ)
    → Option (List ℕ)
    → Option (List ℕ)
    → Option (Code × Store)
unfolding addbuddy delbuddy getalias waitingforauth
movebuddy mem s oldgn newgn sn = do
  (_, s1) ←
      addbuddy mem s sn newgn (getalias s.local oldgn sn) none none
        (waitingforauth s.local oldgn sn)
  (_, s2) ← delbuddy mem s1 sn oldgn
  some (done, s2)

-- The chain that aim_ssi_aliasbuddy gives the buddy: nothing but the alias.
abbrev pub alias_tlvs : Option (List ℕ) → List Tlv
alias_tlvs none = []
alias_tlvs (some []) = []
alias_tlvs (some (c ∷ alias)) = add_text [] 0x0131 (some (c ∷ alias))

unfoldable pub aliasbuddy :
    (ℕ → List ℕ)
    → Store
    → Option (List ℕ)
    → Option (List ℕ)
    → Option (List ℕ)
    → Option (Code × Store)
unfolding set_tlvs
aliasbuddy mem s none sn alias = some (einval, s)
aliasbuddy mem s (some gn) none alias = some (einval, s)
aliasbuddy mem s (some gn) (some sn) alias = elim (finditem s.local (some gn) (some sn) buddy) [
  | none ↦ some (einval, s)
  | some tmp ↦ synced mem (record s { local = set_tlvs s.local tmp.addr (alias_tlvs alias) })
]

unfoldable pub rename_group :
    (ℕ → List ℕ) → Store → Option (List ℕ) → Option (List ℕ) → Option (Code × Store)
unfolding set_name
rename_group mem s none newgn = some (einval, s)
rename_group mem s (some oldgn) none = some (einval, s)
rename_group mem s (some oldgn) (some newgn) = elim (finditem s.local (some oldgn) none group) [
  | none ↦ some (einval, s)
  | some g ↦ synced mem (record s { local = set_name s.local g.addr (some newgn) })
]

-- aim_ssi_setpermdeny and aim_ssi_setpresence, once the new chain is built: it replaces that of the
-- item of its type that has no name, or comes with a new item.
unfoldable pub put_setting : (ℕ → List ℕ) → Store → ℕ → List Tlv → Option (Code × Store)
unfolding set_tlvs add_local
put_setting mem s type chain = elim (finditem s.local none none type) [
  | some tmp ↦ synced mem (record s { local = set_tlvs s.local tmp.addr chain })
  | none ↦ (do (tmp, s1) ← add_local s none 0 0xFFFF type chain; synced mem s1)
]

unfoldable pub setpermdeny : (ℕ → List ℕ) → Store → ℕ → ℕ → Option (Code × Store)
unfolding put_setting
setpermdeny mem s permdeny vismask =
    put_setting mem s pdinfo
      (addtlvtochain32 (addtlvtochain8 [] 0x00ca permdeny).1 0x00cb vismask).1

unfoldable pub setpresence : (ℕ → List ℕ) → Store → ℕ → Option (Code × Store)
unfolding put_setting
setpresence mem s presence = put_setting mem s presenceprefs (addtlvtochain32 [] 0x00c9 presence).1

-- The chain for an icon: its checksum, and an empty alias.
abbrev pub icon_tlvs : List ℕ → ℕ → List Tlv
icon_tlvs iconsum iconsumlen =
    (addtlvtochain_noval
      (addtlvtochain_raw [] 0x00d5 ((iconsumlen + 2) % 2 ^ 16)
        (0x00 ∷ 0x10 ∷ take iconsumlen iconsum)).1
      0x0131).1

unfoldable pub seticon : (ℕ → List ℕ) → Store → List ℕ → ℕ → Option (Code × Store)
unfolding set_tlvs add_local
seticon mem s iconsum zero = some (einval, s)
seticon mem s iconsum (suc n) =
    let chain = icon_tlvs iconsum (suc n) in
    elim (finditem s.local none (some (b'1' ∷ [])) iconinfo) [
      | some tmp ↦
          if tlvlist_cmp (mem (sizetlvchain tmp.tlvs)) (mem (sizetlvchain chain)) tmp.tlvs chain
            == 0
          then some (done, s)
          else synced mem (record s { local = set_tlvs s.local tmp.addr chain })
      | none ↦ (do
        (tmp, s1) ← add_local s (some (b'1' ∷ [])) 0 0x51F4 iconinfo chain
        synced mem s1)
    ]
