-- ===== src/Ssi/Ack.antt =====
-- ssi.c: parseack, which settles the outstanding changes by the server's acknowledgement. The function
-- that the client registered for the acknowledgement is not part of the model: it is assumed to leave
-- the stored information alone.
pub mod Answers
pub mod Known
pub mod Added
pub mod Common
pub mod Spared
pub mod Deleted
pub mod Refused
pub mod Overwrite
pub mod Modified
mod Examples
use irssi_icq.Base.{
  ℕ, ◌+◌, List, [], ◌∷◌, Option, none, some, true, false, ◌==◌, ltb, if◌then◌else◌, ◌>>=◌,
}
use irssi_icq.Bstream
use irssi_icq.Bstream.{Bstream}
use irssi_icq.Ssi.{Item, itemlist_find, itemlist_add, itemlist_del}
use irssi_icq.Ssi.Sync.{Store, Tmp, action_add, action_mod, action_del, deref, sync}
use irssi_icq.Ssi.Edit.{set_tlvs, set_name, add_local}

-- `while (cur && (aim_bstream_empty(bs)>0))`
unfoldable pub read_acks : Bstream → List Tmp → List Tmp
read_acks bs [] = []
read_acks bs (cur ∷ rest) =
    if ltb 0 (Bstream.empty bs)
    then (let (ack, bs') = Bstream.get16 bs in record cur { ack = ack } ∷ read_acks bs' rest)
    else cur ∷ rest

-- aim_ssi_itemlist_add on the official list.
unfoldable pub add_official : Store → Item → Option Store
add_official s item = do
  (new, list) ← itemlist_add s.next s.official item.name item.gid item.bid item.type item.tlvs
  some (record s { official = list; next = s.next + 1 })

-- Copies name and triples of an item to the one at an address.
unfoldable pub overwrite : List Item → ℕ → Item → List Item
unfolding set_name set_tlvs
overwrite list addr item = set_tlvs (set_name list addr item.name) addr item.tlvs

-- A refused action: the local list goes back to how it was. The test aim_ssi_itemlist_valid and the
-- reading through the pointer are one step here.
unfoldable pub undo : Store → ℕ → ℕ → Option Store
unfolding deref overwrite add_local
undo s action addr =
    if action == action_add
    then elim (deref s.local addr) [
      | none ↦ some s
      | some item ↦ some (record s { local = itemlist_del s.local addr })
    ]
    else if action == action_mod
    then elim (deref s.local addr) [
      | none ↦ some s
      | some item ↦ elim (itemlist_find s.official item.gid item.bid) [
        | none ↦ some s
        | some cur1 ↦ some (record s { local = overwrite s.local addr cur1 })
      ]
    ]
    else if action == action_del
    then elim (deref s.official addr) [
      | none ↦ some s
      | some item ↦ (do
        (new, s') ← add_local s item.name item.gid item.bid item.type item.tlvs
        some s')
    ]
    else some s

-- An action that was carried out: the official list follows.
unfoldable pub confirm : Store → ℕ → ℕ → Option Store
unfolding deref overwrite add_official
confirm s action addr =
    if action == action_add
    then elim (deref s.local addr) [ none ↦ some s | some item ↦ add_official s item ]
    else if action == action_mod
    then elim (deref s.local addr) [
      | none ↦ some s
      | some item ↦ elim (itemlist_find s.official item.gid item.bid) [
        | none ↦ some s
        | some cur1 ↦ some (record s { official = overwrite s.official cur1.addr item })
      ]
    ]
    else if action == action_del
    then elim (deref s.official addr) [
      | none ↦ some s
      | some item ↦ some (record s { official = itemlist_del s.official addr })
    ]
    else some s

unfoldable pub settle : Store → Tmp → Option Store
unfolding undo confirm
settle s cur = elim cur.item [
  | none ↦ some s
  | some addr ↦ if cur.ack == 0 then confirm s cur.action addr else undo s cur.action addr
]

-- The `for` loop over the changes with an outcome.
unfoldable pub settle_all : Store → List Tmp → Option Store
unfolding settle
settle_all s [] = some s
settle_all s (cur ∷ rest) =
    if cur.ack == 0xffff then some s else (settle s cur >>= λ s'. settle_all s' rest)

-- The loop that frees the changes with an outcome.
unfoldable pub unsettled : List Tmp → List Tmp
unsettled [] = []
unsettled (cur ∷ rest) = elim (cur.ack == 0xffff) [ true ↦ cur ∷ rest | false ↦ unsettled rest ]

unfoldable pub resume : (ℕ → List ℕ) → Store → List Tmp → Option Store
unfolding sync
resume mem s [] = sync mem (record s { pending = []; waiting_for_ack = false })
resume mem s (cur ∷ rest) = some (record s { pending = cur ∷ rest })

unfoldable pub parseack : (ℕ → List ℕ) → Store → Bstream → Option Store
unfolding read_acks settle_all unsettled resume
parseack mem s bs =
    let pending = read_acks bs s.pending in
    settle_all s pending >>= λ s'. resume mem s' (unsettled pending)
