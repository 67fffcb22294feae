-- ===== src/Ssi/Wire/Push.antt =====
-- ssi.c: parseadd, parsemod and parsedel, which follow the changes of another client in both lists.
-- Their loops run on `rounds`, that over the triples of an item on `fuel`, and `none` says that it was
-- not enough. The user function is assumed to leave the stored information alone.
pub mod Endless
use irssi_icq.Base.{
  List, Option, ℕ, ◌>>=◌, if◌then◌else◌, ◌∷◌, some, ◌==◌, none, ltb, suc, true, zero, [], false,
}
use irssi_icq.Bstream
use irssi_icq.Bstream.{Bstream}
use irssi_icq.Tlv.{Tlv, tlvlist_copy}
use irssi_icq.Ssi.{Item, itemlist_find, itemlist_del}
use irssi_icq.Ssi.Sync.{Store}
use irssi_icq.Ssi.Edit.{add_local}
use irssi_icq.Ssi.Wire.{read_item, add_read}

unfoldable pub parseadd : ℕ → ℕ → Bstream → Store → Option (Bstream × Store)
unfolding read_item add_read add_local
parseadd zero fuel bs s = if ltb 0 (Bstream.empty bs) then none else some (bs, s)
parseadd (suc rounds) fuel bs s = elim (ltb 0 (Bstream.empty bs)) [
  | true ↦ (do
    (name, gid, bid, type, data', bs') ← read_item fuel bs
    (new, s1) ← add_local s name gid bid type data'
    s2 ← add_read s1 name gid bid type data'
    parseadd rounds fuel bs' s2)
  | false ↦ some (bs, s)
]

-- The item at an address gets another type, name and chain.
unfoldable pub set_item : List Item → ℕ → Option (List ℕ) → ℕ → List Tlv → List Item
set_item [] addr name type chain = []
set_item (cur ∷ rest) addr name type chain =
    if cur.addr == addr
    then record cur { type = type; name = name; tlvs = tlvlist_copy chain } ∷ rest
    else cur ∷ set_item rest addr name type chain

-- The part of parsemod for one of the lists.
unfoldable pub replace : List Item → Option (List ℕ) → ℕ → ℕ → ℕ → List Tlv → List Item
unfolding set_item
replace list name gid bid type chain = elim (itemlist_find list gid bid) [
  | none ↦ list
  | some item ↦ set_item list item.addr name type chain
]

unfoldable pub parsemod : ℕ → ℕ → Bstream → Store → Option (Bstream × Store)
unfolding read_item replace
parsemod zero fuel bs s = if ltb 0 (Bstream.empty bs) then none else some (bs, s)
parsemod (suc rounds) fuel bs s = elim (ltb 0 (Bstream.empty bs)) [
  | true ↦ (do
    (name, gid, bid, type, data', bs') ← read_item fuel bs
    parsemod rounds fuel bs' (record s {
      local = replace s.local name gid bid type data';
      official = replace s.official name gid bid type data';
    }))
  | false ↦ some (bs, s)
]

-- The part of parsedel for one of the lists.
unfoldable pub remove : List Item → ℕ → ℕ → List Item
unfolding itemlist_del
remove list gid bid = elim (itemlist_find list gid bid) [
  | none ↦ list
  | some del ↦ itemlist_del list del.addr
]

-- `aim_bstream_advance(bs, aimbs_get16(bs))`
unfoldable pub skip : Bstream → Bstream
skip bs = let (len, bs') = Bstream.get16 bs in (Bstream.advance bs' len).1

-- The numbers of an item, without its name and triples.
unfoldable pub read_numbers : Bstream → ℕ × ℕ × Bstream
unfolding skip
read_numbers bs =
    let (gid, bs1) = Bstream.get16 (skip bs) in
    let (bid, bs2) = Bstream.get16 bs1 in
    let (type, bs3) = Bstream.get16 bs2 in (gid, bid, skip bs3)

unfoldable pub parsedel : ℕ → Bstream → Store → Option (Bstream × Store)
unfolding read_numbers remove
parsedel zero bs s = if ltb 0 (Bstream.empty bs) then none else some (bs, s)
parsedel (suc rounds) bs s = elim (ltb 0 (Bstream.empty bs)) [
  | true ↦
      (let (gid, bid, bs') = read_numbers bs in
        parsedel rounds bs'
          (record s { local = remove s.local gid bid; official = remove s.official gid bid }))
  | false ↦ some (bs, s)
]
