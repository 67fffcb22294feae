-- ===== src/Ssi/Wire.antt =====
-- ssi.c: items as bytes. The frame that aim_ssi_addmoddel fills, with aim_putsnac of snac.c, and
-- parsedata, which reads the lists. `mem` gives the content of the memory that `malloc` returns; a
-- frame's stream is as aim_tx_new sets it up. The loops that read run on fuel, `none` where it is not
-- enough: `rounds` for the loop over the items, `fuel` for that over the triples of one. The user
-- function is assumed to leave the stored information alone.
pub mod Frame
pub mod Reading
pub mod Loading
pub mod Parse
pub mod Push
mod Examples
use irssi_icq.Base.{
  List, Option, ℕ, ◌+◌, ◌>>=◌, if◌then◌else◌, ◌∷◌, some, ◌==◌, none, ◌%◌, ltb, length, ◌^◌, suc,
  true, zero, [], false,
}
use irssi_icq.Bstream
use irssi_icq.Bstream.{Bstream}
use irssi_icq.Util.{before}
use irssi_icq.Tlv.{Tlv, sizetlvchain, writetlvchain, readtlvchain_len}
use irssi_icq.Ssi.{Item, itemlist_add, ℕ, Option, List}
use irssi_icq.Ssi.Sync.{Store}
use irssi_icq.Ssi.Edit.{add_local}

unfoldable pub putsnac : Bstream → ℕ → ℕ → ℕ → ℕ → Bstream
putsnac s family subtype flags snacid =
    let s1 = (Bstream.put16 s family).1 in
    let s2 = (Bstream.put16 s1 subtype).1 in
    let s3 = (Bstream.put16 s2 flags).1 in (Bstream.put32 s3 snacid).1

-- `strlen`, or 0 where there is no name.
abbrev pub name_len : Option (List ℕ) → ℕ
name_len none = 0
name_len (some name) = length name

-- The loop that calculates the size of the SNAC, from 10 on.
unfoldable pub snaclen : List Item → ℕ
snaclen [] = 10
snaclen (item ∷ rest) = 10 + name_len item.name + sizetlvchain item.tlvs + snaclen rest

unfoldable pub put_name : Bstream → Option (List ℕ) → Bstream
put_name s none = s
put_name s (some name) = (Bstream.putraw s name (length name)).1

unfoldable pub put_data : Bstream → List Tlv → Bstream
put_data s [] = s
put_data s (t ∷ chain) = (writetlvchain s (t ∷ chain)).1

unfoldable pub put_item : Bstream → Item → Bstream
unfolding put_name put_data
put_item s item =
    let s1 = (Bstream.put16 s (name_len item.name)).1 in
    let s2 = put_name s1 item.name in
    let s3 = (Bstream.put16 s2 item.gid).1 in
    let s4 = (Bstream.put16 s3 item.bid).1 in
    let s5 = (Bstream.put16 s4 item.type).1 in
    let s6 = (Bstream.put16 s5 (sizetlvchain item.tlvs)).1 in put_data s6 item.tlvs

unfoldable pub put_items : Bstream → List Item → Bstream
unfolding put_item
put_items s [] = s
put_items s (item ∷ rest) = put_items (put_item s item) rest

-- The stream of the frame that aim_ssi_addmoddel hands over.
unfoldable pub edit_frame : (ℕ → List ℕ) → ℕ → ℕ → List Item → Bstream
unfolding snaclen putsnac put_items
edit_frame mem snacid action items =
    put_items (putsnac (Bstream.init (mem (snaclen items)) (snaclen items)) 0x0013 action 0 snacid)
      items

-- The string that aimbs_getstr returned, up to its first NUL.
abbrev c_string : Option (List ℕ) → Option (List ℕ)
c_string none = none
c_string (some bytes) = some (before bytes 0)

unfoldable pub read_name : Bstream → Option (List ℕ) × Bstream
unfolding before
read_name bs =
    let (namelen, bs') = Bstream.get16 bs in
    if namelen == 0
    then (none, bs')
    else (let (name, bs'') = Bstream.getstr bs' namelen in (c_string name, bs''))

-- One round of parsedata, before the addition: the item's name, numbers, type and triples.
unfoldable pub read_item : ℕ → Bstream → Option (Option (List ℕ) × ℕ × ℕ × ℕ × List Tlv × Bstream)
unfolding read_name
read_item fuel bs =
    let (name, bs1) = read_name bs in
    let (gid, bs2) = Bstream.get16 bs1 in
    let (bid, bs3) = Bstream.get16 bs2 in
    let (type, bs4) = Bstream.get16 bs3 in
    let (len, bs5) = Bstream.get16 bs4 in
    readtlvchain_len fuel bs5 len >>= λ (chain, bs6). some (name, gid, bid, type, chain, bs6)

unfoldable pub add_read : Store → Option (List ℕ) → ℕ → ℕ → ℕ → List Tlv → Option Store
add_read s name gid bid type chain = do
  (new, list) ← itemlist_add s.next s.official name gid bid type chain
  some (record s { official = list; next = s.next + 1 })

unfoldable pub parsedata_loop : ℕ → ℕ → Bstream → Store → Option (Bstream × Store)
unfolding read_item add_read
parsedata_loop zero fuel bs s = if ltb 4 (Bstream.empty bs) then none else some (bs, s)
parsedata_loop (suc rounds) fuel bs s = elim (ltb 4 (Bstream.empty bs)) [
  | true ↦ (do
    (name, gid, bid, type, chain, bs') ← read_item fuel bs
    s' ← add_read s name gid bid type chain
    parsedata_loop rounds fuel bs' s')
  | false ↦ some (bs, s)
]

-- The loop that copies the official list.
unfoldable pub copy_items : Store → List Item → Option Store
unfolding add_local
copy_items s [] = some s
copy_items s (cur ∷ rest) = do
  (new, s') ← add_local s cur.name cur.gid cur.bid cur.type cur.tlvs
  copy_items s' rest

unfoldable pub parsedata : ℕ → ℕ → ℕ → Bstream → Store → Option Store
unfolding parsedata_loop copy_items
parsedata rounds fuel flags bs s =
    let (fmtver, bs1) = Bstream.get8 bs in
    let (n, bs2) = Bstream.get16 bs1 in
    parsedata_loop rounds fuel bs2 (record s { numitems = (s.numitems + n) % 2 ^ 16 })
    >>= λ (bs3, s1).
        (let s2 : Store = record s1 { timestamp = (Bstream.get32 bs3).0 } in
          if flags % 2 == 0
          then (copy_items s2 s2.official >>= λ s3. some (record s3 { received_data = true }))
          else some s2)
