-- ===== src/Ssi/Wire/Frame.antt =====
-- ssi.c: the bytes that aim_ssi_addmoddel writes into its frame.
use irssi_icq.Base.{
  All, List, ℕ, Option, ◌+◌, ◌++◌, length, ◌∷◌, ◌≤◌, [], some, ◌≡◌, inl, arith, none, inr, refl,
  length-append, ◌∙◌, ap,
}
use irssi_icq.Word
use irssi_icq.Word.RoundTrip.{IsByte, length-put16, length-put32}
use irssi_icq.Bstream
use irssi_icq.Bstream.{Bstream}
use irssi_icq.Bstream.View.{IsValid, written}
use irssi_icq.Bstream.Write.{put32-Puts, putraw-Puts}
use irssi_icq.Tlv.{Tlv, sizetlvchain}
use irssi_icq.Tlv.Format.{IsChain, encode, length-encode}
use irssi_icq.Tlv.Write.{
  Appends, Appends-trans, Appends-nil, Puts-Appends, put16-Appends, writetlvchain_lem,
}
use irssi_icq.Ssi.{Item, Option, List, ℕ}
use irssi_icq.Ssi.Sync.Agree.{IsMemory}
use irssi_icq.Ssi.Wire.{
  name_len, snaclen, put_name, put_data, put_item, put_items, putsnac, edit_frame,
}

abbrev pub name_bytes : Option (List ℕ) → List ℕ
name_bytes none = []
name_bytes (some name) = name

-- An item whose name is made up of bytes, and whose chain is well-formed.
abbrev pub IsWritable : Item → Type 0
IsWritable item = All IsByte (name_bytes item.name) × IsChain item.tlvs

abbrev pub encode_item : Item → List ℕ
encode_item item =
    Word.put16 (name_len item.name)
    ++ (name_bytes item.name
        ++ (Word.put16 item.gid
            ++ (Word.put16 item.bid
                ++ (Word.put16 item.type
                    ++ (Word.put16 (sizetlvchain item.tlvs) ++ encode item.tlvs)))))

abbrev pub encode_items : List Item → List ℕ
encode_items [] = []
encode_items (item ∷ rest) = encode_item item ++ encode_items rest

abbrev pub encode_snac : ℕ → ℕ → ℕ → ℕ → List ℕ
encode_snac family subtype flags snacid =
    Word.put16 family ++ (Word.put16 subtype ++ (Word.put16 flags ++ Word.put32 snacid))

put_name-Appends :
    (s : Bstream) (name : Option (List ℕ))
    → IsValid s
    → All IsByte (name_bytes name)
    → name_len name ≤ Bstream.empty s
    → Appends (name_bytes name) s (put_name s name)
unfolding put_name
put_name-Appends s none v h f = Appends-nil s v
put_name-Appends s (some name) v h f = Puts-Appends _ name s _ _ v f (putraw-Puts s name v h)

put_data-Appends :
    (s : Bstream) (chain : List Tlv)
    → IsValid s
    → IsChain chain
    → sizetlvchain chain ≤ Bstream.empty s
    → Appends (encode chain) s (put_data s chain)
unfolding put_data
put_data-Appends s [] v h f = Appends-nil s v
put_data-Appends s (t ∷ chain) v h f = elim (writetlvchain_lem s (t ∷ chain) v h) [
  | inl (_, _, a) ↦ a
  | inr (short, _) ↦ absurd (omega (arith, short, f))
]

-- A 16-bit number, then what is written behind it.
put16_then :
    (s u : Bstream) (x : ℕ) (ws : List ℕ)
    → IsValid s
    → 2 ≤ Bstream.empty s
    → (IsValid (Bstream.put16 s x).1
        → 2 + Bstream.empty (Bstream.put16 s x).1 ≡ Bstream.empty s
        → Appends ws (Bstream.put16 s x).1 u)
    → Appends (Word.put16 x ++ ws) s u
put16_then s u x ws v f next =
    let a = put16-Appends s x v f in
    Appends-trans a (next a.valid (omega (arith, a.room, length-put16 x)))

pub length-name_bytes : (name : Option (List ℕ)) → length (name_bytes name) ≡ name_len name
length-name_bytes none = refl
length-name_bytes (some name) = refl

put_item-Appends :
    (s : Bstream) (item : Item)
    → IsValid s
    → IsWritable item
    → 10 + name_len item.name + sizetlvchain item.tlvs ≤ Bstream.empty s
    → Appends (encode_item item) s (put_item s item)
unfolding put_item
put_item-Appends s item v (h, k) f = put16_then s _ _ _ v (omega arith) (λ v1 e1.
    let n = put_name-Appends _ item.name v1 h (omega arith) in
    Appends-trans n (
      put16_then _ _ _ _ n.valid (omega (arith, n.room, length-name_bytes item.name)) (λ v3 e3.
        put16_then _ _ _ _ v3 (omega (arith, n.room, length-name_bytes item.name)) (λ v4 e4.
          put16_then _ _ _ _ v4 (omega (arith, n.room, length-name_bytes item.name)) (λ v5 e5.
            put16_then _ _ _ _ v5 (omega (arith, n.room, length-name_bytes item.name)) (λ v6 e6.
              put_data-Appends _ item.tlvs v6 k
                (omega (arith, n.room, length-name_bytes item.name))))))))

pub length-encode_item :
    (item : Item)
    → IsWritable item
    → length (encode_item item) ≡ 10 + name_len item.name + sizetlvchain item.tlvs
length-encode_item item (h, k) = omega (
  arith,
  length-append (Word.put16 (name_len item.name)) _,
  length-append (name_bytes item.name) _,
  length-append (Word.put16 item.gid) _,
  length-append (Word.put16 item.bid) _,
  length-append (Word.put16 item.type) _,
  length-append (Word.put16 (sizetlvchain item.tlvs)) (encode item.tlvs),
  length-put16 (name_len item.name),
  length-put16 item.gid,
  length-put16 item.bid,
  length-put16 item.type,
  length-put16 (sizetlvchain item.tlvs),
  length-name_bytes item.name,
  length-encode item.tlvs k,
)

length-encode_items :
    (items : List Item) → All IsWritable items → 10 + length (encode_items items) ≡ snaclen items
unfolding snaclen
length-encode_items [] h = refl
length-encode_items (item ∷ rest) h = omega (
  arith,
  length-append (encode_item item) (encode_items rest),
  length-encode_item item h.0,
  length-encode_items rest h.1,
)

length-encode_snac : (f t l i : ℕ) → length (encode_snac f t l i) ≡ 10
length-encode_snac f t l i = omega (
  arith,
  length-append (Word.put16 f) (Word.put16 t ++ (Word.put16 l ++ Word.put32 i)),
  length-append (Word.put16 t) (Word.put16 l ++ Word.put32 i),
  length-append (Word.put16 l) (Word.put32 i),
  length-put16 f,
  length-put16 t,
  length-put16 l,
  length-put32 i,
)

snaclen_ge : (items : List Item) → 10 ≤ snaclen items
unfolding snaclen
snaclen_ge [] = omega arith
snaclen_ge (item ∷ rest) = omega (arith, snaclen_ge rest)

put_items-Appends :
    (items : List Item) (s : Bstream)
    → IsValid s
    → All IsWritable items
    → snaclen items ≤ 10 + Bstream.empty s
    → Appends (encode_items items) s (put_items s items)
unfolding put_items snaclen
put_items-Appends [] s v h f = Appends-nil s v
put_items-Appends (item ∷ rest) s v h f =
    let a = put_item-Appends s item v h.0 (omega (arith, snaclen_ge rest)) in
    Appends-trans a
      (put_items-Appends rest _ a.valid h.1 (omega (arith, a.room, length-encode_item item h.0)))

new_frame :
    (mem : ℕ → List ℕ) (n : ℕ)
    → IsMemory mem
    → IsValid (Bstream.init (mem n) n)
      × (Bstream.empty (Bstream.init (mem n) n) ≡ n)
      × (written (Bstream.init (mem n) n) ≡ [])
unfolding Bstream.init Bstream.empty
new_frame mem n mm =
    (record { sized = (mm n).0; within = omega arith; bounded = (mm n).1 }, omega arith, refl)

-- On a frame's memory of the size that it calculates, aim_ssi_addmoddel fills the frame to its last
-- byte: the SNAC header, then the items one after the other. The names are made up of bytes, and the
-- chains are well-formed.
pub edit_frame_lem :
    (mem : ℕ → List ℕ) (snacid action : ℕ) (items : List Item)
    → IsMemory mem
    → All IsWritable items
    → IsValid (edit_frame mem snacid action items)
      × (Bstream.empty (edit_frame mem snacid action items) ≡ 0)
      × (written (edit_frame mem snacid action items)
          ≡ encode_snac 0x0013 action 0 snacid ++ encode_items items)
unfolding edit_frame putsnac
edit_frame_lem mem snacid action items mm h =
    let n = snaclen items in
    let v0 = new_frame mem n mm in
    let a =
      put16_then (Bstream.init (mem n) n) _ 0x0013 _ v0.0 (omega (arith, v0.1, snaclen_ge items))
        (λ v1 e1. put16_then _ _ action _ v1 (omega (arith, v0.1, snaclen_ge items)) (λ v2 e2.
          put16_then _ _ 0 _ v2 (omega (arith, v0.1, snaclen_ge items)) (λ v3 e3.
            Puts-Appends 1 (Word.put32 snacid) _ _ _ v3
              (omega (arith, v0.1, snaclen_ge items, length-put32 snacid))
              (put32-Puts _ snacid v3)))) in
    let b =
      put_items-Appends items _ a.valid h
        (omega (arith, a.room, v0.1, length-encode_snac 0x0013 action 0 snacid)) in
    let c = Appends-trans a b in
    (
      c.valid,
      omega (
        arith,
        a.room,
        b.room,
        v0.1,
        length-encode_snac 0x0013 action 0 snacid,
        length-encode_items items h,
      ),
      c.written_is ∙ ap (λ w. w ++ (encode_snac 0x0013 action 0 snacid ++ encode_items items)) v0.2,
    )
