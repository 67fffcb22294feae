-- ===== src/Message/Parts.antt =====
-- im.c: incomingim_ch1_parsemsgs reads the parts that aim_im_sendch1_ext writes.
use irssi_icq.Base.{
  ℕ, ◌+◌, ◌-◌, ◌%◌, ◌^◌, ◌≤◌, ◌<◌, ◌≡◌, refl, ◌∙◌, sym, ap, List, [], ◌∷◌, ◌++◌, Option, some,
  arith, All, length, append_assoc, subst,
}
use mathlib.Core.List.{map}
use irssi_icq.Word
use irssi_icq.Word.RoundTrip.{IsByte, length-put16}
use irssi_icq.Bstream
use irssi_icq.Bstream.{Bstream}
use irssi_icq.Bstream.View.{IsValid, pending}
use irssi_icq.Bstream.Read.{take8, Reads, get8-Reads}
use irssi_icq.Bstream.Write.{putraw-Puts}
use irssi_icq.Tlv.Write.{Appends, Appends-trans, Appends-nil, Puts-Appends, put16-Appends}
use irssi_icq.Ssi.Wire.Reading.{get16-written, getstr-written}
use irssi_icq.Message.{Section, parts_len, put_part, put_parts, read_part}

-- A part to be sent.
pub record Part : Type 0 where
  pub charset : ℕ
  pub charsubset : ℕ
  pub text : List ℕ

pub record IsPart (p : Part) : Type 0 where
  pub charset_fits : p.charset < 2 ^ 16
  pub charsubset_fits : p.charsubset < 2 ^ 16
  pub text_fits : length p.text + 4 < 2 ^ 16
  pub bytes : All IsByte p.text

-- The part as the sender has it, and as the receiver has it: with a NUL behind its bytes.
abbrev pub sent : Part → Section
sent p = record {
  charset = p.charset;
  charsubset = p.charsubset;
  content = some p.text;
  datalen = length p.text;
}

abbrev pub received : Part → Section
received p = record (sent p) { content = some (p.text ++ (0 ∷ [])) }

abbrev pub encode_part : Part → List ℕ
encode_part p =
    Word.put16 0x0101
    ++ (Word.put16 (length p.text + 4)
        ++ (Word.put16 p.charset ++ (Word.put16 p.charsubset ++ p.text)))

unfoldable pub encode_parts : List Part → List ℕ
encode_parts [] = []
encode_parts (p ∷ ps) = encode_part p ++ encode_parts ps

pub length-encode_part : (p : Part) → length (encode_part p) ≡ length p.text + 8
unfolding Word.put16
length-encode_part p = omega arith

put_part-Appends :
    (s : Bstream) (p : Part)
    → IsValid s
    → IsPart p
    → length p.text + 8 ≤ Bstream.empty s
    → Appends (encode_part p) s (put_part s (sent p))
unfolding put_part
put_part-Appends s p v h room =
    let two = length-put16 0x0101 in
    let a = put16-Appends s 0x0101 v (omega (arith, room)) in
    let b = put16-Appends _ (length p.text + 4) a.valid (omega (arith, room, a.room, two)) in
    let c =
      put16-Appends _ p.charset b.valid
        (omega (arith, room, a.room, two, b.room, length-put16 (length p.text + 4))) in
    let d = put16-Appends _ p.charsubset c.valid (
      omega (
        arith,
        room,
        a.room,
        two,
        b.room,
        length-put16 (length p.text + 4),
        c.room,
        length-put16 p.charset,
      )) in
    let e =
      Puts-Appends _ p.text _ _ _ d.valid
        (omega (
          arith,
          room,
          a.room,
          two,
          b.room,
          length-put16 (length p.text + 4),
          c.room,
          length-put16 p.charset,
          d.room,
          length-put16 p.charsubset,
        ))
        (putraw-Puts _ p.text d.valid h.bytes) in
    Appends-trans a (Appends-trans b (Appends-trans c (Appends-trans d e)))

pub put_parts-Appends :
    (ps : List Part) (s : Bstream)
    → IsValid s
    → All IsPart ps
    → parts_len (map sent ps) ≤ Bstream.empty s
    → Appends (encode_parts ps) s (put_parts s (map sent ps))
unfolding put_parts encode_parts parts_len
put_parts-Appends [] s v h room = Appends-nil s v
put_parts-Appends (p ∷ ps) s v h room =
    let a = put_part-Appends s p v h.0 (omega (arith, room)) in
    Appends-trans a
      (put_parts-Appends ps _ a.valid h.1 (omega (arith, room, a.room, length-encode_part p)))

-- The two bytes in front of a length.
get8_twice :
    (s : Bstream) (x : ℕ) (r : List ℕ)
    → IsValid s
    → pending s ≡ Word.put16 x ++ r
    → (let s' = (Bstream.get8 (Bstream.get8 s).1).1 in IsValid s' × (pending s' ≡ r))
unfolding Word.put16
get8_twice s x r v e =
    let g : Reads take8 s (Bstream.get8 s) = get8-Reads s v in
    let s1 = (Bstream.get8 s).1 in
    let e1 : pending s1 ≡ (x % 256) ∷ r = g.2 ∙ ap (λ l. (take8 l).1) e in
    let g' : Reads take8 s1 (Bstream.get8 s1) = get8-Reads s1 g.0 in
    (g'.0, g'.2 ∙ ap (λ l. (take8 l).1) e1)

abbrev assemble : ℕ → ℕ → ℕ → Option (List ℕ) × Bstream → Section × Bstream
assemble flag1 flag2 msglen (msgbuf, bs) =
    (record { charset = flag1; charsubset = flag2; content = msgbuf; datalen = msglen }, bs)

abbrev text_len : ℕ → ℕ
text_len len = (len + 2 ^ 16 - 4) % 2 ^ 16

-- What a round gives.
abbrev pub RoundGives : Section → List ℕ → Section × Bstream → Type 0
RoundGives sec r o = (o.0 ≡ sec) × IsValid o.1 × (pending o.1 ≡ r)

pub read_part-encode_part :
    (s : Bstream) (p : Part) (r : List ℕ)
    → IsValid s
    → IsPart p
    → pending s ≡ encode_part p ++ r
    → RoundGives (received p) r (read_part s)
unfolding read_part
read_part-encode_part s p r v h e =
    let len = length p.text in
    let g2 = get8_twice s 0x0101 _ v (e ∙ nested) in
    let s2 = (Bstream.get8 (Bstream.get8 s).1).1 in
    let g3 = get16-written s2 (len + 4) _ g2.0 h.text_fits g2.1 in
    let s3 = (Bstream.get16 s2).1 in
    let g4 = get16-written s3 p.charset _ g3.0 h.charset_fits g3.2 in
    let s4 = (Bstream.get16 s3).1 in
    let g5 = get16-written s4 p.charsubset _ g4.0 h.charsubset_fits g4.2 in
    let s5 = (Bstream.get16 s4).1 in
    let m : text_len (Bstream.get16 s2).0 ≡ len = ap text_len g3.1 ∙ back_len in
    let gs = getstr-written s5 p.text r g5.0 g5.2 in
    let q : read_part s ≡ (received p, Bstream.moved s5 len) =
      (λ i. assemble (g4.1 i) (g5.1 i) (m i) (Bstream.getstr s5 (m i)))
      ∙ ap (assemble p.charset p.charsubset len) gs.0 in
    subst (RoundGives (received p) r) (sym q) (refl, gs.1, gs.2)
  where
    nested :
        encode_part p ++ r
        ≡ Word.put16 0x0101
          ++ (Word.put16 (length p.text + 4)
              ++ (Word.put16 p.charset ++ (Word.put16 p.charsubset ++ (p.text ++ r))))
    nested = simp append_assoc refl

    back_len : text_len (length p.text + 4) ≡ length p.text
    back_len = omega (arith, h.text_fits)
