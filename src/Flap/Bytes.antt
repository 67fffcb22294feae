-- ===== src/Flap/Bytes.antt =====
-- txqueue.c: the bytes that sendframe_flap sends.
use irssi_icq.Base.{
  take, List, ℕ, ◌≤◌, ◌++◌, ◌≡◌, length, [], arith, ◌+◌, refl, length-append, inl, inr, ◌<◌, ◌∙◌,
  ap,
}
use irssi_icq.Word
use irssi_icq.Word.RoundTrip.{length-put8, length-put16}
use irssi_icq.Bstream
use irssi_icq.Bstream.{Bstream}
use irssi_icq.Bstream.View.{IsValid, written, pending, rewind-IsValid, length-written}
use irssi_icq.Bstream.Write.{put8-Puts, putbs_lem}
use irssi_icq.Tlv.Write.{Appends, Appends-trans, Puts-Appends, put16-Appends}
use irssi_icq.Ssi.Sync.Agree.{IsMemory}
use irssi_icq.Flap.{Frame, flap_stream, ℕ, List, take}

abbrev pub encode_header : ℕ → ℕ → ℕ → List ℕ
encode_header type seqnum payloadlen =
    Word.put8 0x2a ++ (Word.put8 type ++ (Word.put16 seqnum ++ Word.put16 payloadlen))

-- The frame on the wire: the header, then what was written to the payload.
abbrev pub encode_frame : Frame → List ℕ
encode_frame fr = encode_header fr.type fr.seqnum fr.payload.offset ++ written fr.payload

put8-Appends :
    (s : Bstream) (x : ℕ)
    → IsValid s
    → 1 ≤ Bstream.empty s
    → Appends (Word.put8 x) s (Bstream.put8 s x).1
put8-Appends s x v h = Puts-Appends 1 _ s _ _ v (omega (arith, length-put8 x)) (put8-Puts s x v)

pub length-encode_header : (t q n : ℕ) → length (encode_header t q n) ≡ 6
length-encode_header t q n = omega (
  arith,
  length-append (Word.put8 0x2a) (Word.put8 t ++ (Word.put16 q ++ Word.put16 n)),
  length-append (Word.put8 t) (Word.put16 q ++ Word.put16 n),
  length-append (Word.put16 q) (Word.put16 n),
  length-put8 0x2a,
  length-put8 t,
  length-put16 q,
  length-put16 n,
)

-- A fresh stream of `n` bytes.
fresh_stream :
    (mem : ℕ → List ℕ) (n : ℕ)
    → IsMemory mem
    → IsValid (Bstream.init (mem n) n)
      × (Bstream.empty (Bstream.init (mem n) n) ≡ n)
      × (written (Bstream.init (mem n) n) ≡ [])
unfolding Bstream.init Bstream.empty
fresh_stream mem n mm =
    (record { sized = (mm n).0; within = omega arith; bounded = (mm n).1 }, omega arith, refl)

-- The header, in a stream that has room for it.
header-Appends :
    (s : Bstream) (t q n : ℕ)
    → IsValid s
    → 6 ≤ Bstream.empty s
    → Appends
        (encode_header t q n)
        s
        (Bstream.put16 (Bstream.put16 (Bstream.put8 (Bstream.put8 s 0x2a).1 t).1 q).1 n).1
header-Appends s t q n v f =
    let a = put8-Appends s 0x2a v (omega arith) in
    let b =
      put8-Appends (Bstream.put8 s 0x2a).1 t a.valid (omega (arith, a.room, length-put8 0x2a)) in
    let c =
      put16-Appends _ q b.valid (omega (arith, a.room, b.room, length-put8 0x2a, length-put8 t)) in
    let d =
      put16-Appends _ n c.valid
        (omega (arith, a.room, b.room, c.room, length-put8 0x2a, length-put8 t, length-put16 q)) in
    Appends-trans a (Appends-trans b (Appends-trans c d))

pub rewind_lem : (s : Bstream) → Bstream.rewind s ≡ record s { offset = 0 }
unfolding Bstream.rewind Bstream.setpos
rewind_lem s = ground arith

whole : (s : Bstream) → Bstream.empty (record s { offset = 0 }) ≡ s.len
unfolding Bstream.empty
whole s = omega arith

-- The header, then the bytes of a stream that was rewound.
filled :
    (s h : Bstream) (vs : List ℕ)
    → IsValid s
    → written h ≡ vs
    → IsValid h
    → s.offset ≤ Bstream.empty h
    → IsValid (Bstream.putbs h (Bstream.rewind s) s.offset).1
      × (written (Bstream.putbs h (Bstream.rewind s) s.offset).1 ≡ vs ++ written s)
filled s h vs v w hv room = elim (putbs_lem h (Bstream.rewind s) s.offset hv (rewind-IsValid s v)) [
  | inl (_, _, _, valid, bytes, _, _) ↦
      (valid, bytes ∙ rw w (ap (λ r. vs ++ take s.offset (pending r)) (rewind_lem s)))
  | inr (inl short, _) ↦ absurd (long_enough short)
  | inr (inr short, _) ↦ absurd (omega (arith, short, room))
]
  where
    long_enough : Bstream.empty (Bstream.rewind s) < s.offset → ⊥
    long_enough short =
        let e : Bstream.empty (Bstream.rewind s) ≡ s.len =
          ap Bstream.empty (rewind_lem s) ∙ whole s in
        omega (arith, short, e, v.within)

-- On fresh memory the stream that sendframe_flap fills is full: a header with the channel, the sequence
-- number and the length of the payload, then the payload.
pub flap_stream_lem :
    (mem : ℕ → List ℕ) (fr : Frame)
    → IsMemory mem
    → IsValid fr.payload
    → IsValid (flap_stream mem fr)
      × ((flap_stream mem fr).offset ≡ 6 + fr.payload.offset)
      × (written (flap_stream mem fr) ≡ encode_frame fr)
unfolding flap_stream Bstream.curpos
flap_stream_lem mem fr mm v =
    let n = 6 + fr.payload.offset in
    let f = fresh_stream mem n mm in
    let h =
      header-Appends (Bstream.init (mem n) n) fr.type fr.seqnum fr.payload.offset f.0
        (omega (arith, f.1)) in
    let header = encode_header fr.type fr.seqnum fr.payload.offset in
    let (valid, bytes) =
      filled fr.payload _ header v (h.written_is ∙ ap (λ w. w ++ header) f.2) h.valid
        (omega (arith, h.room, f.1, length-encode_header fr.type fr.seqnum fr.payload.offset)) in
    (
      valid,
      omega (
        arith,
        length-written _ valid,
        ap length bytes,
        length-append header (written fr.payload),
        length-encode_header fr.type fr.seqnum fr.payload.offset,
        length-written fr.payload v,
      ),
      bytes,
    )
