-- ===== src/Message/Received.antt =====
-- im.c: incomingim_ch1_parsemsgs reads the message that aim_im_sendch1_ext writes.
use irssi_icq.Base.{
  ℕ, zero, suc, ◌+◌, ◌≤◌, ◌≡◌, refl, ◌∙◌, sym, ap, ◌==◌, List, [], ◌∷◌, ◌++◌, true, false, Option,
  some, arith, All, length, drop, append_assoc, length-append, append-nil, drop-length-append,
  Option-cases, inl, inr, ◌>>=◌,
}
use mathlib.Core.List.{map}
use Prim.Native.Nat.{bit_or}
use irssi_icq.Base.Patch.{All-drop, All-take}
use irssi_icq.Word.RoundTrip.{IsByte}
use irssi_icq.Bstream
use irssi_icq.Bstream.{Bstream}
use irssi_icq.Bstream.View.{IsValid, written, pending, length-pending, init-IsValid}
use irssi_icq.Message.{
  Section, Mpmsg, Args, addsection, parts_len, put_parts, read_part, read_parts, find_part, fill,
  choose, charsetpri, parsemsgs,
}
use irssi_icq.Message.Parts.{
  Part, IsPart, sent, received, encode_part, encode_parts, length-encode_part, put_parts-Appends,
  read_part-encode_part,
}

-- The message with the parts added.
abbrev add_parts : Mpmsg → List Part → Mpmsg
add_parts mpm [] = mpm
add_parts mpm (p ∷ ps) =
    add_parts (addsection mpm p.charset p.charsubset (some (p.text ++ (0 ∷ []))) (length p.text)) ps

read_parts-end :
    (fuel : ℕ) (s : Bstream) (mpm : Mpmsg)
    → (Bstream.empty s == 0) ≡ true
    → read_parts fuel s mpm ≡ some mpm
unfolding read_parts
read_parts-end zero s mpm e = ground (arith, e)
read_parts-end (suc fuel) s mpm e = ground (arith, e)

abbrev add_section : Mpmsg → Section → Mpmsg
add_section mpm sec = addsection mpm sec.charset sec.charsubset sec.content sec.datalen

read_parts-step :
    (fuel : ℕ) (s : Bstream) (mpm : Mpmsg)
    → (Bstream.empty s == 0) ≡ false
    → read_parts (suc fuel) s mpm
      ≡ read_parts fuel (read_part s).1 (add_section mpm (read_part s).0)
unfolding read_parts
read_parts-step fuel s mpm e = ground (arith, e)

read_parts-encode :
    (ps : List Part) (fuel : ℕ) (s : Bstream) (mpm : Mpmsg)
    → IsValid s
    → All IsPart ps
    → pending s ≡ encode_parts ps
    → length ps ≤ fuel
    → read_parts fuel s mpm ≡ some (add_parts mpm ps)
unfolding encode_parts
read_parts-encode [] fuel s mpm v h e enough =
    read_parts-end fuel s mpm (ground (arith, ap length e, length-pending s v))
read_parts-encode (p ∷ ps) zero s mpm v h e enough = absurd (omega arith)
read_parts-encode (p ∷ ps) (suc fuel) s mpm v h e enough =
    let g = read_part-encode_part s p (encode_parts ps) v h.0 e in
    read_parts-step fuel s mpm (more e)
    ∙ ap (λ sec. read_parts fuel (read_part s).1 (add_section mpm sec)) g.0
    ∙ read_parts-encode ps fuel (read_part s).1 (add_section mpm (received p)) g.1 h.1 g.2
        (omega (arith, enough))
  where
    more : pending s ≡ encode_part p ++ encode_parts ps → (Bstream.empty s == 0) ≡ false
    more q = positive (
        omega (
          arith,
          ap length q,
          length-append (encode_part p) (encode_parts ps),
          length-encode_part p,
          length-pending s v,
        ))
      where
        positive : 1 ≤ Bstream.empty s → (Bstream.empty s == 0) ≡ false
        positive one = ground (arith, one)

add_parts_lem :
    (ps : List Part) (mpm : Mpmsg)
    → ((add_parts mpm ps).parts ≡ mpm.parts ++ map received ps)
      × ((add_parts mpm ps).numparts ≡ mpm.numparts + length ps)
unfolding addsection
add_parts_lem [] mpm = (sym (append-nil mpm.parts), omega arith)
add_parts_lem (p ∷ ps) mpm =
    let ih = add_parts_lem ps (add_section mpm (received p)) in
    (ih.0 ∙ append_assoc mpm.parts (received p ∷ []) (map received ps), omega (arith, ih.1))

choose-mpmsg : (pris : List ℕ) (args : Args) → (choose pris args).mpmsg ≡ args.mpmsg
unfolding choose fill
choose-mpmsg [] args = refl
choose-mpmsg (pri ∷ pris) args = elim (Option-cases (find_part pri args.mpmsg.parts)) [
  | inl e ↦ ground (arith, e, choose-mpmsg pris args)
  | inr (sec, e) ↦ ground (arith, e)
]

-- What aim_im_sendch1_ext has appended to the stream.
abbrev pub appended : Bstream → Bstream → List ℕ
appended s s' = drop (length (written s)) (written s')

-- The outcome of reading the parts: they stand behind the parts that were there.
abbrev pub Receives : List Part → Mpmsg → Option Args → Type 0
Receives ps mpm o =
    (args : Args) × (o ≡ some args)
    × (args.mpmsg.parts ≡ mpm.parts ++ map received ps)
    × (args.mpmsg.numparts ≡ mpm.numparts + length ps)

parsemsgs-encode :
    (bytes : List ℕ) (ps : List Part) (args : Args)
    → All IsByte bytes
    → All IsPart ps
    → bytes ≡ encode_parts ps
    → length ps ≤ length bytes
    → Receives ps args.mpmsg (parsemsgs bytes (length bytes) args)
unfolding parsemsgs Bstream.init
parsemsgs-encode bytes ps args b h e enough =
    let mpm = add_parts args.mpmsg ps in
    let q =
      read_parts-encode ps (length bytes) (Bstream.init bytes (length bytes)) args.mpmsg
        (init-IsValid bytes b) h e enough in
    let args' : Args = record args { mpmsg = mpm; icbmflags = bit_or args.icbmflags 0x0400 } in
    let kept = choose-mpmsg charsetpri args' in
    let counted = add_parts_lem ps args.mpmsg in
    (
      choose charsetpri args',
      ap
          (λ o. o >>= λ (mpm : Mpmsg). some (
            choose charsetpri
              (record args { mpmsg = mpm; icbmflags = bit_or args.icbmflags 0x0400 })))
          q,
      ap (λ (m : Mpmsg). m.parts) kept ∙ counted.0,
      ap (λ (m : Mpmsg). m.numparts) kept ∙ counted.1,
    )

length-encode_parts : (ps : List Part) → length (encode_parts ps) ≡ parts_len (map sent ps)
unfolding encode_parts parts_len
length-encode_parts [] = refl
length-encode_parts (p ∷ ps) = omega (
  arith,
  length-append (encode_part p) (encode_parts ps),
  length-encode_part p,
  length-encode_parts ps,
)

count_le : (ps : List Part) → length ps ≤ length (encode_parts ps)
unfolding encode_parts
count_le [] = omega arith
count_le (p ∷ ps) =
    omega
      (arith, length-append (encode_part p) (encode_parts ps), length-encode_part p, count_le ps)

-- Where a valid stream has room for the parts of a message, the loops of aim_im_sendch1_ext count and append as many
-- bytes as each other, and incomingim_ch1_parsemsgs, given these bytes, adds the same parts in the same order to the
-- message and to its count, each with a NUL behind its bytes.
pub parsemsgs-put_parts :
    (s : Bstream) (ps : List Part) (args : Args)
    → IsValid s
    → All IsPart ps
    → parts_len (map sent ps) ≤ Bstream.empty s
    → (let bytes = appended s (put_parts s (map sent ps)) in
        (length bytes ≡ parts_len (map sent ps))
        × Receives ps args.mpmsg (parsemsgs bytes (length bytes) args))
parsemsgs-put_parts s ps args v h room =
    let a = put_parts-Appends ps s v h room in
    let s' = put_parts s (map sent ps) in
    let e : appended s s' ≡ encode_parts ps =
      ap (drop (length (written s))) a.written_is
      ∙ drop-length-append (written s) (encode_parts ps) in
    let n = ap length e in
    (
      n ∙ length-encode_parts ps,
      parsemsgs-encode (appended s s') ps args
          (All-drop IsByte (length (written s)) (written s')
            (All-take IsByte s'.offset s'.bytes a.valid.bounded))
          h e (omega (arith, n, count_le ps)),
    )
