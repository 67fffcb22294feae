-- ===== src/Tlv/Read.antt =====
-- The reading loops of tlv.c on streams whose bytes to come are known.
use irssi_icq.Base.{
  length-append, zero, suc, ◌+◌, ◌-◌, ◌%◌, ◌^◌, ◌≤◌, ◌<◌, [], ◌∷◌, reverse-cons, append-nil,
  append_assoc, lt→ltb, arith, true, reverse, length, ap, ℕ, ◌≡◌, refl, List, ◌++◌, Option, some,
  ltb, ◌==◌, Bool-cases, ==_iff, inl, inr, ltb_false→le,
}
use irssi_icq.Bstream
use irssi_icq.Bstream.{Bstream}
use irssi_icq.Bstream.View.{IsValid, pending, length-pending, pending-moved, moved-IsValid}
use irssi_icq.Bstream.Read.{take16, get16-Reads, getraw-some, Reads}
use irssi_icq.Tlv.{
  sizetlvchain, readtlvchain, read_num_loop, read_loop, read_len_loop, counttlvchain, Tlv,
  read_value, read_tlv,
}
use irssi_icq.Tlv.Format.{
  length-encode_tlv, encode, IsChain, IsTlv, encode_tlv, take_value, take_tlv, take_tlv-encode,
}

-- A reader of the stream finds what `f` finds in the bytes to come, and leaves what `f` leaves.
abbrev pub Parses : Option Tlv × List ℕ → Option Tlv × Bstream → Type 0
Parses (o, l) (o', s) = IsValid s × (o' ≡ o) × (pending s ≡ l)

read_value-Parses :
    (type n : ℕ) (s : Bstream)
    → IsValid s
    → Parses (take_value type n (pending s)) (read_value type n s)
unfolding read_value
read_value-Parses type n s v =
    rw (length-pending s v) (elim (Bool-cases (ltb (Bstream.empty s) n)) [
      | inl short ↦ rw short (v, refl, refl)
      | inr fits ↦ rw fits (elim (Bool-cases (n == 0)) [
        | inl none_left ↦ rw (none_left, (==_iff n 0).0 none_left) (v, refl, refl)
        | inr some_left ↦
            let got = getraw-some s n (ltb_false→le _ n fits) in
            rw (some_left, ap (λ p. p.0) got, ap (λ p. p.1) got)
              (moved-IsValid s n v (ltb_false→le _ n fits), refl, pending-moved s n)
      ])
    ])

pub read_tlv-Parses : (s : Bstream) → IsValid s → Parses (take_tlv (pending s)) (read_tlv s)
unfolding read_tlv
read_tlv-Parses s v =
    let r1 : Reads take16 s (Bstream.get16 s) = get16-Reads s v in
    let s1 = (Bstream.get16 s).1 in
    let r2 : Reads take16 s1 (Bstream.get16 s1) = get16-Reads s1 r1.0 in
    rw (← r1.1, ← r1.2, ← r2.1, ← r2.2) (read_value-Parses _ _ _ r2.0)

-- One round on a triple that is written out at the front.
pub read_tlv-encode :
    (s : Bstream) (t : Tlv) (r : List ℕ)
    → IsValid s
    → IsTlv t
    → pending s ≡ encode_tlv t ++ r
    → Parses (some t, r) (read_tlv s)
read_tlv-encode s t r v h e = rw (e, take_tlv-encode t r h) at (read_tlv-Parses s v)

pub empty_of : (s : Bstream) (l : List ℕ) → IsValid s → pending s ≡ l → Bstream.empty s ≡ length l
empty_of s l v e = omega (arith, length-pending s v, ap length e)

-- There is more to read where a triple is written out at the front.
pub more_to_read :
    (s : Bstream) (t : Tlv) (r : List ℕ)
    → IsValid s
    → IsTlv t
    → pending s ≡ encode_tlv t ++ r
    → ltb 0 (Bstream.empty s) ≡ true
more_to_read s t r v h e =
    lt→ltb 0 _
      (omega (arith, empty_of s _ v e, length-append (encode_tlv t) r, length-encode_tlv t h))

-- A round of each loop.
pub read_loop-encode :
    (fuel : ℕ) (s : Bstream) (list : List Tlv) (t : Tlv) (r : List ℕ)
    → IsValid s
    → IsTlv t
    → pending s ≡ encode_tlv t ++ r
    → read_loop (suc fuel) s list ≡ read_loop fuel (read_tlv s).1 (t ∷ list)
unfolding read_loop
read_loop-encode fuel s list t r v h e =
    rw (more_to_read s t r v h e, (read_tlv-encode s t r v h e).1, read_loop) refl

pub read_num_loop-encode :
    (num : ℕ) (s : Bstream) (list : List Tlv) (t : Tlv) (r : List ℕ)
    → IsValid s
    → IsTlv t
    → pending s ≡ encode_tlv t ++ r
    → read_num_loop (suc num) s list ≡ read_num_loop num (read_tlv s).1 (t ∷ list)
unfolding read_num_loop
read_num_loop-encode num s list t r v h e =
    rw (more_to_read s t r v h e, (read_tlv-encode s t r v h e).1, read_num_loop) refl

pub read_len_loop-encode :
    (fuel : ℕ) (s : Bstream) (len : ℕ) (list : List Tlv) (t : Tlv) (r : List ℕ)
    → IsValid s
    → IsTlv t
    → pending s ≡ encode_tlv t ++ r
    → 0 < len
    → read_len_loop (suc fuel) s len list
      ≡ read_len_loop fuel (read_tlv s).1 ((len + 2 ^ 17 - (4 + t.len + 0)) % 2 ^ 16) (t ∷ list)
unfolding read_len_loop sizetlvchain
read_len_loop-encode fuel s len list t r v h e pos =
    rw (more_to_read s t r v h e, lt→ltb 0 len pos, (read_tlv-encode s t r v h e).1, read_len_loop)
      refl

-- A loop has delivered `l` and left the bytes `rest` to come.
abbrev pub Delivers : List Tlv → List ℕ → Option (List Tlv × Bstream) → Type 0
Delivers l rest o = (s : Bstream) × (o ≡ some (l, s)) × IsValid s × (pending s ≡ rest)

pub reverse_cons_append :
    (t : Tlv) (l list : List Tlv) → reverse (t ∷ l) ++ list ≡ reverse l ++ (t ∷ list)
reverse_cons_append t l list = rw (reverse-cons, append_assoc)

read_loop-Delivers :
    (l : List Tlv) (fuel : ℕ) (s : Bstream) (list : List Tlv)
    → IsValid s
    → IsChain l
    → pending s ≡ encode l
    → counttlvchain l ≤ fuel
    → Delivers (reverse l ++ list) [] (read_loop fuel s list)
unfolding counttlvchain
read_loop-Delivers [] zero s list v h e f =
    (s, unfold read_loop in rw (empty_of s [] v e, read_loop), v, e)
read_loop-Delivers [] (suc fuel) s list v h e f =
    (s, unfold read_loop in rw (empty_of s [] v e, read_loop), v, e)
read_loop-Delivers (t ∷ l) zero s list v h e f = absurd (omega arith)
read_loop-Delivers (t ∷ l) (suc fuel) s list v h e f =
    let round : Parses (some t, encode l) (read_tlv s) = read_tlv-encode s t (encode l) v h.0 e in
    rw (read_loop-encode fuel s list t (encode l) v h.0 e, reverse_cons_append)
      (read_loop-Delivers l fuel (read_tlv s).1 (t ∷ list) round.0 h.1 round.2 (omega arith))

-- aim_readtlvchain on a stream that holds an encoded chain comes to its end, delivers the triples
-- in the reverse order, and takes all bytes, with one round for each triple.
pub readtlvchain-encode :
    (s : Bstream) (l : List Tlv) (fuel : ℕ)
    → IsValid s
    → IsChain l
    → pending s ≡ encode l
    → counttlvchain l ≤ fuel
    → Delivers (reverse l) [] (readtlvchain fuel s)
unfolding readtlvchain
readtlvchain-encode s l fuel v h e f = rw (append-nil) at (read_loop-Delivers l fuel s [] v h e f)
