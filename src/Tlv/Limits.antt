-- ===== src/Tlv/Limits.antt =====
-- tlv.c: the reading loops that stop at a count or at a length, and a chain with one byte left over.
use irssi_icq.Base.{
  ℕ, zero, suc, ◌+◌, ◌-◌, ◌%◌, ◌^◌, ◌≤◌, ◌<◌, ◌≡◌, refl, ◌∙◌, List, [], ◌∷◌, ◌++◌, none, some,
  arith, reverse, append-nil, append_assoc,
}
use irssi_icq.Bstream.{Bstream}
use irssi_icq.Bstream.View.{IsValid, pending}
use irssi_icq.Tlv.{
  Tlv, read_tlv, read_loop, read_num_loop, read_len_loop, readtlvchain, readtlvchain_num,
  readtlvchain_len, counttlvchain, sizetlvchain,
}
use irssi_icq.Tlv.Format.{IsChain, encode}
use irssi_icq.Tlv.Read.{
  Parses, Delivers, read_tlv-Parses, read_tlv-encode, read_loop-encode, read_num_loop-encode,
  read_len_loop-encode, reverse_cons_append, empty_of, more_to_read,
}

read_num_loop-Delivers :
    (l : List Tlv) (r : List ℕ) (s : Bstream) (list : List Tlv)
    → IsValid s
    → IsChain l
    → pending s ≡ encode l ++ r
    → Delivers (reverse l ++ list) r (some (read_num_loop (counttlvchain l) s list))
unfolding counttlvchain
read_num_loop-Delivers [] r s list v h e = (s, unfold read_num_loop in refl, v, e)
read_num_loop-Delivers (t ∷ l) r s list v h e =
    let e' = e ∙ append_assoc _ (encode l) r in
    let round : Parses (some t, encode l ++ r) (read_tlv s) =
      read_tlv-encode s t (encode l ++ r) v h.0 e' in
    rw
      (
        read_num_loop-encode (counttlvchain l) s list t (encode l ++ r) v h.0 e',
        reverse_cons_append,
      )
      (read_num_loop-Delivers l r (read_tlv s).1 (t ∷ list) round.0 h.1 round.2)

-- aim_readtlvchain_num, given the number of triples of an encoded chain, which a 16-bit count can
-- hold, delivers that chain in the reverse order and leaves whatever follows it in the stream.
pub readtlvchain_num-encode :
    (s : Bstream) (l : List Tlv) (r : List ℕ)
    → IsValid s
    → IsChain l
    → pending s ≡ encode l ++ r
    → counttlvchain l < 2 ^ 16
    → Delivers (reverse l) r (some (readtlvchain_num s (counttlvchain l)))
unfolding readtlvchain_num
readtlvchain_num-encode s l r v h e c =
    let num : counttlvchain l % 2 ^ 16 ≡ counttlvchain l = omega arith in
    rw num (rw append-nil at (read_num_loop-Delivers l r s [] v h e))

-- What is left of the length behind a triple, as long as it is in the range of its type.
rest_of_len : (n k : ℕ) → n + k < 2 ^ 16 → (n + k + 2 ^ 17 - (n + 0)) % 2 ^ 16 ≡ k
rest_of_len n k h = omega arith

read_len_loop-Delivers :
    (l : List Tlv) (r : List ℕ) (fuel : ℕ) (s : Bstream) (list : List Tlv)
    → IsValid s
    → IsChain l
    → pending s ≡ encode l ++ r
    → counttlvchain l ≤ fuel
    → sizetlvchain l < 2 ^ 16
    → Delivers (reverse l ++ list) r (read_len_loop fuel s (sizetlvchain l) list)
unfolding counttlvchain sizetlvchain
read_len_loop-Delivers [] r zero s list v h e f z = (s, unfold read_len_loop in ground arith, v, e)
read_len_loop-Delivers [] r (suc fuel) s list v h e f z =
    (s, unfold read_len_loop in ground arith, v, e)
read_len_loop-Delivers (t ∷ l) r zero s list v h e f z = absurd (omega arith)
read_len_loop-Delivers (t ∷ l) r (suc fuel) s list v h e f z =
    let e' = e ∙ append_assoc _ (encode l) r in
    let round : Parses (some t, encode l ++ r) (read_tlv s) =
      read_tlv-encode s t (encode l ++ r) v h.0 e' in
    rw
      (
        read_len_loop-encode fuel s (sizetlvchain (t ∷ l)) list t (encode l ++ r) v h.0 e'
            (omega arith),
        reverse_cons_append,
        rest_of_len (4 + t.len) (sizetlvchain l) (omega arith),
      )
      (read_len_loop-Delivers l r fuel (read_tlv s).1 (t ∷ list) round.0 h.1 round.2 (omega arith)
        (omega arith))

-- aim_readtlvchain_len, given the size of an encoded chain, which a 16-bit length can hold, comes to
-- its end, delivers that chain in the reverse order and leaves whatever follows it in the stream.
pub readtlvchain_len-encode :
    (s : Bstream) (l : List Tlv) (r : List ℕ) (fuel : ℕ)
    → IsValid s
    → IsChain l
    → pending s ≡ encode l ++ r
    → counttlvchain l ≤ fuel
    → sizetlvchain l < 2 ^ 16
    → Delivers (reverse l) r (readtlvchain_len fuel s (sizetlvchain l))
unfolding readtlvchain_len
readtlvchain_len-encode s l r fuel v h e f z =
    let len : sizetlvchain l % 2 ^ 16 ≡ sizetlvchain l = omega arith in
    rw len (rw append-nil at (read_len_loop-Delivers l r fuel s [] v h e f z))

-- A triple made up from nothing: neither the type nor the length can be read from one byte.
abbrev blank : Tlv
blank = record { type = 0; len = 0; value = [] }

read_tlv-one_left :
    (s : Bstream) (b : ℕ)
    → IsValid s
    → pending s ≡ b ∷ []
    → Parses (some blank, b ∷ []) (read_tlv s)
read_tlv-one_left s b v e = rw e at (read_tlv-Parses s v)

read_loop-one_left :
    (fuel : ℕ) (s : Bstream) (list : List Tlv) (b : ℕ)
    → IsValid s
    → pending s ≡ b ∷ []
    → read_loop fuel s list ≡ none
unfolding read_loop
read_loop-one_left zero s list b v e = rw (empty_of s _ v e, read_loop) refl
read_loop-one_left (suc fuel) s list b v e =
    let round : Parses (some blank, b ∷ []) (read_tlv s) = read_tlv-one_left s b v e in
    rw (empty_of s _ v e, round.1, read_loop)
      (read_loop-one_left fuel (read_tlv s).1 (blank ∷ list) b round.0 round.2)

read_loop-diverges :
    (l : List Tlv) (fuel : ℕ) (s : Bstream) (list : List Tlv) (b : ℕ)
    → IsValid s
    → IsChain l
    → pending s ≡ encode l ++ (b ∷ [])
    → read_loop fuel s list ≡ none
unfolding read_loop
read_loop-diverges [] fuel s list b v h e = read_loop-one_left fuel s list b v e
read_loop-diverges (t ∷ l) zero s list b v h e =
    rw (more_to_read s t _ v h.0 (e ∙ append_assoc _ (encode l) (b ∷ [])), read_loop) refl
read_loop-diverges (t ∷ l) (suc fuel) s list b v h e =
    let e' = e ∙ append_assoc _ (encode l) (b ∷ []) in
    let round : Parses (some t, encode l ++ (b ∷ [])) (read_tlv s) =
      read_tlv-encode s t _ v h.0 e' in
    rw (read_loop-encode fuel s list t _ v h.0 e')
      (read_loop-diverges l fuel (read_tlv s).1 (t ∷ list) b round.0 h.1 round.2)

-- Where one single byte is left behind a chain, the loop of aim_readtlvchain never comes to its end,
-- however many rounds it is given: each round makes up a blank triple and takes nothing.
pub readtlvchain-diverges :
    (s : Bstream) (l : List Tlv) (b fuel : ℕ)
    → IsValid s
    → IsChain l
    → pending s ≡ encode l ++ (b ∷ [])
    → readtlvchain fuel s ≡ none
unfolding readtlvchain
readtlvchain-diverges s l b fuel v h e = read_loop-diverges l fuel s [] b v h e
