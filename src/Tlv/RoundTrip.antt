-- ===== src/Tlv/RoundTrip.antt =====
-- tlv.c: what aim_writetlvchain wrote is read back, and the bytes of a chain determine it.
use irssi_icq.Base.{
  ℕ, List, ◌≡◌, ◌≤◌, drop, ◌++◌, reverse, le→ltb_false, some, take-append-drop, arith, inl,
  append_assoc, inr, length, take, [], ◌∷◌, ap, sym, length-append, ◌∙◌, Option, subst, ap₂,
  drop-length-append, refl, ◌<◌, ◌^◌,
}
use irssi_icq.Bstream
use irssi_icq.Bstream.{Bstream}
use irssi_icq.Bstream.View.{IsValid, written, pending, length-written, setpos-IsValid}
use irssi_icq.Tlv.{Tlv, sizetlvchain, counttlvchain, writetlvchain, readtlvchain_num}
use irssi_icq.Tlv.Format.{IsChain, encode, encode_tlv, take_tlv, take_tlv-encode, length-encode_tlv}
use irssi_icq.Tlv.Read.{Delivers}
use irssi_icq.Tlv.Limits.{readtlvchain_num-encode}
use irssi_icq.Tlv.Write.{Appends, writetlvchain_lem}

drop_of_take :
    (n : ℕ) (xs w vs : List ℕ) → take n xs ≡ w ++ vs → drop (length w) xs ≡ vs ++ drop n xs
drop_of_take n xs w vs e =
    subst (λ z. drop (length w) z ≡ vs ++ drop n xs) joined (drop-length-append w (vs ++ drop n xs))
  where
    joined : w ++ (vs ++ drop n xs) ≡ xs
    joined = sym (append_assoc w vs (drop n xs)) ∙ rw (← e) (take-append-drop n xs)

-- Where `vs` was appended, it stands at the old cursor, with what is still to come behind it.
pub appended_at :
    (vs : List ℕ) (s s' : Bstream)
    → IsValid s
    → Appends vs s s'
    → drop s.offset s'.bytes ≡ vs ++ pending s'
appended_at vs s s' v a =
    rw (length-written s v) at (drop_of_take s'.offset s'.bytes (written s) vs a.written_is)

-- The stream with its cursor back at `n`.
abbrev pub back_to : ℕ → Bstream → Bstream
back_to n s = (Bstream.setpos s n).1

pub pending-back_to :
    (vs : List ℕ) (s s' : Bstream)
    → IsValid s
    → Appends vs s s'
    → pending (back_to s.offset s') ≡ vs ++ pending s'
unfolding Bstream.setpos
pending-back_to vs s s' v a =
    rw (le→ltb_false s'.len s.offset (omega (arith, a.len_is, v.within)), back_to)
      (appended_at vs s s' v a)

-- A well-formed chain of fewer than 65536 triples for which there is room is written, and read back
-- from where it was written by aim_readtlvchain_num with its number of triples, which fu16_t holds:
-- the same triples in the reverse order.
pub readtlvchain_num-writetlvchain :
    (s : Bstream) (l : List Tlv)
    → IsValid s
    → IsChain l
    → counttlvchain l < 2 ^ 16
    → sizetlvchain l ≤ Bstream.empty s
    → (readtlvchain_num (back_to s.offset (writetlvchain s l).1) (counttlvchain l)).0 ≡ reverse l
readtlvchain_num-writetlvchain s l v h c f = elim (writetlvchain_lem s l v h) [
  | inl (_, _, a) ↦ delivered (
      readtlvchain_num-encode _ l _ (setpos-IsValid _ s.offset a.valid) h
        (pending-back_to (encode l) s _ v a) c)
  | inr (short, _) ↦ absurd (omega (arith, short, f))
]
  where
    delivered :
        {r : List ℕ} {o : List Tlv × Bstream} → Delivers (reverse l) r (some o) → o.0 ≡ reverse l
    delivered (s', e, _, _) = cc

-- Two well-formed chains with the same bytes are the same chain.
pub encode-injective : (l m : List Tlv) → IsChain l → IsChain m → encode l ≡ encode m → l ≡ m
encode-injective [] [] h k e = refl
encode-injective [] (t ∷ m) h k e =
    absurd
      (omega (arith, ap length e, length-append (encode_tlv t) (encode m), length-encode_tlv t k.0))
encode-injective (t ∷ l) [] h k e =
    absurd
      (omega (arith, ap length e, length-append (encode_tlv t) (encode l), length-encode_tlv t h.0))
encode-injective (t ∷ l) (u ∷ m) h k e =
    let taken : ◌≡◌ {A = Option Tlv × List ℕ} (some t, encode l) (some u, encode m) =
      sym (take_tlv-encode t (encode l) h.0) ∙ ap take_tlv e ∙ take_tlv-encode u (encode m) k.0 in
    let rest : encode l ≡ encode m = ap (λ p. p.1) taken in
    let head : some t ≡ some u = ap (λ p. p.0) taken in
    let same : t ≡ u = cc in ap₂ ◌∷◌ same (encode-injective l m h.1 k.1 rest)
