-- ===== src/Tlv/Edit.antt =====
-- tlv.c: building, copying and comparing chains in memory.
use irssi_icq.Base.{
  ℕ, [], ◌∷◌, List, length, ◌≡◌, take, ◌++◌, sym, ap, append-nil, refl, if◌then◌else◌, All, ◌∙◌,
  ◌==◌, ◌↔◌, append_assoc, arith, ◌≤◌, not, inl, Bool-cases, ==_iff, bytes_eq, inr, suc,
  bytes_eq→eq, zero, bytes_eq_refl, ◌<◌, ◌^◌, ◌⊎◌, ◌%◌,
}
use irssi_icq.Bstream
use irssi_icq.Bstream.{Bstream}
use irssi_icq.Bstream.View.{IsValid, length-written, init-IsValid}
use irssi_icq.Word
use irssi_icq.Word.RoundTrip.{IsByte, length-put8, length-put16, length-put32}
use irssi_icq.Tlv.{
  Tlv, sizetlvchain, append_tlv, addtlvtochain_raw, addtlvtochain8, addtlvtochain16,
  addtlvtochain32, addtlvtochain_noval, copy_loop, tlvlist_copy, tlvlist_cmp, writetlvchain,
  addtlvtochain_frozentlvlist,
}
use irssi_icq.Tlv.Format.{IsChain, encode, length-encode}
use irssi_icq.Tlv.Write.{writetlvchain_lem}
use irssi_icq.Tlv.RoundTrip.{encode-injective}

append_tlv_lem : (l : List Tlv) (t : Tlv) → append_tlv l t ≡ l ++ (t ∷ [])
unfolding append_tlv
append_tlv_lem [] t = refl
append_tlv_lem (x ∷ l) t = ap (◌∷◌ x) (append_tlv_lem l t)

pub take_whole {ℓ} : {A : Type ℓ} (n : ℕ) (l : List A) → length l ≤ n → take n l ≡ l
take_whole zero [] h = refl
take_whole zero (x ∷ l) h = absurd (omega arith)
take_whole (suc n) [] h = refl
take_whole (suc n) (x ∷ l) h = ap (◌∷◌ x) (take_whole n l (omega arith))

stored_value : (n : ℕ) (v : List ℕ) → length v ≡ n → (if n == 0 then [] else take n v) ≡ v
stored_value n [] h = ground arith
stored_value n (x ∷ v) h = ground (arith, take_whole n (x ∷ v) (omega arith))

-- A value of the length it is added with goes behind the chain, whole.
pub addtlvtochain_raw_lem :
    (l : List Tlv) (t n : ℕ) (v : List ℕ)
    → length v ≡ n
    → addtlvtochain_raw l t n v ≡ (n, l ++ (record { type = t; len = n; value = v } ∷ []))
unfolding addtlvtochain_raw
addtlvtochain_raw_lem l t n v h = rw append_tlv_lem (
    ap (λ (x : List ℕ). (n, l ++ (record { type = t; len = n; value = x } ∷ [])))
      (stored_value n v h))

copy_loop_lem : (new l : List Tlv) → IsChain l → copy_loop new l ≡ new ++ l
copy_loop_lem new [] h = unfold copy_loop in sym (append-nil new)
copy_loop_lem new (t ∷ l) h =
    copied ∙ copy_loop_lem (new ++ (t ∷ [])) l h.1 ∙ append_assoc new (t ∷ []) l
  where
    copied : copy_loop new (t ∷ l) ≡ copy_loop (new ++ (t ∷ [])) l
    copied =
        unfold copy_loop in
        ap (λ p. copy_loop p.1 l) (addtlvtochain_raw_lem new t.type t.len t.value h.0.sized)

-- aim_tlvlist_copy gives an equal chain.
pub tlvlist_copy_lem : (l : List Tlv) → IsChain l → tlvlist_copy l ≡ l
unfolding tlvlist_copy
tlvlist_copy_lem l h = copy_loop_lem [] l h

-- Each of the adding functions puts one triple behind the chain and returns the length of its value:
-- one byte, two or four with the number in network byte order, or none.
pub addtlvtochain_lem :
    (l : List Tlv) (t v : ℕ)
    → (addtlvtochain8 l t v ≡ (1, l ++ (record { type = t; len = 1; value = Word.put8 v } ∷ [])))
      × (addtlvtochain16 l t v
          ≡ (2, l ++ (record { type = t; len = 2; value = Word.put16 v } ∷ [])))
      × (addtlvtochain32 l t v
          ≡ (4, l ++ (record { type = t; len = 4; value = Word.put32 v } ∷ [])))
      × (addtlvtochain_noval l t ≡ (0, l ++ (record { type = t; len = 0; value = [] } ∷ [])))
unfolding addtlvtochain8 addtlvtochain16 addtlvtochain32 addtlvtochain_noval
addtlvtochain_lem l t v = (
  addtlvtochain_raw_lem l t 1 _ (length-put8 v),
  addtlvtochain_raw_lem l t 2 _ (length-put16 v),
  addtlvtochain_raw_lem l t 4 _ (length-put32 v),
  addtlvtochain_raw_lem l t 0 _ refl,
)

-- What `malloc` gives, as a stream, once a chain was written to it.
filled :
    (buf : List ℕ) (l : List Tlv)
    → IsChain l
    → All IsByte buf
    → length buf ≡ sizetlvchain l
    → let bs = (writetlvchain (Bstream.init buf (sizetlvchain l)) l).1 in
      (bs.bytes ≡ encode l) × (bs.len ≡ sizetlvchain l) × (bs.offset ≡ sizetlvchain l)
unfolding Bstream.init Bstream.empty
filled buf l h hb e =
    let s = Bstream.init buf (sizetlvchain l) in
    let v : IsValid s = rw e at (init-IsValid buf hb) in
    elim (writetlvchain_lem s l v h) [
      | inl (_, _, a) ↦
          let s' = (writetlvchain s l).1 in
          let at_end : s'.offset ≡ sizetlvchain l =
            omega (arith, ap length a.written_is, length-encode l h, length-written s' a.valid) in
          let whole : take s'.offset s'.bytes ≡ s'.bytes =
            take_whole s'.offset s'.bytes (omega (arith, at_end, a.valid.sized, a.len_is)) in
          (sym whole ∙ a.written_is, a.len_is, at_end)
      | inr (short, _) ↦ absurd (omega (arith, short))
    ]

cmp_bytes :
    (buf1 buf2 : List ℕ) (l m : List Tlv)
    → IsChain l
    → IsChain m
    → All IsByte buf1
    → All IsByte buf2
    → length buf1 ≡ sizetlvchain l
    → length buf2 ≡ sizetlvchain m
    → sizetlvchain l ≡ sizetlvchain m
    → tlvlist_cmp buf1 buf2 l m ≡ (if not (bytes_eq (encode l) (encode m)) then 1 else 0)
unfolding tlvlist_cmp
cmp_bytes buf1 buf2 l m h k b1 b2 e1 e2 same =
    let (x1, n1, _) = filled buf1 l h b1 e1 in
    let (x2, _, _) = filled buf2 m k b2 e2 in
    rw ((==_iff (sizetlvchain l) (sizetlvchain m)).1 same, tlvlist_cmp)
      (rw
        (
          x1,
          n1,
          x2,
          take_whole (sizetlvchain l) (encode l) (omega (arith, length-encode l h)),
          take_whole (sizetlvchain l) (encode m) (omega (arith, length-encode m k, same)),
        )
        refl)

-- On well-formed chains aim_tlvlist_cmp returns 0 exactly when the chains are equal, whatever the
-- buffers that `malloc` returns hold.
pub tlvlist_cmp_iff :
    (buf1 buf2 : List ℕ) (l m : List Tlv)
    → IsChain l
    → IsChain m
    → All IsByte buf1
    → All IsByte buf2
    → length buf1 ≡ sizetlvchain l
    → length buf2 ≡ sizetlvchain m
    → (tlvlist_cmp buf1 buf2 l m ≡ 0) ↔ (l ≡ m)
unfolding tlvlist_cmp
tlvlist_cmp_iff buf1 buf2 l m h k b1 b2 e1 e2 = (
  λ zero_cmp. elim (Bool-cases (sizetlvchain l == sizetlvchain m)) [
    | inl same ↦
        let e = sym (cmp_bytes buf1 buf2 l m h k b1 b2 e1 e2 ((==_iff _ _).0 same)) ∙ zero_cmp in
        encode-injective l m h k (ground (arith, bytes_eq→eq (encode l) (encode m)))
    | inr other ↦ absurd (ground arith)
  ],
  λ e. cmp_bytes buf1 buf2 l m h k b1 b2 e1 e2 (ap sizetlvchain e) ∙ rw e (rw bytes_eq_refl refl),
)

-- aim_addtlvtochain_frozentlvlist puts one triple behind the chain whose value is the bytes of a
-- well-formed inner chain, if that chain is not empty and a 16-bit length can hold its size; for an
-- empty inner chain it returns 0 and changes nothing.
pub addtlvtochain_frozentlvlist_lem :
    (buf : List ℕ) (l : List Tlv) (type : ℕ) (tl : List Tlv)
    → IsChain tl
    → All IsByte buf
    → length buf ≡ sizetlvchain tl
    → sizetlvchain tl < 2 ^ 16
    → ((sizetlvchain tl ≡ 0) × (addtlvtochain_frozentlvlist buf l type tl ≡ (0, l)))
      ⊎ ((0 < sizetlvchain tl)
          × (addtlvtochain_frozentlvlist buf l type tl ≡ (
            sizetlvchain tl,
            l ++ (record { type = type; len = sizetlvchain tl; value = encode tl } ∷ []),
          )))
unfolding addtlvtochain_frozentlvlist Bstream.curpos
addtlvtochain_frozentlvlist_lem buf l type tl h hb e small =
    elim (Bool-cases (sizetlvchain tl == 0)) [
      | inl empty_chain ↦ rw empty_chain (inl ((==_iff _ 0).0 empty_chain, refl))
      | inr full ↦
          let (x, _, p) = filled buf tl h hb e in
          let fits : sizetlvchain tl % 2 ^ 16 ≡ sizetlvchain tl = omega arith in
          let added =
            addtlvtochain_raw_lem l type (sizetlvchain tl) (encode tl) (length-encode tl h) in
          inr (ground arith, rw (full, addtlvtochain_frozentlvlist) (rw (x, p, fits, added) refl))
    ]
