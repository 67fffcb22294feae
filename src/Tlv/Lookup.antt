-- ===== src/Tlv/Lookup.antt =====
-- tlv.c: the functions aim_gettlv*.
use irssi_icq.Base.{
  ℕ, [], ◌∷◌, List, ◌+◌, if◌then◌else◌, ◌≡◌, ◌==◌, get_elem?, refl, some, ◌++◌, arith, ◌∙◌, suc,
  ◌%◌, zero, ◌^◌, ap, sym, append-nil, ◌≤◌, length, le→ltb_false, subst, Option-cases, Bool-cases,
  inl, inr,
}
use mathlib.Core.Option
use irssi_icq.Word
use irssi_icq.Word.RoundTrip.{length-put8, length-put16, length-put32}
use irssi_icq.Tlv.{
  Tlv, gettlv_loop, gettlv, gettlv_str, gettlv8, gettlv16, gettlv32, addtlvtochain8,
  addtlvtochain16, addtlvtochain32,
}
use irssi_icq.Tlv.Format.{IsTlv, IsChain}
use irssi_icq.Tlv.Edit.{addtlvtochain_lem, take_whole}

-- The triples of a type, in the order of the chain.
abbrev pub of_type : ℕ → List Tlv → List Tlv
of_type t [] = []
of_type t (cur ∷ rest) = if cur.type == t then cur ∷ of_type t rest else of_type t rest

gettlv_loop_lem :
    (l : List Tlv) (i t k n : ℕ) → n ≡ i + 1 + k → gettlv_loop i l t n ≡ get_elem? (of_type t l) k
unfolding gettlv_loop
gettlv_loop_lem [] i t k n e = refl
gettlv_loop_lem (cur ∷ l) i t zero n e = ground (arith, gettlv_loop_lem l i t zero n)
gettlv_loop_lem (cur ∷ l) i t (suc k) n e =
    ground (arith, gettlv_loop_lem l i t (suc k) n, gettlv_loop_lem l (i + 1) t k n)

-- Counted from 1, the `n`th triple of a type is what aim_gettlv returns, and NULL where the chain
-- has fewer of them.
pub gettlv_lem : (l : List Tlv) (t n : ℕ) → gettlv l t (n + 1) ≡ get_elem? (of_type t l) n
unfolding gettlv
gettlv_lem l t n = gettlv_loop_lem l 0 t n (n + 1) (omega arith)

of_type-append : (t : ℕ) (l m : List Tlv) → of_type t (l ++ m) ≡ of_type t l ++ of_type t m
of_type-append t [] m = refl
of_type-append t (x ∷ l) m = ground (arith, of_type-append t l m)

-- A triple that was put behind a chain with none of its type is the first of its type.
gettlv_added :
    (l : List Tlv) (t n : ℕ) (v : List ℕ)
    → of_type t l ≡ []
    → gettlv (l ++ (record { type = t; len = n; value = v } ∷ [])) t 1
      ≡ some (record { type = t; len = n; value = v })
gettlv_added l t n v h = gettlv_lem _ t 0 ∙ rw (of_type-append, h) (ground arith)

module _ (l : List Tlv) (t n : ℕ) {tlv : Tlv} (e : gettlv l t n ≡ some tlv) where
  gettlv8_found : 1 ≤ length tlv.value → gettlv8 l t n ≡ some (Word.get8 tlv.value 0)
  unfolding gettlv8
  gettlv8_found h = rw (e, gettlv8) (rw (le→ltb_false (length tlv.value) 1 h) refl)

  gettlv16_found : 2 ≤ length tlv.value → gettlv16 l t n ≡ some (Word.get16 tlv.value 0)
  unfolding gettlv16
  gettlv16_found h = rw (e, gettlv16) (rw (le→ltb_false (length tlv.value) 2 h) refl)

  gettlv32_found : 4 ≤ length tlv.value → gettlv32 l t n ≡ some (Word.get32 tlv.value 0)
  unfolding gettlv32
  gettlv32_found h = rw (e, gettlv32) (rw (le→ltb_false (length tlv.value) 4 h) refl)

-- A number that was put behind a chain with no triple of its type is what the getter of its width
-- returns for that type, reduced to that width.
pub gettlv-addtlvtochain :
    (l : List Tlv) (t v : ℕ)
    → of_type t l ≡ []
    → (gettlv8 (addtlvtochain8 l t v).1 t 1 ≡ some (v % 2 ^ 8))
      × (gettlv16 (addtlvtochain16 l t v).1 t 1 ≡ some (v % 2 ^ 16))
      × (gettlv32 (addtlvtochain32 l t v).1 t 1 ≡ some (v % 2 ^ 32))
gettlv-addtlvtochain l t v h =
    let (a8, a16, a32, _) = addtlvtochain_lem l t v in
    (
      rw a8 (
          gettlv8_found _ t 1 (gettlv_added l t 1 (Word.put8 v) h) (omega (arith, length-put8 v))
          ∙ ap some (Word.RoundTrip.get8-put8 0 (Word.put8 v) v [] (sym (append-nil _)))),
      rw a16 (
          gettlv16_found _ t 1 (gettlv_added l t 2 (Word.put16 v) h) (omega (arith, length-put16 v))
          ∙ ap some (Word.RoundTrip.get16-put16 0 (Word.put16 v) v [] (sym (append-nil _)))),
      rw a32 (
          gettlv32_found _ t 1 (gettlv_added l t 4 (Word.put32 v) h) (omega (arith, length-put32 v))
          ∙ ap some (Word.RoundTrip.get32-put32 0 (Word.put32 v) v [] (sym (append-nil _)))),
    )

of_type-IsChain : (t : ℕ) (l : List Tlv) → IsChain l → IsChain (of_type t l)
of_type-IsChain t [] h = tt
of_type-IsChain t (x ∷ l) h = elim (Bool-cases (x.type == t)) [
  | inl hit ↦ rw hit (h.0, of_type-IsChain t l h.1)
  | inr miss ↦ rw miss (of_type-IsChain t l h.1)
]

found-IsTlv : (l : List Tlv) (k : ℕ) (tlv : Tlv) → IsChain l → get_elem? l k ≡ some tlv → IsTlv tlv
found-IsTlv [] k tlv h e = cc
found-IsTlv (x ∷ l) zero tlv h e = let same : x ≡ tlv = cc in subst IsTlv same h.0
found-IsTlv (x ∷ l) (suc k) tlv h e = found-IsTlv l k tlv h.1 e

-- aim_gettlv_str copies the value of a well-formed triple whole and puts a NUL behind it; NULL comes
-- only where there is no such triple.
pub gettlv_str_lem :
    (l : List Tlv) (t n : ℕ)
    → IsChain l
    → gettlv_str l t (n + 1) ≡ Option.map (λ tlv. tlv.value ++ (0 ∷ [])) (get_elem? (of_type t l) n)
unfolding gettlv_str
gettlv_str_lem l t n h = elim (Option-cases (get_elem? (of_type t l) n)) [
  | inl missing ↦ rw (gettlv_lem l t n ∙ missing, gettlv_str) (rw missing)
  | inr (tlv, found) ↦
      rw (gettlv_lem l t n ∙ found, gettlv_str)
        (rw found (
          ap (λ (v : List ℕ). some (v ++ (0 ∷ [])))
            (take_whole tlv.len tlv.value (
              omega
                (arith, (found-IsTlv (of_type t l) n tlv (of_type-IsChain t l h) found).sized)))))
]
