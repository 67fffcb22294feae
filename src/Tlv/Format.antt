-- ===== src/Tlv/Format.antt =====
-- The bytes of a chain, and what parses them: the format that tlv.c reads and writes.
use irssi_icq.Base.{
  ap₂, ◌*◌, length-take, take-append-drop, ℕ, ◌+◌, ◌*◌, ◌^◌, ◌≤◌, ◌<◌, ◌≡◌, refl, ap, List, [], ◌∷◌,
  ◌++◌, arith, length, take, drop, All, Option, none, some, false, ltb, if◌then◌else◌,
  length-append, append_assoc, take-length-append, drop-length-append, le→ltb_false, All-append,
}
use irssi_icq.Base.Patch.{All-take}
use irssi_icq.Word
use irssi_icq.Word.RoundTrip.{IsByte, length-put16, put16-IsByte}
use irssi_icq.Bstream.Read.{take16}
use irssi_icq.Tlv.{Tlv, sizetlvchain}

-- What the types of the C fields and the allocation of the value give.
pub record IsTlv (t : Tlv) : Type 0 where
  pub type_fits : t.type < 2 ^ 16
  pub len_fits : t.len < 2 ^ 16
  pub sized : length t.value ≡ t.len
  pub bounded : All IsByte t.value

abbrev pub IsChain : List Tlv → Type 0
IsChain l = All IsTlv l

abbrev pub encode_tlv : Tlv → List ℕ
encode_tlv t = Word.put16 t.type ++ (Word.put16 t.len ++ t.value)

abbrev pub encode : List Tlv → List ℕ
encode [] = []
encode (t ∷ l) = encode_tlv t ++ encode l

pub length-encode_tlv : (t : Tlv) → IsTlv t → length (encode_tlv t) ≡ 4 + t.len
length-encode_tlv t h = omega (
  arith,
  length-append (Word.put16 t.type) (Word.put16 t.len ++ t.value),
  length-append (Word.put16 t.len) t.value,
  length-put16 t.type,
  length-put16 t.len,
  h.sized,
)

pub length-encode : (l : List Tlv) → IsChain l → length (encode l) ≡ sizetlvchain l
unfolding sizetlvchain
length-encode [] h = refl
length-encode (t ∷ l) h =
    omega
      (arith, length-append (encode_tlv t) (encode l), length-encode_tlv t h.0, length-encode l h.1)

pub encode_tlv-IsByte : (t : Tlv) → IsTlv t → All IsByte (encode_tlv t)
encode_tlv-IsByte t h =
    All-append IsByte (Word.put16 t.type) _ (put16-IsByte t.type)
      (All-append IsByte (Word.put16 t.len) t.value (put16-IsByte t.len) h.bounded)

pub encode-IsByte : (l : List Tlv) → IsChain l → All IsByte (encode l)
encode-IsByte [] h = tt
encode-IsByte (t ∷ l) h =
    All-append IsByte (encode_tlv t) (encode l) (encode_tlv-IsByte t h.0) (encode-IsByte l h.1)

-- One triple from the front of a list of bytes.
abbrev pub take_value : ℕ → ℕ → List ℕ → Option Tlv × List ℕ
take_value type n l =
    if ltb (length l) n
    then (none, l)
    else (some (record { type = type; len = n; value = take n l }), drop n l)

abbrev pub take_tlv : List ℕ → Option Tlv × List ℕ
take_tlv l = let (type, l1) = take16 l in let (n, l2) = take16 l1 in take_value type n l2

pub take16-put16 : (v : ℕ) (r : List ℕ) → v < 2 ^ 16 → take16 (Word.put16 v ++ r) ≡ (v, r)
unfolding Word.put16
take16-put16 v r h = ap {B = ℕ × List ℕ} (λ x. (x, r)) (omega arith)

-- The format is read back.
pub take_tlv-encode : (t : Tlv) (r : List ℕ) → IsTlv t → take_tlv (encode_tlv t ++ r) ≡ (some t, r)
take_tlv-encode t r h =
    rw
      (
        append_assoc,
        append_assoc,
        take16-put16 t.type _ h.type_fits,
        take16-put16 t.len _ h.len_fits,
      )
      (rw (not_short, ← h.sized) (rw (take-length-append, drop-length-append)))
  where
    not_short : ltb (length (t.value ++ r)) t.len ≡ false
    not_short = le→ltb_false _ _ (omega (arith, length-append t.value r, h.sized))

-- Bytes make up a number that is written back as these bytes.
put16-bytes : (a b : ℕ) → a < 256 → b < 256 → Word.put16 (a * 256 + b) ≡ a ∷ b ∷ []
unfolding Word.put16
put16-bytes a b ha hb = ap₂ (λ (x y : ℕ). x ∷ y ∷ []) (omega arith) (omega arith)

-- What is parsed from four bytes on is a triple, and printing it gives the bytes back.
pub take_value_sound :
    (a b c d : ℕ) (l : List ℕ)
    → All IsByte (a ∷ b ∷ c ∷ d ∷ l)
    → c * 256 + d ≤ length l
    → (t : Tlv) × (take_tlv (a ∷ b ∷ c ∷ d ∷ l) ≡ (some t, drop t.len l))
      × IsTlv t
      × (a ∷ b ∷ c ∷ d ∷ l ≡ encode_tlv t ++ drop t.len l)
take_value_sound a b c d l h fits = (
  parsed,
  rw (le→ltb_false (length l) (c * 256 + d) fits),
  record {
    type_fits = omega (arith, h.0, h.1.0);
    len_fits = omega (arith, h.1.1.0, h.1.1.1.0);
    sized = omega (arith, length-take (c * 256 + d) l);
    bounded = All-take IsByte (c * 256 + d) l h.1.1.1.1;
  },
  rw (put16-bytes a b h.0 h.1.0, put16-bytes c d h.1.1.0 h.1.1.1.0, take-append-drop),
)
  where
    parsed : Tlv
    parsed = record { type = a * 256 + b; len = c * 256 + d; value = take (c * 256 + d) l }
