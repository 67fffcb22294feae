-- ===== src/Coding/Base16.antt =====
-- util.c: frombase16 undoes tobase16, whatever the case of the letters.
use irssi_icq.Base.{
  ℕ, suc, ◌*◌, ◌/◌, ◌%◌, ◌≡◌, refl, ◌==◌, ◌&&◌, List, [], ◌∷◌, true, arith, All, length,
  if◌then◌else◌, ◌≢◌, some, leb, ap₂, ◌∙◌, ap, ◌-◌,
}
use irssi_icq.Base.Bits.{holds, equal_at}
use irssi_icq.Word.RoundTrip.{IsByte}
use irssi_icq.Coding.{hex_digit, hex_digits, tobase16, is_digit, accumulate, from_pairs, frombase16}

-- A text with capital letters in place of `a` to `f`.
unfoldable pub capitals : List ℕ → List ℕ
capitals [] = []
capitals (c ∷ cs) = (if leb b'a' c && leb c b'f' then c - 32 else c) ∷ capitals cs

abbrev pair_value : ℕ → ℕ → ℕ
pair_value c c' = accumulate (accumulate 0 c * 16) c' % 256

pair_table : holds (λ x. pair_value (hex_digit (x % 256 / 16)) (hex_digit (x % 16)) == x) 256 ≡ true
unfolding holds hex_digit accumulate is_digit
pair_table = refl

abbrev capital : ℕ → ℕ
capital c = if leb b'a' c && leb c b'f' then c - 32 else c

capital_table :
    holds
      (λ x. pair_value (capital (hex_digit (x % 256 / 16))) (capital (hex_digit (x % 16))) == x)
      256
    ≡ true
unfolding holds hex_digit accumulate is_digit
capital_table = refl

from_pairs-hex_digits : (bytes : List ℕ) → All IsByte bytes → from_pairs (hex_digits bytes) ≡ bytes
unfolding from_pairs hex_digits
from_pairs-hex_digits [] h = refl
from_pairs-hex_digits (x ∷ xs) (hx, h) =
    ap₂ ◌∷◌ (equal_at _ (λ x. x) 256 pair_table x hx) (from_pairs-hex_digits xs h)

from_pairs-capitals :
    (bytes : List ℕ) → All IsByte bytes → from_pairs (capitals (hex_digits bytes)) ≡ bytes
unfolding from_pairs hex_digits capitals
from_pairs-capitals [] h = refl
from_pairs-capitals (x ∷ xs) (hx, h) =
    ap₂ ◌∷◌ (equal_at _ (λ x. x) 256 capital_table x hx) (from_pairs-capitals xs h)

length-hex_digits : (bytes : List ℕ) → length (hex_digits bytes) ≡ length bytes * 2
unfolding hex_digits
length-hex_digits [] = refl
length-hex_digits (x ∷ xs) = omega (arith, length-hex_digits xs)

length-capitals : (text : List ℕ) → length (capitals text) ≡ length text
unfolding capitals
length-capitals [] = refl
length-capitals (c ∷ cs) = ap suc (length-capitals cs)

-- A text of a positive even length is read.
frombase16-even :
    (text : List ℕ) (n : ℕ) → length text ≡ suc n * 2 → frombase16 text ≡ some (from_pairs text)
unfolding frombase16
frombase16-even text n e = ground (arith, e)

-- The base 16 of one byte or more is a text of twice the length, and frombase16 reads the same bytes back from it,
-- also when its letters are capitals.
pub frombase16-tobase16 :
    (bytes : List ℕ)
    → All IsByte bytes
    → bytes ≢ []
    → (text : List ℕ) × (tobase16 bytes ≡ some text)
      × (length text ≡ length bytes * 2)
      × (frombase16 text ≡ some bytes)
      × (frombase16 (capitals text) ≡ some bytes)
unfolding tobase16
frombase16-tobase16 [] h ne = absurd (ne refl)
frombase16-tobase16 (x ∷ xs) h ne =
    let e = length-hex_digits (x ∷ xs) in
    (
      hex_digits (x ∷ xs),
      refl,
      e,
      frombase16-even _ (length xs) e ∙ ap some (from_pairs-hex_digits (x ∷ xs) h),
      frombase16-even _ (length xs) (length-capitals _ ∙ e)
          ∙ ap some (from_pairs-capitals (x ∷ xs) h),
    )
