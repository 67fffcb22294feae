-- ===== src/Coding/Base64.antt =====
-- util.c: frombase64 undoes tobase64, and the room that tobase64 asks for.
use irssi_icq.Base.{
  ℕ, ◌+◌, ◌*◌, ◌/◌, ◌%◌, ◌^◌, ◌<◌, ◌≡◌, refl, ◌==◌, ◌&&◌, ◌||◌, not, List, [], ◌∷◌, true, false,
  arith, All, length, if◌then◌else◌, ◌≢◌, ◌∙◌, sym, Bool-cases, ◌≤◌, ap, inl, inr,
}
use irssi_icq.Base.Bits.{holds, holds_below, equal_at, bit_or-fields}
use irssi_icq.Word.RoundTrip.{IsByte}
use irssi_icq.Coding.{
  alphabet, letter, second, third, tobase64, tobase64_size, letter_value, padded, from_loop,
  frombase64,
}
use Prim.Native.Nat.{bit_and, bit_or}

-- The masks, as arithmetic.
mask_second : (x : ℕ) → x < 256 → bit_and (x * 16) 0x30 ≡ x % 4 * 16
unfolding holds
mask_second = equal_at _ _ 256 refl

mask_third : (x : ℕ) → x < 256 → bit_and (x * 4) 0x3c ≡ x % 16 * 4
unfolding holds
mask_third = equal_at _ _ 256 refl

mask_fourth : (x : ℕ) → x < 256 → bit_and x 0x3f ≡ x % 64
unfolding holds
mask_fourth = equal_at _ _ 256 refl

second_lem : (x y : ℕ) → x < 256 → y < 256 → second x y ≡ x % 4 * 16 + y / 16
unfolding second
second_lem x y hx hy = ground (arith, mask_second x, bit_or-fields 4 (x % 4) (y / 16) (omega arith))

third_lem : (x y : ℕ) → x < 256 → y < 256 → third x y ≡ x % 16 * 4 + y / 64
unfolding third
third_lem x y hx hy = ground (arith, mask_third x, bit_or-fields 2 (x % 16) (y / 64) (omega arith))

-- The decoder's tests at a letter of the alphabet.
letter_table :
    (tmp : ℕ)
    → holds
        (λ i.
          not (letter i == 13 || letter i == 10)
          && (not (letter i == b'=') && letter_value tmp (letter i) == i))
        64
      ≡ true
unfolding holds letter letter_value alphabet
letter_table tmp = refl

letter-plain : (i : ℕ) → i < 64 → (letter i == 13 || letter i == 10) ≡ false
letter-plain i h = ground (arith, holds_below _ 64 (letter_table 0) i h)

letter-unpadded : (i : ℕ) → i < 64 → (letter i == b'=') ≡ false
letter-unpadded i h = ground (arith, holds_below _ 64 (letter_table 0) i h)

letter_value-letter : (tmp i : ℕ) → i < 64 → letter_value tmp (letter i) ≡ i
letter_value-letter tmp i h = ground (arith, holds_below _ 64 (letter_table tmp) i h)

-- A round of the decoder at a letter.
module _ (tmp tmp2 i : ℕ) (cs : List ℕ) (h : i < 64) where
  from_loop-next :
      (n : ℕ)
      → (n + 1 == 4) ≡ false
      → from_loop tmp tmp2 n (letter i ∷ cs) ≡ from_loop i (tmp2 * 64 + i) (n + 1) cs
  unfolding from_loop
  from_loop-next n e = ground (
    arith,
    letter-plain i h,
    letter-unpadded i h,
    letter_value-letter tmp i h,
    bit_or-fields 6 tmp2 i (omega arith),
    e,
  )

  from_loop-fourth :
      from_loop tmp tmp2 3 (letter i ∷ cs)
      ≡ ((tmp2 * 64 + i) / 2 ^ 16 % 256)
        ∷ ((tmp2 * 64 + i) / 2 ^ 8 % 256)
        ∷ ((tmp2 * 64 + i) % 256)
        ∷ from_loop i 0 0 cs
  unfolding from_loop
  from_loop-fourth = ground (
    arith,
    letter-plain i h,
    letter-unpadded i h,
    letter_value-letter tmp i h,
    bit_or-fields 6 tmp2 i (omega arith),
  )

from_loop-pad : (tmp tmp2 n : ℕ) (cs : List ℕ) → from_loop tmp tmp2 n (b'=' ∷ cs) ≡ padded tmp2 n
unfolding from_loop
from_loop-pad tmp tmp2 n cs = refl

-- Four letters are three bytes.
from_loop-four :
    (tmp i j k l : ℕ) (cs : List ℕ)
    → i < 64
    → j < 64
    → k < 64
    → l < 64
    → from_loop tmp 0 0 (letter i ∷ letter j ∷ letter k ∷ letter l ∷ cs)
      ≡ (i * 4 + j / 16) ∷ (j % 16 * 16 + k / 4) ∷ (k % 4 * 64 + l) ∷ from_loop l 0 0 cs
from_loop-four tmp i j k l cs hi hj hk hl = ground (
  arith,
  from_loop-next tmp 0 i (letter j ∷ letter k ∷ letter l ∷ cs) hi 0 refl,
  from_loop-next i (0 * 64 + i) j (letter k ∷ letter l ∷ cs) hj 1 refl,
  from_loop-next j ((0 * 64 + i) * 64 + j) k (letter l ∷ cs) hk 2 refl,
  from_loop-fourth k (((0 * 64 + i) * 64 + j) * 64 + k) l cs hl,
)

from_loop-three :
    (tmp i j k : ℕ) (cs : List ℕ)
    → i < 64
    → j < 64
    → k < 64
    → from_loop tmp 0 0 (letter i ∷ letter j ∷ letter k ∷ b'=' ∷ cs)
      ≡ (i * 4 + j / 16) ∷ (j % 16 * 16 + k / 4) ∷ []
unfolding padded
from_loop-three tmp i j k cs hi hj hk = ground (
  arith,
  from_loop-next tmp 0 i (letter j ∷ letter k ∷ b'=' ∷ cs) hi 0 refl,
  from_loop-next i (0 * 64 + i) j (letter k ∷ b'=' ∷ cs) hj 1 refl,
  from_loop-next j ((0 * 64 + i) * 64 + j) k (b'=' ∷ cs) hk 2 refl,
  from_loop-pad k (((0 * 64 + i) * 64 + j) * 64 + k) 3 cs,
)

from_loop-two :
    (tmp i j : ℕ) (cs : List ℕ)
    → i < 64
    → j < 64
    → from_loop tmp 0 0 (letter i ∷ letter j ∷ b'=' ∷ cs) ≡ (i * 4 + j / 16) ∷ []
unfolding padded
from_loop-two tmp i j cs hi hj = ground (
  arith,
  from_loop-next tmp 0 i (letter j ∷ b'=' ∷ cs) hi 0 refl,
  from_loop-next i (0 * 64 + i) j (b'=' ∷ cs) hj 1 refl,
  from_loop-pad j ((0 * 64 + i) * 64 + j) 2 cs,
)

-- A group of the encoder, as the decoder reads it.
module _ (tmp x y z : ℕ) (cs : List ℕ) (hx : x < 256) (hy : y < 256) (hz : z < 256) where
  same_bytes :
      (x / 4 * 4 + (x % 4 * 16 + y / 16) / 16)
        ∷ ((x % 4 * 16 + y / 16) % 16 * 16 + (y % 16 * 4 + z / 64) / 4)
        ∷ ((y % 16 * 4 + z / 64) % 4 * 64 + z % 64)
        ∷ from_loop (z % 64) 0 0 cs
      ≡ x ∷ y ∷ z ∷ from_loop (z % 64) 0 0 cs
  same_bytes = λ i. p i ∷ q i ∷ r i ∷ from_loop (z % 64) 0 0 cs
    where
      p : x / 4 * 4 + (x % 4 * 16 + y / 16) / 16 ≡ x
      p = omega arith

      q : (x % 4 * 16 + y / 16) % 16 * 16 + (y % 16 * 4 + z / 64) / 4 ≡ y
      q = omega arith

      r : (y % 16 * 4 + z / 64) % 4 * 64 + z % 64 ≡ z
      r = omega arith

  from_loop-group :
      from_loop tmp 0 0
        (letter (x / 4) ∷ letter (second x y) ∷ letter (third y z) ∷ letter (bit_and z 0x3f) ∷ cs)
      ≡ x ∷ y ∷ z ∷ from_loop (z % 64) 0 0 cs
  from_loop-group =
      rw (second_lem x y hx hy, third_lem y z hy hz, mask_fourth z hz)
        (from_loop-four tmp (x / 4) (x % 4 * 16 + y / 16) (y % 16 * 4 + z / 64) (z % 64) cs
            (omega arith) (omega arith) (omega arith) (omega arith)
          ∙ same_bytes)

from_loop-tobase64 :
    (tmp : ℕ) (bytes : List ℕ) → All IsByte bytes → from_loop tmp 0 0 (tobase64 bytes) ≡ bytes
unfolding tobase64 from_loop
from_loop-tobase64 tmp [] h = refl
from_loop-tobase64 tmp (x ∷ []) h = ground (
  arith,
  mask_second x,
  from_loop-two tmp (x / 4) (x % 4 * 16) (b'=' ∷ []) (omega arith) (omega arith),
)
from_loop-tobase64 tmp (x ∷ y ∷ []) h = ground (
  arith,
  second_lem x y,
  mask_third y,
  from_loop-three tmp (x / 4) (x % 4 * 16 + y / 16) (y % 16 * 4) [] (omega arith) (omega arith)
      (omega arith),
)
from_loop-tobase64 tmp (x ∷ y ∷ z ∷ rest) (hx, (hy, (hz, h))) =
    from_loop-group tmp x y z (tobase64 rest) hx hy hz
    ∙ ap (λ t. x ∷ y ∷ z ∷ t) (from_loop-tobase64 (z % 64) rest h)

-- A text without its line breaks.
unfoldable pub unwrapped : List ℕ → List ℕ
unwrapped [] = []
unwrapped (c ∷ cs) = if c == 13 || c == 10 then unwrapped cs else c ∷ unwrapped cs

from_loop-unwrapped :
    (tmp tmp2 n : ℕ) (text : List ℕ)
    → from_loop tmp tmp2 n (unwrapped text) ≡ from_loop tmp tmp2 n text
unfolding from_loop unwrapped
from_loop-unwrapped tmp tmp2 n [] = refl
from_loop-unwrapped tmp tmp2 n (c ∷ cs) = elim (Bool-cases (c == 13 || c == 10)) [
  | inl e ↦ ground (arith, e, from_loop-unwrapped tmp tmp2 n cs)
  | inr e ↦ ground (
    arith,
    e,
    from_loop-unwrapped (letter_value tmp c) 0 0 cs,
    from_loop-unwrapped (letter_value tmp c) (bit_or (tmp2 * 64) (letter_value tmp c)) (n + 1) cs,
  )
]

-- Each text that is, apart from line breaks, the base 64 of some bytes decodes to these bytes.
pub frombase64-tobase64 :
    (text bytes : List ℕ)
    → All IsByte bytes
    → unwrapped text ≡ tobase64 bytes
    → frombase64 text ≡ bytes
unfolding frombase64
frombase64-tobase64 text bytes h e =
    sym (from_loop-unwrapped 0 0 0 text) ∙ ap (from_loop 0 0 0) e ∙ from_loop-tobase64 0 bytes h

pub length-tobase64 : (bytes : List ℕ) → length (tobase64 bytes) ≡ (length bytes + 2) / 3 * 4
unfolding tobase64
length-tobase64 [] = refl
length-tobase64 (x ∷ []) = refl
length-tobase64 (x ∷ y ∷ []) = refl
length-tobase64 (x ∷ y ∷ z ∷ rest) = omega (arith, length-tobase64 rest)

-- The letters and the NUL of the base 64 of some bytes need more room than tobase64 allocates, by two bytes, when
-- the number of bytes is 1 above a multiple of 3, and fit otherwise.
pub tobase64_size-overflows :
    (bytes : List ℕ)
    → (length bytes % 3 ≡ 1 → length (tobase64 bytes) + 1 ≡ tobase64_size (length bytes) + 2)
      × (length bytes % 3 ≢ 1 → length (tobase64 bytes) + 1 ≤ tobase64_size (length bytes))
unfolding tobase64_size
tobase64_size-overflows bytes =
    let e = length-tobase64 bytes in (λ h. omega (arith, e, h), λ h. omega (arith, e, h))
