-- ===== src/Coding.antt =====
-- irssi-icq/src/gaimglue/util.c: base 64 and base 16, tobase64, frombase64, tobase16 and frombase16. A text is the
-- list of its characters before the NUL, a pointer is not NULL, and `malloc` succeeds. Characters and bytes are
-- unsigned here; a negative `char` of the source passes none of the tests, and neither does its value plus 256.
pub mod Base64
pub mod Base16
mod Examples
use irssi_icq.Base.{
  ℕ, ◌+◌, ◌-◌, ◌*◌, ◌/◌, ◌%◌, ◌^◌, ◌==◌, List, [], ◌∷◌, ◌++◌, Bool, true, false, ◌&&◌, ◌||◌, Option,
  none, some, leb, if◌then◌else◌, length, get_or,
}
use Prim.Native.Nat.{bit_and, bit_or}
use Prim.Native.String.{String}
use Prim.Native.Char.{code}

abbrev pub codes : String → List ℕ
codes String.[] = []
codes (String.◌∷◌ c s) = code c ∷ codes s

unfoldable pub alphabet : List ℕ
alphabet = codes "ABCDEFGHIJKLMNOPQRSTUVWXYZabcdefghijklmnopqrstuvwxyz0123456789+/"

-- `alphabet[i]`
unfoldable pub letter : ℕ → ℕ
letter i = get_or alphabet i 0

-- The bits of two bytes that share a letter: `((x << 4) & 0x30) | (y >> 4)` and
-- `((x << 2) & 0x3c) | (y >> 6)`.
unfoldable pub second : ℕ → ℕ → ℕ
second x y = bit_or (bit_and (x * 16) 0x30) (y / 16)

unfoldable pub third : ℕ → ℕ → ℕ
third x y = bit_or (bit_and (x * 4) 0x3c) (y / 64)

unfoldable pub tobase64 : List ℕ → List ℕ
tobase64 [] = []
tobase64 (x ∷ []) = letter (x / 4) ∷ letter (bit_and (x * 16) 0x30) ∷ b'=' ∷ b'=' ∷ []
tobase64 (x ∷ y ∷ []) =
    letter (x / 4) ∷ letter (second x y) ∷ letter (bit_and (y * 4) 0x3c) ∷ b'=' ∷ []
tobase64 (x ∷ y ∷ z ∷ rest) =
    letter (x / 4)
    ∷ letter (second x y)
    ∷ letter (third y z)
    ∷ letter (bit_and z 0x3f)
    ∷ tobase64 rest

-- The size of the buffer that tobase64 allocates for `inlen` bytes.
unfoldable pub tobase64_size : ℕ → ℕ
tobase64_size inlen = 4 * (inlen + 1) / 3 + 1

-- The value of a letter; another character leaves `tmp` as the one before set it.
unfoldable pub letter_value : ℕ → ℕ → ℕ
letter_value tmp c =
    if leb b'A' c && leb c b'Z'
    then c - b'A'
    else if leb b'a' c && leb c b'z'
    then 26 + (c - b'a')
    else if leb b'0' c && leb c 57
    then 52 + (c - b'0')
    else if c == b'+'
    then 62
    else if c == b'/'
    then 63
    else tmp

-- What the letters before a `=` are worth.
unfoldable pub padded : ℕ → ℕ → List ℕ
padded tmp2 n =
    if n == 3
    then (tmp2 / 2 ^ 10 % 256) ∷ (tmp2 / 4 % 256) ∷ []
    else if n == 2
    then (tmp2 / 16 % 256) ∷ []
    else []

-- The bytes that the rest of a text adds.
unfoldable pub from_loop : ℕ → ℕ → ℕ → List ℕ → List ℕ
from_loop tmp tmp2 n [] = []
from_loop tmp tmp2 n (c ∷ cs) = elim (c == 13 || c == 10) [
  | true ↦ from_loop tmp tmp2 n cs
  | false ↦ elim (c == b'=') [
    | true ↦ padded tmp2 n
    | false ↦
        let tmp' = letter_value tmp c in
        let tmp2' = bit_or (tmp2 * 64) tmp' in
        elim (n + 1 == 4) [
          | true ↦
              (tmp2' / 2 ^ 16 % 256) ∷ (tmp2' / 2 ^ 8 % 256) ∷ (tmp2' % 256) ∷ from_loop tmp' 0 0 cs
          | false ↦ from_loop tmp' tmp2' (n + 1) cs
        ]
  ]
]

-- The bytes, as many as `*size` says.
unfoldable pub frombase64 : List ℕ → List ℕ
frombase64 text = from_loop 0 0 0 text

-- A digit of `%02hhx`.
unfoldable pub hex_digit : ℕ → ℕ
hex_digit d = get_or (codes "0123456789abcdef") d 0

unfoldable pub hex_digits : List ℕ → List ℕ
hex_digits [] = []
hex_digits (x ∷ xs) = hex_digit (x % 256 / 16) ∷ hex_digit (x % 16) ∷ hex_digits xs

-- `none` is NULL, which stands for no bytes.
unfoldable pub tobase16 : List ℕ → Option (List ℕ)
tobase16 [] = none
tobase16 (x ∷ xs) = some (hex_digits (x ∷ xs))

unfoldable pub is_digit : ℕ → Bool
is_digit c = leb b'0' c && leb c b'9'

-- `accumulator |= …`, by the character.
unfoldable pub accumulate : ℕ → ℕ → ℕ
accumulate accumulator c =
    if is_digit c
    then bit_or accumulator (c - 48)
    else if c == b'a' || c == b'A'
    then bit_or accumulator 10
    else if c == b'b' || c == b'B'
    then bit_or accumulator 11
    else if c == b'c' || c == b'C'
    then bit_or accumulator 12
    else if c == b'd' || c == b'D'
    then bit_or accumulator 13
    else if c == b'e' || c == b'E'
    then bit_or accumulator 14
    else if c == b'f' || c == b'F'
    then bit_or accumulator 15
    else accumulator

-- Two rounds of the loop: the first character of a pair starts at 0, the second shifts by four.
unfoldable pub from_pairs : List ℕ → List ℕ
from_pairs [] = []
from_pairs (c ∷ []) = []
from_pairs (c ∷ c' ∷ cs) = (accumulate (accumulate 0 c * 16) c' % 256) ∷ from_pairs cs

-- `none` is the result 0, where `*raw` is left as it is.
unfoldable pub frombase16 : List ℕ → Option (List ℕ)
frombase16 ascii =
    if length ascii == 0 || length ascii % 2 == 1 then none else some (from_pairs ascii)
