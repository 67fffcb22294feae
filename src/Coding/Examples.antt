-- ===== src/Coding/Examples.antt =====
-- The theorems on base 64 and base 16 at concrete bytes.
use irssi_icq.Base.{ℕ, ◌+◌, ◌*◌, ◌%◌, ◌≤◌, ◌≡◌, ◌≢◌, refl, List, [], ◌∷◌, some, arith, length}
use irssi_icq.Coding.{
  tobase64, frombase64, tobase64_size, tobase16, frombase16, alphabet, letter, second, third, codes,
}
use irssi_icq.Coding.Base64.{unwrapped, frombase64-tobase64, tobase64_size-overflows}
use irssi_icq.Coding.Base16.{capitals, frombase16-tobase16}

abbrev four_bytes : List ℕ
four_bytes = 0x69 ∷ 0xff ∷ 0x00 ∷ 0x71 ∷ []

-- With a line break after the fourth letter.
abbrev wrapped : List ℕ
wrapped = codes "af8A\ncQ=="

wrapped_lem : unwrapped wrapped ≡ tobase64 four_bytes
unfolding unwrapped tobase64 letter alphabet second third
wrapped_lem = refl

frombase64_example : frombase64 wrapped ≡ four_bytes
frombase64_example = frombase64-tobase64 wrapped four_bytes (omega arith) wrapped_lem

tobase64_size_example :
    (4 % 3 ≡ 1 → length (tobase64 four_bytes) + 1 ≡ tobase64_size 4 + 2)
    × (4 % 3 ≢ 1 → length (tobase64 four_bytes) + 1 ≤ tobase64_size 4)
tobase64_size_example = tobase64_size-overflows four_bytes

frombase16_example :
    (text : List ℕ) × (tobase16 four_bytes ≡ some text)
    × (length text ≡ 4 * 2)
    × (frombase16 text ≡ some four_bytes)
    × (frombase16 (capitals text) ≡ some four_bytes)
frombase16_example = frombase16-tobase16 four_bytes (omega arith) (λ e. cc)
