-- ===== src/Word.antt =====
-- irssi-icq/src/protocols/oscar/aim.h: the macros aimutil_put* and aimutil_get*, which store and
-- fetch unsigned integers of 8, 16 and 32 bits. What a put macro stores is the list of bytes from the
-- buffer's position on; a get macro reads the buffer `buf` from an index on. `x & 0xff` on an
-- unsigned value is `x % 256`, `x >> 8` is `x / 256`, and `(x << 8) & 0xff00` keeps what is below
-- 2 ^ 16. A read past the end of the buffer is undefined in C and gives 0 here; the theorems on
-- streams state where no such read happens.
pub mod RoundTrip
use irssi_icq.Base.{ℕ, ◌+◌, ◌*◌, ◌/◌, ◌%◌, ◌^◌, List, [], ◌∷◌, get_or}

unfoldable pub put8 : ℕ → List ℕ
put8 v = (v % 256) ∷ []

unfoldable pub get8 : List ℕ → ℕ → ℕ
get8 buf i = get_or buf i 0 % 256

unfoldable pub put16 : ℕ → List ℕ
put16 v = (v / 256 % 256) ∷ (v % 256) ∷ []

unfoldable pub get16 : List ℕ → ℕ → ℕ
get16 buf i = get_or buf i 0 * 256 % 2 ^ 16 + get_or buf (i + 1) 0 % 256

unfoldable pub put32 : ℕ → List ℕ
put32 v = (v / 2 ^ 24 % 256) ∷ (v / 2 ^ 16 % 256) ∷ (v / 256 % 256) ∷ (v % 256) ∷ []

unfoldable pub get32 : List ℕ → ℕ → ℕ
get32 buf i =
    get_or buf i 0 * 2 ^ 24 % 2 ^ 32
    + get_or buf (i + 1) 0 * 2 ^ 16 % 2 ^ 24
    + get_or buf (i + 2) 0 * 256 % 2 ^ 16
    + get_or buf (i + 3) 0 % 256

unfoldable pub putle8 : ℕ → List ℕ
putle8 v = (v % 256) ∷ []

unfoldable pub getle8 : List ℕ → ℕ → ℕ
getle8 buf i = get_or buf i 0 % 256

unfoldable pub putle16 : ℕ → List ℕ
putle16 v = (v % 256) ∷ (v / 256 % 256) ∷ []

unfoldable pub getle16 : List ℕ → ℕ → ℕ
getle16 buf i = get_or buf i 0 % 256 + get_or buf (i + 1) 0 * 256 % 2 ^ 16

unfoldable pub putle32 : ℕ → List ℕ
putle32 v = (v % 256) ∷ (v / 256 % 256) ∷ (v / 2 ^ 16 % 256) ∷ (v / 2 ^ 24 % 256) ∷ []

unfoldable pub getle32 : List ℕ → ℕ → ℕ
getle32 buf i =
    get_or buf i 0 % 256
    + get_or buf (i + 1) 0 * 256 % 2 ^ 16
    + get_or buf (i + 2) 0 * 2 ^ 16 % 2 ^ 24
    + get_or buf (i + 3) 0 * 2 ^ 24 % 2 ^ 32
