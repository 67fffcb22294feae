-- ===== src/Util.antt =====
-- irssi-icq/src/protocols/oscar/util.c: screen names and strings of items. A C string is the list of
-- its bytes before the NUL, a pointer into it the bytes from there on, and what `*p` reads at the end
-- is 0. `toupper` is that of the C locale.
pub mod Names
pub mod Items
mod Examples
use irssi_icq.Base.{
  ◌*◌, ◌/◌, ◌%◌, ◌^◌, ℕ, zero, suc, ◌+◌, ◌-◌, List, [], ◌∷◌, Option, none, some, Bool, true, false,
  not, ◌&&◌, ◌==◌, leb, if◌then◌else◌,
}

unfoldable pub toupper : ℕ → ℕ
toupper c = if leb b'a' c && leb c b'z' then c - 32 else c

abbrev pub peek : List ℕ → ℕ
peek [] = 0
peek (c ∷ s) = c

abbrev pub after_one : List ℕ → List ℕ
after_one [] = []
after_one (c ∷ s) = s

-- `while (*sn == ' ') sn++`
unfoldable pub skip_spaces : List ℕ → List ℕ
skip_spaces [] = []
skip_spaces (c ∷ s) = elim (c == b' ') [ true ↦ skip_spaces s | false ↦ c ∷ s ]

unfoldable pub snlen : List ℕ → ℕ
snlen [] = 0
snlen (c ∷ s) = if not (c == b' ') then suc (snlen s) else snlen s

-- The `do` loop. The inner loop that skips the spaces of `sn1` is the case of a space below; what it
-- does to `sn2` meanwhile, the skipping of spaces, is done at the next comparison.
unfoldable pub sncmp : List ℕ → List ℕ → ℕ
unfolding skip_spaces toupper
sncmp [] sn2 = if not (toupper 0 == toupper (peek (skip_spaces sn2))) then 1 else 0
sncmp (c ∷ sn1) sn2 = elim (c == b' ') [
  | true ↦ sncmp sn1 sn2
  | false ↦ elim (not (toupper c == toupper (peek (skip_spaces sn2)))) [
    | true ↦ 1
    | false ↦ sncmp sn1 (after_one (skip_spaces sn2))
  ]
]

-- The string from the first `dl` on, or NULL.
unfoldable pub strchr : List ℕ → ℕ → Option (List ℕ)
strchr [] dl = none
strchr (c ∷ s) dl = elim (c == dl) [ true ↦ some (c ∷ s) | false ↦ strchr s dl ]

-- The loop of aimutil_itemcnt over the string, a byte at a time: `strchr` finds the bytes counted.
unfoldable pub itemcnt_loop : ℕ → List ℕ → ℕ → ℕ
itemcnt_loop count [] dl = count
itemcnt_loop count (c ∷ s) dl = itemcnt_loop (if c == dl then count + 1 else count) s dl

unfoldable pub itemcnt : List ℕ → ℕ → ℕ
unfolding itemcnt_loop
itemcnt s dl = itemcnt_loop 1 s dl

-- The loop of aimutil_itemindex, with the items still to pass: how many it could not pass, and `last`.
unfoldable pub itemindex_loop : ℕ → List ℕ → ℕ → ℕ × List ℕ
unfolding strchr
itemindex_loop zero last dl = (0, last)
itemindex_loop (suc left) last dl = elim (strchr last dl) [
  | none ↦ (suc left, last)
  | some next ↦ itemindex_loop left (after_one next) dl
]

-- The bytes before the first `dl`, or all: what is copied from `last`.
unfoldable pub before : List ℕ → ℕ → List ℕ
before [] dl = []
before (c ∷ s) dl = if c == dl then [] else c ∷ before s dl

unfoldable pub itemindex : List ℕ → ℕ → ℕ → List ℕ
unfolding itemindex_loop before
itemindex s index dl =
    let (left, last) = itemindex_loop index s dl in if left == 0 then before last dl else []

-- The loop of aimutil_iconsum and the byte that may be left behind it, on 32 bits.
unfoldable pub iconsum_loop : ℕ → List ℕ → ℕ
iconsum_loop sum [] = sum
iconsum_loop sum (low ∷ []) = (sum + low) % 2 ^ 32
iconsum_loop sum (low ∷ high ∷ buf) = iconsum_loop ((sum + (high * 256 + low)) % 2 ^ 32) buf

-- The checksum of an icon, returned in 16 bits.
unfoldable pub iconsum : List ℕ → ℕ
unfolding iconsum_loop
iconsum buf = let sum = iconsum_loop 0 buf in (sum / 2 ^ 16 + sum % 2 ^ 16) % 2 ^ 16
