-- ===== src/Base/Bits.antt =====
-- The operator `|` of C on fields that do not overlap, and facts on small ranges.
use irssi_icq.Base.{min, ◌%◌}
use Prim.Native.Nat.{
  ℕ, zero, suc, ◌+◌, ◌*◌, ◌/◌, ◌^◌, ◌≤◌, ◌<◌, max, digits, bit_or, bit_or-bitwise, ◌%◌, min,
  bit_and, bit_and-bitwise,
}
use mathlib.Core.Path.{◌≡◌, refl, ap, ◌∙◌}
use mathlib.Core.Bool.{Bool, true, false}
use native.Mathlib.Nat.{pow-suc, one-le-pow}
use native.Mathlib.Omega.{arith}
use irssi_icq.Base.Tests.{◌==◌, ==_iff, if◌then◌else◌}

-- A test at the numbers below a bound, one after the other.
unfoldable pub holds : (ℕ → Bool) → ℕ → Bool
holds test zero = true
holds test (suc bound) = elim (test bound) [ true ↦ holds test bound | false ↦ false ]

pub holds_below :
    (test : ℕ → Bool) (bound : ℕ) → holds test bound ≡ true → (i : ℕ) → i < bound → test i ≡ true
unfolding holds
holds_below test zero e i below = absurd (omega arith)
holds_below test (suc bound) e i below =
    ground (arith, e, below, holds_below test bound (ground (arith, e)) i)

-- Two functions of bytes that agree, by a table.
pub equal_at :
    (f g : ℕ → ℕ) (bound : ℕ)
    → holds (λ i. f i == g i) bound ≡ true
    → (i : ℕ) → i < bound
    → f i ≡ g i
equal_at f g bound e i below = (==_iff _ _).0 (holds_below (λ i. f i == g i) bound e i below)

-- `a | 0`, with fuel for the digits of `a`.
keeps : (fuel a : ℕ) → a ≤ fuel → digits (λ low. low) max fuel a 0 ≡ a
keeps zero zero enough = refl
keeps zero (suc a) enough = absurd (omega arith)
keeps (suc fuel) zero enough = refl
keeps (suc fuel) (suc a) enough = omega (arith, keeps fuel (suc a / 2) (omega arith))

-- The same for `a | r` where the last `k` digits of `a` are 0 and `r` has no others.
joins :
    (k q r fuel a : ℕ)
    → a ≡ q * 2 ^ k
    → r < 2 ^ k
    → a ≤ fuel
    → digits (λ low. low) max fuel a r ≡ a + r
joins zero q zero fuel a e small enough = ground (arith, keeps fuel a enough)
joins zero q (suc r) fuel a e small enough = absurd (omega arith)
joins (suc k) q r zero zero e small enough = omega arith
joins (suc k) q r zero (suc a) e small enough = absurd (omega arith)
joins (suc k) q r (suc fuel) zero e small enough = omega arith
joins (suc k) q r (suc fuel) (suc a) e small enough = omega (
  arith,
  e,
  twice,
  joins k q (r / 2) fuel (suc a / 2) (omega (arith, e, twice)) (omega (arith, pow-suc 2 k))
      (omega arith),
)
  where
    twice : q * 2 ^ suc k ≡ 2 * (q * 2 ^ k)
    twice = omega (arith, ap (λ (t : ℕ). q * t) (pow-suc 2 k))

-- `q << k | r` where `r` has `k` digits.
pub bit_or-fields : (k q r : ℕ) → r < 2 ^ k → bit_or (q * 2 ^ k) r ≡ q * 2 ^ k + r
bit_or-fields k q r small = omega (
  arith,
  bit_or-bitwise (q * 2 ^ k) r,
  joins k q r (q * 2 ^ k) (q * 2 ^ k) refl small (omega arith),
)

-- The digit of weight `2 ^ k`.
abbrev pub bit : ℕ → ℕ → ℕ
bit zero a = a % 2
bit (suc k) a = bit k (a / 2)

pub bit-zero : (k : ℕ) → bit k 0 ≡ 0
bit-zero zero = refl
bit-zero (suc k) = bit-zero k

bit_digit : (k m d : ℕ) → d < 2 → bit (suc k) (m * 2 + d) ≡ bit k m
bit_digit k m d small = ap (bit k) halved
  where
    halved : (m * 2 + d) / 2 ≡ m
    halved = omega arith

unites :
    (k fuel a b : ℕ) → a ≤ fuel → bit k (digits (λ low. low) max fuel a b) ≡ max (bit k a) (bit k b)
unites k zero zero b enough = ground (arith, bit-zero k)
unites k zero (suc a) b enough = absurd (omega arith)
unites k (suc fuel) zero b enough = ground (arith, bit-zero k)
unites zero (suc fuel) (suc a) b enough = omega arith
unites (suc k) (suc fuel) (suc a) b enough =
    bit_digit k (digits (λ low. low) max fuel (suc a / 2) (b / 2)) (max (suc a % 2) (b % 2))
      (omega arith)
    ∙ unites k fuel (suc a / 2) (b / 2) (omega arith)

pub bit-bit_or : (k a b : ℕ) → bit k (bit_or a b) ≡ max (bit k a) (bit k b)
bit-bit_or k a b = ap (bit k) (bit_or-bitwise a b) ∙ unites k a a b (omega arith)

half : (k : ℕ) → 2 ^ suc k / 2 ≡ 2 ^ k
half k = omega (arith, pow-suc 2 k)

even : (k : ℕ) → 2 ^ suc k % 2 ≡ 0
even k = omega (arith, pow-suc 2 k)

clears : (fuel a : ℕ) → a ≤ fuel → digits (λ low. 0) min fuel a 0 ≡ 0
clears zero zero enough = refl
clears zero (suc a) enough = absurd (omega arith)
clears (suc fuel) zero enough = refl
clears (suc fuel) (suc a) enough = omega (arith, clears fuel (suc a / 2) (omega arith))

selects : (k fuel a : ℕ) → a ≤ fuel → digits (λ low. 0) min fuel a (2 ^ k) ≡ bit k a * 2 ^ k
selects k zero zero enough = ground (arith, bit-zero k)
selects k zero (suc a) enough = absurd (omega arith)
selects k (suc fuel) zero enough = ground (arith, bit-zero k)
selects zero (suc fuel) (suc a) enough = omega (arith, clears fuel (suc a / 2) (omega arith))
selects (suc k) (suc fuel) (suc a) enough =
    rw (half k, even k)
      (omega (
        arith,
        selects k fuel (suc a / 2) (omega arith),
        ap (λ (t : ℕ). bit k (suc a / 2) * t) (pow-suc 2 k),
      ))

pub bit_and-power : (k a : ℕ) → bit_and a (2 ^ k) ≡ bit k a * 2 ^ k
bit_and-power k a = bit_and-bitwise a (2 ^ k) ∙ selects k a a (omega arith)

pub bit_small : (k a : ℕ) → bit k a < 2
bit_small zero a = omega arith
bit_small (suc k) a = bit_small k (a / 2)

-- The test `a & (1 << k)`.
pub bit_test : (k a : ℕ) → (bit_and a (2 ^ k) == 0) ≡ (bit k a == 0)
bit_test k a =
    rw (bit_and-power k a) (by_bit (bit k a) (2 ^ k) (bit_small k a) (one-le-pow k 2 (omega arith)))
  where
    by_bit : (d p : ℕ) → d < 2 → 1 ≤ p → (d * p == 0) ≡ (d == 0)
    by_bit zero p small positive = ground arith
    by_bit (suc zero) p small positive = ground arith
    by_bit (suc (suc d)) p small positive = absurd (omega arith)

pub bit-power : (k j : ℕ) → bit k (2 ^ j) ≡ (if k == j then 1 else 0)
bit-power zero zero = refl
bit-power zero (suc j) = ground (arith, even j)
bit-power (suc k) zero = ground (arith, bit-zero k)
bit-power (suc k) (suc j) = rw (half j) (ground (arith, bit-power k j))
