-- ===== src/Caps/Table.antt =====
-- info.c: the table of capabilities, and the flags that a selection of it has.
use irssi_icq.Base.{
  ℕ, ◌^◌, ◌<◌, ◌≡◌, refl, ◌∙◌, sym, ap, ◌==◌, List, [], ◌∷◌, Bool, true, false, ◌&&◌, ◌||◌, none,
  some, if◌then◌else◌, arith, All, length, bytes_eq, Bool-cases, ==_iff, inl, inr, Option-cases,
  ltb, if_elim,
}
use Prim.Native.Nat.{bit_and, bit_or, max}
use irssi_icq.Base.Bits.{
  bit-zero, holds, holds_below, bit, bit_small, bit-bit_or, bit_test, bit-power,
}
use irssi_icq.Word.RoundTrip.{IsByte}
use irssi_icq.Caps.{Cap, aim_caps, find_flag}

-- A flag is one digit, at the exponent.
abbrev IsPower : Cap → Type 0
IsPower c = (j : ℕ) × (c.flag ≡ 2 ^ j)

-- An entry as the functions want it: sixteen bytes that are known by their flag.
abbrev pub IsEntry : Cap → Type 0
IsEntry c =
    (length c.content ≡ 16) × All IsByte c.content × (find_flag c.content aim_caps ≡ some c.flag)

-- The entries whose flag `caps` has.
unfoldable pub selected : ℕ → List Cap → List Cap
selected caps [] = []
selected caps (c ∷ t) = if bit_and caps c.flag == 0 then selected caps t else c ∷ selected caps t

-- The flags of the entries, gathered.
unfoldable pub gather : ℕ → List Cap → ℕ
gather flags [] = flags
gather flags (c ∷ t) = gather (bit_or flags c.flag) t

-- Whether a table has a flag with the digit.
unfoldable pub covers : ℕ → List Cap → Bool
covers k [] = false
covers k (c ∷ t) = bit k c.flag == 1 || covers k t

same_bit : (k j a : ℕ) → (k == j) ≡ true → bit k a ≡ bit j a
same_bit k j a e = ap (λ n. bit n a) ((==_iff k j).0 e)

-- The test of an entry, and what its flag adds at a digit.
module _ (k caps : ℕ) (c : Cap) (p : IsPower c) where
  selected-bit : (bit_and caps c.flag == 0) ≡ (bit p.0 caps == 0)
  selected-bit = rw p.1 (bit_test p.0 caps)

  flag-bit : bit k c.flag ≡ (if k == p.0 then 1 else 0)
  flag-bit = rw p.1 (bit-power k p.0)

bit-gather :
    (k caps flags : ℕ) (t : List Cap)
    → All IsPower t
    → bit k (gather flags (selected caps t))
      ≡ max (bit k flags) (if covers k t then bit k caps else 0)
unfolding gather selected covers
bit-gather k caps flags [] h = omega arith
bit-gather k caps flags (c ∷ t) h = elim (Bool-cases (bit_and caps c.flag == 0)) [
  | inl z ↦
      let ih = bit-gather k caps flags t h.1 in
      let f = flag-bit k caps c h.0 in
      let q : (bit h.0.0 caps == 0) ≡ true = sym (selected-bit k caps c h.0) ∙ z in
      rw (z, f) (ground (arith, ih, q, same_bit k h.0.0 caps, bit_small k flags, bit_small k caps))
  | inr z ↦
      let ih = bit-gather k caps (bit_or flags c.flag) t h.1 in
      let f = flag-bit k caps c h.0 in
      let q : (bit h.0.0 caps == 0) ≡ false = sym (selected-bit k caps c h.0) ∙ z in
      let o = bit-bit_or k flags c.flag in
      rw z (
        ground (
          arith,
          ih,
          q,
          f,
          o,
          same_bit k h.0.0 caps,
          bit_small k flags,
          bit_small k caps,
          bit_small h.0.0 caps,
        ))
]

aim_caps-IsPower : All IsPower aim_caps
unfolding aim_caps
aim_caps-IsPower = (
  (19, refl),
  (
    (21, refl),
    (
      (20, refl),
      (
        (1, refl),
        (
          (5, refl),
          (
            (10, refl),
            (
              (2, refl),
              (
                (0, refl),
                (
                  (7, refl),
                  (
                    (4, refl),
                    (
                      (14, refl),
                      (
                        (6, refl),
                        (
                          (9, refl),
                          (
                            (8, refl),
                            (
                              (18, refl),
                              (
                                (17, refl),
                                (
                                  (15, refl),
                                  (
                                    (3, refl),
                                    ((12, refl), ((11, refl), ((16, refl), ((13, refl), tt)))),
                                  ),
                                ),
                              ),
                            ),
                          ),
                        ),
                      ),
                    ),
                  ),
                ),
              ),
            ),
          ),
        ),
      ),
    ),
  ),
)

-- The same as a test.
abbrev bytes_below : List ℕ → Bool
bytes_below [] = true
bytes_below (b ∷ l) = ltb b 256 && bytes_below l

abbrev found : Cap → Bool
found c = elim (find_flag c.content aim_caps) [ none ↦ false | some flag ↦ flag == c.flag ]

abbrev entries : List Cap → Bool
entries [] = true
entries (c ∷ t) = length c.content == 16 && (bytes_below c.content && (found c && entries t))

bytes_below-IsByte : (l : List ℕ) → bytes_below l ≡ true → All IsByte l
bytes_below-IsByte [] h = tt
bytes_below-IsByte (b ∷ l) h = (ground (arith, h), bytes_below-IsByte l (ground (arith, h)))

found-find_flag : (c : Cap) → found c ≡ true → find_flag c.content aim_caps ≡ some c.flag
found-find_flag c h = elim (Option-cases (find_flag c.content aim_caps)) [
  | inl e ↦ ground (arith, h, e)
  | inr (flag, e) ↦ ground (arith, h, e)
]

entries-IsEntry : (t : List Cap) → entries t ≡ true → All IsEntry t
entries-IsEntry [] h = tt
entries-IsEntry (c ∷ t) h = (
  (
    ground (arith, h),
    bytes_below-IsByte c.content (ground (arith, h)),
    found-find_flag c (ground (arith, h)),
  ),
  entries-IsEntry t (ground (arith, h)),
)

aim_caps-entries : entries aim_caps ≡ true
unfolding aim_caps find_flag bytes_eq
aim_caps-entries = refl

pub aim_caps-IsEntry : All IsEntry aim_caps
aim_caps-IsEntry = entries-IsEntry aim_caps aim_caps-entries

-- The table has the 22 lowest digits.
covers_table : holds (λ k. covers k aim_caps) 22 ≡ true
unfolding holds covers aim_caps
covers_table = refl

-- The flags that are selected by a number, gathered, have its 22 lowest digits.
pub bit-selected : (k caps : ℕ) → k < 22 → bit k (gather 0 (selected caps aim_caps)) ≡ bit k caps
bit-selected k caps h =
    let e = bit-gather k caps 0 aim_caps aim_caps-IsPower in
    let z = bit-zero k in
    ground (arith, e, z, holds_below (λ k. covers k aim_caps) 22 covers_table k h)

pub selected-IsEntry : (caps : ℕ) (t : List Cap) → All IsEntry t → All IsEntry (selected caps t)
unfolding selected
selected-IsEntry caps [] h = tt
selected-IsEntry caps (c ∷ t) h =
    if_elim (All IsEntry) (bit_and caps c.flag == 0) _ _ (λ e. selected-IsEntry caps t h.1)
      (λ e. (h.0, selected-IsEntry caps t h.1))
