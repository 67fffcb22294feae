-- ===== src/Caps/Null.antt =====
-- info.c: capabilities that are cut short.
use irssi_icq.Base.{
  ℕ, zero, suc, ◌+◌, ◌*◌, ◌%◌, ◌≤◌, ◌<◌, ◌≡◌, ◌≢◌, ◌∙◌, ◌==◌, leb, false, ◌||◌, arith, take, ◌⊎◌,
  inl, inr,
}
use irssi_icq.Bstream
use irssi_icq.Bstream.{Bstream, moved}
use irssi_icq.Bstream.View.{pending}
use irssi_icq.Bstream.Read.{getraw-some, getraw-none}
use irssi_icq.Caps.{null, ends, getcap_loop, getcap, identify}
use irssi_icq.Caps.RoundTrip.{getcap_loop-step}

getcap_loop-cut :
    (fuel : ℕ) (s : Bstream) (offset len flags : ℕ)
    → ends s offset len ≡ false
    → Bstream.empty s < 16
    → getcap_loop (suc fuel) s offset len flags ≡ null
unfolding getcap_loop
getcap_loop-cut fuel s offset len flags e short = ground (arith, e, getraw-none s 16 short)

goes_on :
    (s : Bstream) (offset len : ℕ)
    → Bstream.empty s % 16 ≢ 0
    → offset + Bstream.empty s ≤ len
    → ends s offset len ≡ false
unfolding ends
goes_on s offset len odd within = goes (Bstream.empty s) odd within
  where
    goes : (e : ℕ) → e % 16 ≢ 0 → offset + e ≤ len → (e == 0 || leb len offset) ≡ false
    goes zero odd within = absurd (omega (arith, odd))
    goes (suc e) odd within = ground (arith, within)

empty-moved :
    (s : Bstream) → (Bstream.empty (moved s 16) + 16 ≡ Bstream.empty s) ⊎ (Bstream.empty s < 16)
unfolding Bstream.empty
empty-moved s = omega arith

getcap_loop-null :
    (fuel : ℕ) (s : Bstream) (offset len flags : ℕ)
    → Bstream.empty s % 16 ≢ 0
    → offset + Bstream.empty s ≤ len
    → Bstream.empty s ≤ fuel * 16
    → getcap_loop fuel s offset len flags ≡ null
getcap_loop-null zero s offset len flags odd within enough = absurd (omega (arith, odd, enough))
getcap_loop-null (suc fuel) s offset len flags odd within enough = elim (empty-moved s) [
  | inl e ↦
      getcap_loop-step fuel s (moved s 16) offset len flags (take 16 (pending s)) on
        (getraw-some s 16 (omega (arith, e)))
      ∙ getcap_loop-null fuel (moved s 16) (offset + 16) len (identify flags (take 16 (pending s)))
          (omega (arith, e, odd)) (omega (arith, e, within)) (omega (arith, e, enough))
  | inr short ↦ getcap_loop-cut fuel s offset len flags on short
]
  where
    on : ends s offset len ≡ false
    on = goes_on s offset len odd within

-- When the bytes left are not a multiple of sixteen, and `len` counts them all, aim_getcap ends in an access through
-- the NULL that aimbs_getraw returns, whatever the bytes are.
pub getcap-null :
    (s : Bstream) (len : ℕ) → Bstream.empty s % 16 ≢ 0 → Bstream.empty s ≤ len → getcap s len ≡ null
unfolding getcap
getcap-null s len odd within =
    getcap_loop-null len s 0 len 0 odd (omega (arith, within)) (omega (arith, within))
