-- ===== src/Buddy/Lines.antt =====
-- icq-buddy.c: the lines of the buddy file, as trim, fgets and the search for a blank treat them.
use irssi_icq.Base.{
  ℕ, suc, ◌+◌, ◌≤◌, ◌≡◌, refl, ◌==◌, ltb, [], ◌∷◌, ◌++◌, Bool, true, false, ◌&&◌, ◌||◌, not, some,
  if◌then◌else◌, length, arith, zero,
}
use irssi_icq.Buddy.{Text, isspace, trim_loop, trim, fgets_loop, split, is_number}

-- A text that trim leaves alone: single blanks between words. `blank` says that a blank, or the start, is before it.
unfoldable pub tidy : Bool → Text → Bool
unfolding isspace
tidy blank [] = not blank
tidy blank (c ∷ s) = elim (isspace c) [
  | true ↦ not blank && (c == b' ' && tidy true s)
  | false ↦ tidy false s
]

trim_loop-tidy :
    (blank : Bool) (s : Text) (k : ℕ)
    → tidy blank s ≡ true
    → trim_loop (if blank then k + 1 else k) k (s ++ (10 ∷ [])) ≡ (if blank then b' ' ∷ s else s)
unfolding trim_loop tidy isspace
trim_loop-tidy false [] k h = refl
trim_loop-tidy true [] k h = cc
trim_loop-tidy false (c ∷ s) k h =
    ground (arith, trim_loop-tidy true s k, trim_loop-tidy false s (k + 1))
trim_loop-tidy true (c ∷ s) k h = ground (arith, trim_loop-tidy false s (k + 1 + 1))

pub trim-tidy : (s : Text) → tidy true s ≡ true → trim (s ++ (10 ∷ [])) ≡ s
unfolding trim trim_loop tidy isspace
trim-tidy [] h = cc
trim-tidy (c ∷ s) h = ground (arith, trim_loop-tidy false s (0 + 1))

-- fgets takes a line of at most `n` characters whole.
pub fgets_loop-tidy :
    (blank : Bool) (s file : Text) (n : ℕ)
    → tidy blank s ≡ true
    → length s + 1 ≤ n
    → fgets_loop n (s ++ (10 ∷ file)) ≡ (s ++ (10 ∷ []), file)
unfolding fgets_loop tidy isspace
fgets_loop-tidy blank [] file zero h fits = absurd (omega arith)
fgets_loop-tidy blank [] file (suc n) h fits = refl
fgets_loop-tidy blank (c ∷ s) file zero h fits = absurd (omega arith)
fgets_loop-tidy blank (c ∷ s) file (suc n) h fits =
    ground (arith, fgets_loop-tidy true s file n, fgets_loop-tidy false s file n)

-- A number and an alias.
pub is_number-tidy :
    (blank : Bool) (uin alias : Text)
    → is_number uin ≡ true
    → tidy true alias ≡ true
    → not blank || ltb 0 (length uin) ≡ true
    → tidy blank (uin ++ (b' ' ∷ alias)) ≡ true
unfolding is_number tidy isspace
is_number-tidy blank [] alias u a ne = ground arith
is_number-tidy blank (c ∷ uin) alias u a ne = ground (arith, is_number-tidy false uin alias)

pub split-number :
    (uin alias : Text) → is_number uin ≡ true → split (uin ++ (b' ' ∷ alias)) ≡ some (uin, alias)
unfolding is_number split
split-number [] alias u = refl
split-number (c ∷ uin) alias u = ground (arith, split-number uin alias)
