-- ===== src/Util/Names.antt =====
-- util.c: when two screen names are the same.
use irssi_icq.Base.{
  ℕ, [], ◌∷◌, ◌≡◌, refl, ◌≢◌, List, ◌↔◌, Bool-cases, All, inl, if◌then◌else◌, arith, true, ◌==◌,
  inr, false, length, ap₂, ==_iff, ap,
}
use irssi_icq.Util.{toupper, peek, after_one, skip_spaces, snlen, sncmp}

-- The bytes of a C string.
abbrev pub IsString : List ℕ → Type 0
IsString = All (λ c. c ≢ 0)

-- A screen name without its spaces, in upper case.
abbrev pub normal : List ℕ → List ℕ
normal [] = []
normal (c ∷ s) = if c == b' ' then normal s else toupper c ∷ normal s

normal-skip_spaces : (s : List ℕ) → normal (skip_spaces s) ≡ normal s
unfolding skip_spaces
normal-skip_spaces [] = refl
normal-skip_spaces (c ∷ s) = ground (arith, normal-skip_spaces s)

skip_spaces-IsString : (s : List ℕ) → IsString s → IsString (skip_spaces s)
unfolding skip_spaces
skip_spaces-IsString [] h = tt
skip_spaces-IsString (c ∷ s) h = elim (Bool-cases (c == b' ')) [
  | inl e ↦ rw (e, skip_spaces) (skip_spaces-IsString s h.1)
  | inr e ↦ rw (e, skip_spaces) h
]

-- At the end of the string, or at a byte of its normal form.
abbrev Stands : List ℕ → Type 0
Stands [] = Unit {0}
Stands (c ∷ s) = (c == b' ') ≡ false

skip_spaces-Stands : (s : List ℕ) → Stands (skip_spaces s)
unfolding skip_spaces
skip_spaces-Stands [] = tt
skip_spaces-Stands (c ∷ s) = elim (Bool-cases (c == b' ')) [
  | inl e ↦ rw (e, skip_spaces) (skip_spaces-Stands s)
  | inr e ↦ rw (e, skip_spaces) e
]

toupper-ne-zero : (c : ℕ) → c ≢ 0 → toupper c ≢ 0
unfolding toupper
toupper-ne-zero c h = ground arith

toupper_apart : (c : ℕ) → c ≢ 0 → (toupper c == toupper 0) ≡ false
unfolding toupper
toupper_apart c h = ground arith

-- The three outcomes of a round.
sncmp_space : (c : ℕ) (s1 s2 : List ℕ) → (c == b' ') ≡ true → sncmp (c ∷ s1) s2 ≡ sncmp s1 s2
sncmp_space c s1 s2 e = unfold sncmp in rw (e, sncmp) refl

sncmp_differ :
    (c : ℕ) (s1 s2 t : List ℕ)
    → (c == b' ') ≡ false
    → skip_spaces s2 ≡ t
    → (toupper c == toupper (peek t)) ≡ false
    → sncmp (c ∷ s1) s2 ≡ 1
sncmp_differ c s1 s2 t e k d = unfold sncmp in rw (e, k, d, sncmp) refl

sncmp_agree :
    (c : ℕ) (s1 s2 t : List ℕ)
    → (c == b' ') ≡ false
    → skip_spaces s2 ≡ t
    → (toupper c == toupper (peek t)) ≡ true
    → sncmp (c ∷ s1) s2 ≡ sncmp s1 (after_one t)
sncmp_agree c s1 s2 t e k d =
    unfold sncmp in rw (e, k, d, sncmp) (ap (λ u. sncmp s1 (after_one u)) k)

round_iff :
    (c : ℕ) (s1 s2 t : List ℕ)
    → (c == b' ') ≡ false
    → skip_spaces s2 ≡ t
    → ((r : List ℕ) → IsString r → (sncmp s1 r ≡ 0) ↔ (normal s1 ≡ normal r))
    → c ≢ 0
    → IsString t
    → Stands t
    → (sncmp (c ∷ s1) s2 ≡ 0) ↔ (toupper c ∷ normal s1 ≡ normal t)
round_iff c s1 s2 [] e k ih nz h st =
    rw (sncmp_differ c s1 s2 [] e k (toupper_apart c nz)) (λ x. cc, λ x. cc)
round_iff c s1 s2 (d ∷ r) e k ih nz h st = elim (Bool-cases (toupper c == toupper d)) [
  | inl same ↦
      rw (sncmp_agree c s1 s2 (d ∷ r) e k same, st)
        (
          λ x. ap₂ ◌∷◌ ((==_iff (toupper c) (toupper d)).0 same) ((ih r h.1).0 x),
          λ x. (ih r h.1).1 (cc),
        )
  | inr other ↦
      rw (sncmp_differ c s1 s2 (d ∷ r) e k other, st) (λ x. cc, λ x. absurd (differ other (cc)))
]
  where
    differ : (toupper c == toupper d) ≡ false → toupper c ≡ toupper d → ⊥
    differ o q = ground arith

sncmp_end_iff :
    (s2 t : List ℕ)
    → skip_spaces s2 ≡ t
    → IsString t
    → Stands t
    → (sncmp [] s2 ≡ 0) ↔ ([] ≡ normal t)
sncmp_end_iff s2 [] k h st = (λ x. refl, λ x. unfold sncmp in rw (k, sncmp) refl)
sncmp_end_iff s2 (d ∷ r) k h st = rw (ends, st) (λ x. cc, λ x. cc)
  where
    ends : sncmp [] s2 ≡ 1
    ends = unfold sncmp in rw (k, sncmp) (ground (arith, toupper-ne-zero d))

-- On C strings aim_sncmp returns 0 exactly when the two screen names have the same normal form: the
-- same bytes but for spaces, and for the case of letters.
pub sncmp_iff :
    (s1 s2 : List ℕ) → IsString s1 → IsString s2 → (sncmp s1 s2 ≡ 0) ↔ (normal s1 ≡ normal s2)
sncmp_iff [] s2 h k =
    rw (← normal-skip_spaces s2)
      (sncmp_end_iff s2 (skip_spaces s2) refl (skip_spaces-IsString s2 k) (skip_spaces-Stands s2))
sncmp_iff (c ∷ s1) s2 h k = elim (Bool-cases (c == b' ')) [
  | inl e ↦ rw (e) (rw (sncmp_space c s1 s2 e) (sncmp_iff s1 s2 h.1 k))
  | inr e ↦
      rw (e, ← normal-skip_spaces s2)
        (round_iff c s1 s2 (skip_spaces s2) e refl (λ r. sncmp_iff s1 r h.1) h.0
          (skip_spaces-IsString s2 k) (skip_spaces-Stands s2))
]

-- aim_snlen is the length of the normal form.
pub snlen_lem : (s : List ℕ) → snlen s ≡ length (normal s)
unfolding snlen
snlen_lem [] = refl
snlen_lem (c ∷ s) = ground (arith, snlen_lem s)
