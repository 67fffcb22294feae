-- ===== src/Base/Patch.antt =====
-- Overwriting the middle of a list that is long enough.
use irssi_icq.Base.{
  ℕ, zero, suc, ◌+◌, ◌≤◌, ◌≡◌, refl, ap, List, [], ◌∷◌, ◌++◌, arith, length, take, drop, patch, All,
  drop-length-append, take-length-append, length-append, length-drop, All-append,
}
use native.Mathlib.Nat.{zero-add, suc-add}

module _ {ℓ} {A : Type ℓ} where
  pub drop-patch_at :
      (n : ℕ) (ys xs : List A)
      → n ≤ length xs
      → drop n (patch n ys xs) ≡ ys ++ drop (n + length ys) xs
  drop-patch_at zero ys xs h = refl
  drop-patch_at (suc n) ys [] h = absurd (omega arith)
  drop-patch_at (suc n) ys (x ∷ xs) h = rw suc-add (drop-patch_at n ys xs (omega arith))

  pub take-patch_at : (n : ℕ) (ys xs : List A) → n ≤ length xs → take n (patch n ys xs) ≡ take n xs
  take-patch_at zero ys xs h = refl
  take-patch_at (suc n) ys [] h = absurd (omega arith)
  take-patch_at (suc n) ys (x ∷ xs) h =
      rw suc-add (ap (◌∷◌ x) (take-patch_at n ys xs (omega arith)))

  pub take-patch :
      (n : ℕ) (ys xs : List A)
      → n ≤ length xs
      → take (n + length ys) (patch n ys xs) ≡ take n xs ++ ys
  take-patch zero ys xs h = rw zero-add (take-length-append ys _)
  take-patch (suc n) ys [] h = absurd (omega arith)
  take-patch (suc n) ys (x ∷ xs) h = rw suc-add (ap (◌∷◌ x) (take-patch n ys xs (omega arith)))

  pub drop-patch :
      (n : ℕ) (ys xs : List A)
      → n ≤ length xs
      → drop (n + length ys) (patch n ys xs) ≡ drop (n + length ys) xs
  drop-patch zero ys xs h = rw zero-add (drop-length-append ys _)
  drop-patch (suc n) ys [] h = absurd (omega arith)
  drop-patch (suc n) ys (x ∷ xs) h = rw suc-add (drop-patch n ys xs (omega arith))

  pub length-patch :
      (n : ℕ) (ys xs : List A) → n + length ys ≤ length xs → length (patch n ys xs) ≡ length xs
  length-patch zero ys xs h =
      rw (length-append ys) (rw zero-add (omega (arith, length-drop (length ys) xs)))
  length-patch (suc n) ys [] h = absurd (omega arith)
  length-patch (suc n) ys (x ∷ xs) h = rw suc-add (ap suc (length-patch n ys xs (omega arith)))

  pub All-take {κ} : (P : A → Type κ) (n : ℕ) (xs : List A) → All P xs → All P (take n xs)
  All-take P zero xs h = tt
  All-take P (suc n) [] h = tt
  All-take P (suc n) (x ∷ xs) h = (h.0, All-take P n xs h.1)

  pub All-drop {κ} : (P : A → Type κ) (n : ℕ) (xs : List A) → All P xs → All P (drop n xs)
  All-drop P zero xs h = h
  All-drop P (suc n) [] h = tt
  All-drop P (suc n) (x ∷ xs) h = All-drop P n xs h.1

  pub All-patch {κ} :
      (P : A → Type κ) (n : ℕ) (ys xs : List A) → All P ys → All P xs → All P (patch n ys xs)
  All-patch P n ys xs hy hx =
      All-append P (take n xs) (ys ++ drop (n + length ys) xs) (All-take P n xs hx)
        (All-append P ys _ hy (All-drop P (n + length ys) xs hx))
