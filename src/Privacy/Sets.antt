-- ===== src/Privacy/Sets.antt =====
-- privacy.c: the lists of an account as sets of names.
use irssi_icq.Base.{
  ℕ, List, [], ◌∷◌, ◌++◌, Bool, true, false, ◌&&◌, ◌||◌, not, bytes_eq, arith, ◌≡◌, refl,
  Bool-cases, inl, inr, bytes_eq→eq, bytes_eq_refl, sym, ◌∙◌, if_elim,
}
use irssi_icq.Privacy.{
  normalize, Text, Glib, Account, same, listed, unlisted, utf8_strcasecmp, permit_add,
  permit_remove, deny_add, deny_remove,
}

bytes_eq_sym : (a b : List ℕ) → bytes_eq a b ≡ bytes_eq b a
bytes_eq_sym a b = elim (Bool-cases (bytes_eq a b)) [
  | inl e ↦ rw (bytes_eq→eq a b e) refl
  | inr e ↦ elim (Bool-cases (bytes_eq b a)) [
    | inl f ↦ rw (bytes_eq→eq b a f) refl
    | inr f ↦ e ∙ sym f
  ]
]

module _ (g : Glib) where
  -- What the comparison sees of a name.
  abbrev key : Text → List ℕ
  key x = g.collate_key (g.casefold (normalize g x))

  same_sym : (a b : Text) → same g a b ≡ same g b a
  unfolding same utf8_strcasecmp
  same_sym a b = ground (arith, bytes_eq_sym (key a) (key b))

  same_trans : (a b c : Text) → same g a b ≡ true → same g b c ≡ true → same g a c ≡ true
  unfolding same utf8_strcasecmp
  same_trans a b c p q =
      ground
        (arith, bytes_eq→eq (key a) (key b), bytes_eq→eq (key b) (key c), bytes_eq_refl (key c))

  same-cong : (x a b : Text) → same g a b ≡ true → same g x a ≡ same g x b
  same-cong x a b e = ground (arith, e, same_sym a b, same_trans x a b, same_trans x b a)

  -- No two names of a list are the same.
  abbrev pub IsDistinct : List Text → Type 0
  IsDistinct [] = Unit {0}
  IsDistinct (x ∷ l) = (listed g x l ≡ false) × IsDistinct l

  listed-append :
      (x who : Text) (l : List Text) → listed g x (l ++ (who ∷ [])) ≡ (listed g x l || same g x who)
  unfolding listed
  listed-append x who [] = ground arith
  listed-append x who (y ∷ l) = ground (arith, listed-append x who l)

  listed-same : (x who : Text) (l : List Text) → same g x who ≡ true → listed g x l ≡ listed g who l
  unfolding listed
  listed-same x who [] e = refl
  listed-same x who (y ∷ l) e =
      ground (arith, listed-same x who l, same_sym x y, same_sym who y, same-cong y x who)

  append-IsDistinct :
      (who : Text) (l : List Text)
      → IsDistinct l
      → listed g who l ≡ false
      → IsDistinct (l ++ (who ∷ []))
  unfolding listed
  append-IsDistinct who [] h e = (refl, tt)
  append-IsDistinct who (y ∷ l) h e = (
    ground (arith, listed-append y who l, same_sym y who),
    append-IsDistinct who l h.1 (ground arith),
  )

  listed-unlisted :
      (x who : Text) (l : List Text)
      → IsDistinct l
      → listed g x (unlisted g who l) ≡ (listed g x l && not (same g x who))
  unfolding listed unlisted
  listed-unlisted x who [] h = refl
  listed-unlisted x who (y ∷ l) h = elim (Bool-cases (same g who y)) [
    | inl e ↦
        let p = same-cong x who y e in let q = listed-same x y l in rw e (ground (arith, p, q, h.0))
    | inr e ↦
        let ih = listed-unlisted x who l h.1 in
        let p = same-cong y x who in rw e (ground (arith, ih, p, same_sym x y, same_sym who y))
  ]

  unlisted-IsDistinct : (who : Text) (l : List Text) → IsDistinct l → IsDistinct (unlisted g who l)
  unfolding listed unlisted
  unlisted-IsDistinct who [] h = h
  unlisted-IsDistinct who (y ∷ l) h = elim (Bool-cases (same g who y)) [
    | inl e ↦ rw e h.1
    | inr e ↦ rw e (ground (arith, listed-unlisted y who l), unlisted-IsDistinct who l h.1)
  ]

-- A function that adds a name to a list: it says whether the name is new, and the list has the name besides what it had.
abbrev pub Adds : Glib → Text → List Text → Bool → List Text → Type 0
Adds g who old ok new =
    (ok ≡ not (listed g who old))
    × ((x : Text) → listed g x new ≡ (listed g x old || same g x who))
    × IsDistinct g new

-- A function that removes a name: it says whether the name was there, and the list has what it had but the name.
abbrev pub Removes : Glib → Text → List Text → Bool → List Text → Type 0
Removes g who old ok new =
    (ok ≡ listed g who old)
    × ((x : Text) → listed g x new ≡ (listed g x old && not (same g x who)))
    × IsDistinct g new

module _ (g : Glib) (who : Text) (old : List Text) (h : IsDistinct g old) where
  append-Adds : listed g who old ≡ false → Adds g who old true (old ++ (who ∷ []))
  append-Adds e =
      (ground (arith, e), λ x. listed-append g x who old, append-IsDistinct g who old h e)

  nothing-Adds : listed g who old ≡ true → Adds g who old false old
  nothing-Adds e = (ground (arith, e), λ x. ground (arith, listed-same g x who old, e), h)

  unlisted-Removes : listed g who old ≡ true → Removes g who old true (unlisted g who old)
  unlisted-Removes e = (sym e, λ x. listed-unlisted g x who old h, unlisted-IsDistinct g who old h)

  nothing-Removes : listed g who old ≡ false → Removes g who old false old
  nothing-Removes e = (sym e, λ x. ground (arith, listed-same g x who old, e), h)

module _ (g : Glib) (account : Account) (who : Text) (local_only : Bool) where
  permit_add-Adds :
      IsDistinct g account.permit
      → (let (ok, account') = permit_add g account who local_only in
          Adds g who account.permit ok account'.permit × (account'.deny ≡ account.deny))
  unfolding permit_add
  permit_add-Adds h =
      if_elim
        (λ (r : Bool × Account).
          Adds g who account.permit r.0 r.1.permit × (r.1.deny ≡ account.deny))
        (listed g who account.permit) _ _ (λ e. (nothing-Adds g who account.permit h e, refl))
        (λ e. (append-Adds g who account.permit h e, refl))

  deny_add-Adds :
      IsDistinct g account.deny
      → (let (ok, account') = deny_add g account who local_only in
          Adds g who account.deny ok account'.deny × (account'.permit ≡ account.permit))
  unfolding deny_add
  deny_add-Adds h =
      if_elim
        (λ (r : Bool × Account).
          Adds g who account.deny r.0 r.1.deny × (r.1.permit ≡ account.permit))
        (listed g who account.deny) _ _ (λ e. (nothing-Adds g who account.deny h e, refl))
        (λ e. (append-Adds g who account.deny h e, refl))

  permit_remove-Removes :
      IsDistinct g account.permit
      → (let (ok, account') = permit_remove g account who local_only in
          Removes g who account.permit ok account'.permit × (account'.deny ≡ account.deny))
  unfolding permit_remove
  permit_remove-Removes h =
      if_elim
        (λ (r : Bool × Account).
          Removes g who account.permit r.0 r.1.permit × (r.1.deny ≡ account.deny))
        (listed g who account.permit) _ _ (λ e. (unlisted-Removes g who account.permit h e, refl))
        (λ e. (nothing-Removes g who account.permit h e, refl))

  deny_remove-Removes :
      IsDistinct g account.deny
      → (let (ok, account') = deny_remove g account who local_only in
          Removes g who account.deny ok account'.deny × (account'.permit ≡ account.permit))
  unfolding deny_remove
  deny_remove-Removes h =
      if_elim
        (λ (r : Bool × Account).
          Removes g who account.deny r.0 r.1.deny × (r.1.permit ≡ account.permit))
        (listed g who account.deny) _ _ (λ e. (unlisted-Removes g who account.deny h e, refl))
        (λ e. (nothing-Removes g who account.deny h e, refl))

-- The lists of an account hold no name twice.
abbrev pub IsClean : Glib → Account → Type 0
IsClean g account = IsDistinct g account.permit × IsDistinct g account.deny

-- On lists without a name twice, the four functions treat the lists of an account as sets of names, up to the
-- comparison of normalized names. permit_add and deny_add add the name to their list and return whether it was new,
-- permit_remove and deny_remove remove it and return whether it was there; the list still has no name twice, and the
-- other list is as before.
pub privacy_lem :
    (g : Glib) (account : Account) (who : Text) (local_only : Bool)
    → IsClean g account
    → (let (ok, account') = permit_add g account who local_only in
        Adds g who account.permit ok account'.permit × (account'.deny ≡ account.deny))
      × (let (ok, account') = permit_remove g account who local_only in
          Removes g who account.permit ok account'.permit × (account'.deny ≡ account.deny))
      × (let (ok, account') = deny_add g account who local_only in
          Adds g who account.deny ok account'.deny × (account'.permit ≡ account.permit))
      × (let (ok, account') = deny_remove g account who local_only in
          Removes g who account.deny ok account'.deny × (account'.permit ≡ account.permit))
privacy_lem g account who local_only (permit_ok, deny_ok) = (
  permit_add-Adds g account who local_only permit_ok,
  permit_remove-Removes g account who local_only permit_ok,
  deny_add-Adds g account who local_only deny_ok,
  deny_remove-Removes g account who local_only deny_ok,
)
