-- ===== src/Buddy/Fields.antt =====
-- icq-buddy.c: the status and the address of a buddy.
use irssi_icq.Base.{
  ◌≡◌, List, [], ◌∷◌, Bool, true, false, Option, none, some, if◌then◌else◌, arith, inl, inr,
  Bool-cases, bytes_eq, bytes_eq→eq, ℕ, ◌&&◌, Option-cases, refl,
}
use irssi_icq.Buddy.{Text, Buddy, get_buddy, change, setmode, getmode, getip, getalias, setip}

-- Whether a number is that of a buddy.
unfoldable pub known : Text → List Buddy → Bool
known uin l = elim (get_buddy uin l) [ none ↦ false | some item ↦ true ]

abbrev applied : (Buddy → Buddy) → Option Buddy → Option Buddy
applied f none = none
applied f (some b) = some (f b)

module _ (f : Buddy → Buddy) (h : (b : Buddy) → (f b).uin ≡ b.uin) (uin : Text) where
  -- The change reaches the first buddy of the number, which is the one that is found.
  get_buddy-change :
      (x : Text) (l : List Buddy)
      → get_buddy x (change f uin l)
        ≡ (if bytes_eq x uin then applied f (get_buddy x l) else get_buddy x l)
  unfolding get_buddy change
  get_buddy-change x [] = ground arith
  get_buddy-change x (b ∷ l) = elim (Bool-cases (bytes_eq uin b.uin)) [
    | inl e ↦ let u : uin ≡ b.uin = bytes_eq→eq uin b.uin e in ground (arith, e, u, h b)
    | inr e ↦ ground (arith, e, get_buddy-change x l, bytes_eq→eq x uin, bytes_eq→eq x b.uin)
  ]

module _ (uin : Text) (l : List Buddy) (x : Text) where
  -- After the status of a number was set, the list has it when the number is known, and all else is as before.
  abbrev pub SetsMode : ℕ → Option ℕ × List Buddy → Type 0
  SetsMode mode (r, l') =
      (r ≡ (if known uin l then some mode else none))
      × (getmode x l' ≡ (if bytes_eq x uin && known uin l then some mode else getmode x l))
      × (getip x l' ≡ getip x l)
      × (getalias x l' ≡ getalias x l)

  abbrev pub SetsIp : ℕ → Option ℕ × List Buddy → Type 0
  SetsIp ip (r, l') =
      (r ≡ (if known uin l then some 0 else none))
      × (getip x l' ≡ (if bytes_eq x uin && known uin l then ip else getip x l))
      × (getmode x l' ≡ getmode x l)
      × (getalias x l' ≡ getalias x l)

  setmode-SetsMode : (mode : ℕ) → SetsMode mode (setmode uin mode l)
  unfolding setmode getmode getip getalias known
  setmode-SetsMode mode = elim (Option-cases (get_buddy uin l)) [
    | inl e ↦ (ground (arith, e), ground (arith, e), ground (arith, e), ground (arith, e))
    | inr (b, e) ↦
        let c = get_buddy-change (λ b. record b { mode = mode }) (λ b. refl) uin x l in
        let q = bytes_eq→eq x uin in
        (
          ground (arith, e),
          ground (arith, e, c, q),
          ground (arith, e, c, q),
          ground (arith, e, c, q),
        )
  ]

  setip-SetsIp : (ip : ℕ) → SetsIp ip (setip uin ip l)
  unfolding setip getmode getip getalias known
  setip-SetsIp ip = elim (Option-cases (get_buddy uin l)) [
    | inl e ↦ (ground (arith, e), ground (arith, e), ground (arith, e), ground (arith, e))
    | inr (b, e) ↦
        let c = get_buddy-change (λ b. record b { ip = ip }) (λ b. refl) uin x l in
        let q = bytes_eq→eq x uin in
        (
          ground (arith, e),
          ground (arith, e, c, q),
          ground (arith, e, c, q),
          ground (arith, e, c, q),
        )
  ]

  -- buddy_setmode and buddy_setip return -1 and change nothing when the number is unknown. Else buddy_getmode and
  -- buddy_getip return the new value for this number; the other field, the aliases, and all of other numbers are as
  -- before.
  pub fields_lem : (mode ip : ℕ) → SetsMode mode (setmode uin mode l) × SetsIp ip (setip uin ip l)
  fields_lem mode ip = (setmode-SetsMode mode, setip-SetsIp ip)
