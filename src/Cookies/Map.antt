-- ===== src/Cookies/Map.antt =====
-- msgcookie.c: the list of cookies as a map from a cookie and its type.
use irssi_icq.Base.{
  ℕ, List, [], ◌∷◌, Option, none, some, Bool, true, false, ◌==◌, ◌&&◌, take, bytes_eq, bytes_eq→eq,
  bytes_eq_refl, ◌≡◌, ◌≢◌, ◌∙◌, inl, inr, All, refl, ap, ap₂, sym, subst, Bool-cases, ==_iff,
  if_true, if_false,
}
use irssi_icq.Cookies.{Cookie, is_cookie, checkcookie, uncachecookie}

-- The same key: eight bytes and a type.
abbrev pub SameKey : List ℕ → ℕ → List ℕ → ℕ → Type 0
SameKey k t k' t' = (t ≡ t') × (take 8 k ≡ take 8 k')

-- No two cookies with the same address or key.
abbrev pub IsMap : List Cookie → Type 0
IsMap [] = Unit
IsMap (cur ∷ rest) =
    All (λ c. c.addr ≢ cur.addr) rest × (checkcookie rest cur.cookie cur.type ≡ none) × IsMap rest

pub is_cookie→SameKey :
    (cur : Cookie) (k : List ℕ) (t : ℕ) → is_cookie cur k t ≡ true → SameKey cur.cookie cur.type k t
is_cookie→SameKey cur k t e = split (cur.type == t) refl e
  where
    split :
        (b : Bool)
        → (cur.type == t) ≡ b
        → (b && bytes_eq (take 8 cur.cookie) (take 8 k)) ≡ true
        → SameKey cur.cookie cur.type k t
    split true f g = ((==_iff cur.type t).0 f, bytes_eq→eq _ _ g)
    split false f g = cc

pub SameKey→is_cookie :
    (cur : Cookie) (k : List ℕ) (t : ℕ) → SameKey cur.cookie cur.type k t → is_cookie cur k t ≡ true
SameKey→is_cookie cur k t (e, f) =
    ap₂ ◌&&◌ ((==_iff cur.type t).1 e) (ap (bytes_eq (take 8 cur.cookie)) (sym f) ∙ bytes_eq_refl _)

-- What a cookie answers depends on the key alone.
is_cookie_same :
    (cur : Cookie) (k : List ℕ) (t : ℕ) (k' : List ℕ) (t' : ℕ)
    → SameKey k t k' t'
    → is_cookie cur k t ≡ is_cookie cur k' t'
is_cookie_same cur k t k' t' (e, f) =
    ap₂ (λ x y. cur.type == x && bytes_eq (take 8 cur.cookie) y) e f

pub check_hit :
    (cur : Cookie) (rest : List Cookie) (k : List ℕ) (t : ℕ)
    → is_cookie cur k t ≡ true
    → checkcookie (cur ∷ rest) k t ≡ some cur
check_hit cur rest k t e = unfold checkcookie in if_true _ _ e

pub check_miss :
    (cur : Cookie) (rest : List Cookie) (k : List ℕ) (t : ℕ)
    → is_cookie cur k t ≡ false
    → checkcookie (cur ∷ rest) k t ≡ checkcookie rest k t
check_miss cur rest k t e = unfold checkcookie in if_false _ _ e

check_same :
    (l : List Cookie) (k : List ℕ) (t : ℕ) (k' : List ℕ) (t' : ℕ)
    → SameKey k t k' t'
    → checkcookie l k t ≡ checkcookie l k' t'
check_same [] k t k' t' s = unfold checkcookie in refl
check_same (cur ∷ rest) k t k' t' s = elim (Bool-cases (is_cookie cur k' t')) [
  | inl e ↦
      check_hit cur rest k t (is_cookie_same cur k t k' t' s ∙ e) ∙ sym (check_hit cur rest k' t' e)
  | inr e ↦
      check_miss cur rest k t (is_cookie_same cur k t k' t' s ∙ e)
      ∙ check_same rest k t k' t' s
      ∙ sym (check_miss cur rest k' t' e)
]

check_cons :
    (cur : Cookie) (l m : List Cookie) (k : List ℕ) (t : ℕ)
    → checkcookie l k t ≡ checkcookie m k t
    → checkcookie (cur ∷ l) k t ≡ checkcookie (cur ∷ m) k t
check_cons cur l m k t e = elim (Bool-cases (is_cookie cur k t)) [
  | inl f ↦ check_hit cur l k t f ∙ sym (check_hit cur m k t f)
  | inr f ↦ check_miss cur l k t f ∙ e ∙ sym (check_miss cur m k t f)
]

pub clash : {c : Cookie} → Path (Option Cookie) (some c) none → ⊥
clash e = cc

-- A cookie does not answer for two keys.
pub other_miss :
    (cur : Cookie) (k : List ℕ) (t : ℕ) (k' : List ℕ) (t' : ℕ)
    → is_cookie cur k t ≡ true
    → ¬ SameKey k t k' t'
    → is_cookie cur k' t' ≡ false
other_miss cur k t k' t' e n = elim (Bool-cases (is_cookie cur k' t')) [
  | inl f ↦
      (let (a, b) = is_cookie→SameKey cur k t e in
        let (c, d) = is_cookie→SameKey cur k' t' f in absurd (n (sym a ∙ c, sym b ∙ d)))
  | inr f ↦ f
]

pub check-All {ℓ} :
    (P : Cookie → Type ℓ) (l : List Cookie) (k : List ℕ) (t : ℕ) (c : Cookie)
    → All P l
    → checkcookie l k t ≡ some c
    → P c
check-All P [] k t c a e = absurd (unfold checkcookie in cc)
check-All P (cur ∷ rest) k t c (p, a) e = elim (Bool-cases (is_cookie cur k t)) [
  | inl f ↦ subst P (same (sym (check_hit cur rest k t f) ∙ e)) p
  | inr f ↦ check-All P rest k t c a (sym (check_miss cur rest k t f) ∙ e)
]
  where
    same : {x y : Cookie} → Path (Option Cookie) (some x) (some y) → x ≡ y
    same e = cc

pub uncache_hit :
    (cur : Cookie) (rest : List Cookie) (k : List ℕ) (t : ℕ)
    → is_cookie cur k t ≡ true
    → uncachecookie (cur ∷ rest) k t ≡ (some cur, rest)
uncache_hit cur rest k t e = unfold uncachecookie in rw (e, uncachecookie) refl

pub uncache_miss :
    (cur : Cookie) (rest : List Cookie) (k : List ℕ) (t : ℕ)
    → is_cookie cur k t ≡ false
    → uncachecookie (cur ∷ rest) k t
      ≡ ((uncachecookie rest k t).0, cur ∷ (uncachecookie rest k t).1)
uncache_miss cur rest k t e = unfold uncachecookie in rw (e, uncachecookie) refl

uncache_found : (l : List Cookie) (k : List ℕ) (t : ℕ) → (uncachecookie l k t).0 ≡ checkcookie l k t
uncache_found [] k t = unfold uncachecookie checkcookie in refl
uncache_found (cur ∷ rest) k t = elim (Bool-cases (is_cookie cur k t)) [
  | inl e ↦ ap (λ r. r.0) (uncache_hit cur rest k t e) ∙ sym (check_hit cur rest k t e)
  | inr e ↦
      ap (λ r. r.0) (uncache_miss cur rest k t e)
      ∙ uncache_found rest k t
      ∙ sym (check_miss cur rest k t e)
]

pub uncache-All {ℓ} :
    (P : Cookie → Type ℓ) (l : List Cookie) (k : List ℕ) (t : ℕ)
    → All P l
    → All P (uncachecookie l k t).1
uncache-All P [] k t a = unfold uncachecookie in a
uncache-All P (cur ∷ rest) k t (p, a) = elim (Bool-cases (is_cookie cur k t)) [
  | inl e ↦ subst (λ r. All P r.1) (sym (uncache_hit cur rest k t e)) a
  | inr e ↦ subst (λ r. All P r.1) (sym (uncache_miss cur rest k t e)) (p, uncache-All P rest k t a)
]

-- The other keys keep their cookies.
pub uncache_other :
    (l : List Cookie) (k : List ℕ) (t : ℕ) (k' : List ℕ) (t' : ℕ)
    → ¬ SameKey k t k' t'
    → checkcookie (uncachecookie l k t).1 k' t' ≡ checkcookie l k' t'
uncache_other [] k t k' t' n = unfold uncachecookie in refl
uncache_other (cur ∷ rest) k t k' t' n = elim (Bool-cases (is_cookie cur k t)) [
  | inl e ↦
      ap (λ r. checkcookie r.1 k' t') (uncache_hit cur rest k t e)
      ∙ sym (check_miss cur rest k' t' (other_miss cur k t k' t' e n))
  | inr e ↦
      ap (λ r. checkcookie r.1 k' t') (uncache_miss cur rest k t e)
      ∙ check_cons cur (uncachecookie rest k t).1 rest k' t' (uncache_other rest k t k' t' n)
]

-- A key that is not there does not come back.
uncache_absent :
    (l : List Cookie) (k : List ℕ) (t : ℕ) (k' : List ℕ) (t' : ℕ)
    → checkcookie l k' t' ≡ none
    → checkcookie (uncachecookie l k t).1 k' t' ≡ none
uncache_absent [] k t k' t' a = unfold uncachecookie in a
uncache_absent (cur ∷ rest) k t k' t' a = elim (Bool-cases (is_cookie cur k' t')) [
  | inl f ↦ absurd (clash (sym (check_hit cur rest k' t' f) ∙ a))
  | inr f ↦
      (let b : checkcookie rest k' t' ≡ none = sym (check_miss cur rest k' t' f) ∙ a in
        elim (Bool-cases (is_cookie cur k t)) [
          | inl e ↦ ap (λ r. checkcookie r.1 k' t') (uncache_hit cur rest k t e) ∙ b
          | inr e ↦
              ap (λ r. checkcookie r.1 k' t') (uncache_miss cur rest k t e)
              ∙ check_miss cur (uncachecookie rest k t).1 k' t' f
              ∙ uncache_absent rest k t k' t' b
        ])
]

-- The key itself is gone.
pub uncache_gone :
    (l : List Cookie) (k : List ℕ) (t : ℕ)
    → IsMap l
    → checkcookie (uncachecookie l k t).1 k t ≡ none
uncache_gone [] k t m = unfold uncachecookie checkcookie in refl
uncache_gone (cur ∷ rest) k t (a, u, m) = elim (Bool-cases (is_cookie cur k t)) [
  | inl e ↦
      ap (λ r. checkcookie r.1 k t) (uncache_hit cur rest k t e)
      ∙ check_same rest k t cur.cookie cur.type (turned (is_cookie→SameKey cur k t e))
      ∙ u
  | inr e ↦
      ap (λ r. checkcookie r.1 k t) (uncache_miss cur rest k t e)
      ∙ check_miss cur (uncachecookie rest k t).1 k t e
      ∙ uncache_gone rest k t m
]
  where
    turned : SameKey cur.cookie cur.type k t → SameKey k t cur.cookie cur.type
    turned (e, f) = (sym e, sym f)

pub uncache-IsMap : (l : List Cookie) (k : List ℕ) (t : ℕ) → IsMap l → IsMap (uncachecookie l k t).1
uncache-IsMap [] k t m = unfold uncachecookie in m
uncache-IsMap (cur ∷ rest) k t (a, u, m) = elim (Bool-cases (is_cookie cur k t)) [
  | inl e ↦ subst (λ r. IsMap r.1) (sym (uncache_hit cur rest k t e)) m
  | inr e ↦
      subst (λ r. IsMap r.1) (sym (uncache_miss cur rest k t e))
        (
          uncache-All (λ c. c.addr ≢ cur.addr) rest k t a,
          uncache_absent rest k t cur.cookie cur.type u,
          uncache-IsMap rest k t m,
        )
]

-- On a list without doubles, aim_uncachecookie returns the cookie that aim_checkcookie finds, and
-- then this key has none; every other key has the cookie that it had, and there are
-- no doubles.
pub uncachecookie-IsMap :
    (msgcookies : List Cookie) (cookie : List ℕ) (type : ℕ) (other : List ℕ) (other_type : ℕ)
    → IsMap msgcookies
    → ¬ SameKey cookie type other other_type
    → ((uncachecookie msgcookies cookie type).0 ≡ checkcookie msgcookies cookie type)
      × (checkcookie (uncachecookie msgcookies cookie type).1 cookie type ≡ none)
      × (checkcookie (uncachecookie msgcookies cookie type).1 other other_type
          ≡ checkcookie msgcookies other other_type)
      × IsMap (uncachecookie msgcookies cookie type).1
uncachecookie-IsMap l k t k' t' m n =
    (uncache_found l k t, uncache_gone l k t m, uncache_other l k t k' t' n, uncache-IsMap l k t m)
