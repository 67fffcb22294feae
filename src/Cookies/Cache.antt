-- ===== src/Cookies/Cache.antt =====
-- msgcookie.c: caching as an update of the map.
use irssi_icq.Base.{
  ℕ, List, [], ◌∷◌, Option, none, some, ◌≡◌, ◌≢◌, ◌∙◌, inl, inr, All, refl, ap, sym, subst,
  Bool-cases, Option-cases, if_true, if_false, ==_refl, ==_false,
}
use irssi_icq.Cookies.{Cookie, is_cookie, checkcookie, cookie_free, cachecookie, uncachecookie}
use irssi_icq.Cookies.Map.{
  SameKey, IsMap, SameKey→is_cookie, check_hit, check_miss, uncache_hit, uncache_miss, uncache_gone,
  uncache_other, uncache-IsMap, uncache-All, check-All, clash, other_miss,
}

free_skip :
    (cur : Cookie) (rest : List Cookie) (a : ℕ)
    → cur.addr ≢ a
    → cookie_free (cur ∷ rest) a ≡ cur ∷ cookie_free rest a
free_skip cur rest a n = unfold cookie_free in if_false _ _ (==_false cur.addr a n)

free_absent : (l : List Cookie) (a : ℕ) → All (λ c. c.addr ≢ a) l → cookie_free l a ≡ l
free_absent [] a h = unfold cookie_free in refl
free_absent (cur ∷ rest) a (n, h) = free_skip cur rest a n ∙ ap (◌∷◌ cur) (free_absent rest a h)

free_here :
    (cur : Cookie) (rest : List Cookie)
    → cookie_free (cur ∷ rest) cur.addr ≡ cookie_free rest cur.addr
free_here cur rest = unfold cookie_free in if_true _ _ (==_refl cur.addr)

-- To free the cookie that aim_checkcookie finds is to take it out.
free_found :
    (l : List Cookie) (k : List ℕ) (t : ℕ) (c : Cookie)
    → IsMap l
    → checkcookie l k t ≡ some c
    → cookie_free l c.addr ≡ (uncachecookie l k t).1
free_found [] k t c m e = absurd (unfold checkcookie in cc)
free_found (cur ∷ rest) k t c (a, u, m) e = elim (Bool-cases (is_cookie cur k t)) [
  | inl f ↦
      ap (λ x. cookie_free (cur ∷ rest) x.addr) (sym (same (sym (check_hit cur rest k t f) ∙ e)))
      ∙ free_here cur rest
      ∙ free_absent rest cur.addr a
      ∙ ap (λ r. r.1) (sym (uncache_hit cur rest k t f))
  | inr f ↦
      (let g : checkcookie rest k t ≡ some c = sym (check_miss cur rest k t f) ∙ e in
        free_skip cur rest c.addr (λ q. check-All (λ c. c.addr ≢ cur.addr) rest k t c a g (sym q))
        ∙ ap (◌∷◌ cur) (free_found rest k t c m g)
        ∙ ap (λ r. r.1) (sym (uncache_miss cur rest k t f)))
]
  where
    same : {x y : Cookie} → Path (Option Cookie) (some x) (some y) → x ≡ y
    same e = cc

uncache_none :
    (l : List Cookie) (k : List ℕ) (t : ℕ) → checkcookie l k t ≡ none → (uncachecookie l k t).1 ≡ l
uncache_none [] k t e = unfold uncachecookie in refl
uncache_none (cur ∷ rest) k t e = elim (Bool-cases (is_cookie cur k t)) [
  | inl f ↦ absurd (clash (sym (check_hit cur rest k t f) ∙ e))
  | inr f ↦
      ap (λ r. r.1) (uncache_miss cur rest k t f)
      ∙ ap (◌∷◌ cur) (uncache_none rest k t (sym (check_miss cur rest k t f) ∙ e))
]

cache_new :
    (now : ℕ) (l : List Cookie) (c : Cookie)
    → checkcookie l c.cookie c.type ≡ none
    → cachecookie now l c ≡ (0, record c { addtime = now } ∷ l)
cache_new now l c e = unfold cachecookie in rw (e, cachecookie) refl

cache_over :
    (now : ℕ) (l : List Cookie) (c n : Cookie)
    → checkcookie l c.cookie c.type ≡ some n
    → n.addr ≢ c.addr
    → cachecookie now l c ≡ (0, record c { addtime = now } ∷ cookie_free l n.addr)
cache_over now l c n e d =
    unfold cachecookie in rw (e, cachecookie) (if_false _ _ (==_false n.addr c.addr d))

-- A new cookie replaces the one of its key.
cachecookie_lem :
    (now : ℕ) (l : List Cookie) (c : Cookie)
    → IsMap l
    → All (λ x. x.addr ≢ c.addr) l
    → cachecookie now l c ≡ (0, record c { addtime = now } ∷ (uncachecookie l c.cookie c.type).1)
cachecookie_lem now l c m fresh = elim (Option-cases (checkcookie l c.cookie c.type)) [
  | inl e ↦
      cache_new now l c e
      ∙ ap (λ r. (0, record c { addtime = now } ∷ r)) (sym (uncache_none l c.cookie c.type e))
  | inr (n, e) ↦
      cache_over now l c n e (check-All (λ x. x.addr ≢ c.addr) l c.cookie c.type n fresh e)
      ∙ ap (λ r. (0, record c { addtime = now } ∷ r)) (free_found l c.cookie c.type n m e)
]

-- On a list without doubles, aim_cachecookie of a cookie that is not in the list itself says that it
-- was appended: afterwards its key has this cookie, stamped with the time, in place of any other; every other key has
-- the cookie that it had, and there are no doubles.
pub cachecookie-IsMap :
    (now : ℕ) (msgcookies : List Cookie) (cookie : Cookie) (other : List ℕ) (other_type : ℕ)
    → IsMap msgcookies
    → All (λ x. x.addr ≢ cookie.addr) msgcookies
    → ¬ SameKey cookie.cookie cookie.type other other_type
    → ((cachecookie now msgcookies cookie).0 ≡ 0)
      × (checkcookie (cachecookie now msgcookies cookie).1 cookie.cookie cookie.type
          ≡ some (record cookie { addtime = now }))
      × (checkcookie (cachecookie now msgcookies cookie).1 other other_type
          ≡ checkcookie msgcookies other other_type)
      × IsMap (cachecookie now msgcookies cookie).1
cachecookie-IsMap now l c k t m fresh n =
    let e = cachecookie_lem now l c m fresh in
    let new : Cookie = record c { addtime = now } in
    let rest : List Cookie = (uncachecookie l c.cookie c.type).1 in
    (
      ap (λ r. r.0) e,
      ap (λ r. checkcookie r.1 c.cookie c.type) e
          ∙ check_hit new rest c.cookie c.type (SameKey→is_cookie new c.cookie c.type (refl, refl)),
      ap (λ r. checkcookie r.1 k t) e
          ∙ check_miss new rest k t (
              other_miss new c.cookie c.type k t
                (SameKey→is_cookie new c.cookie c.type (refl, refl)) n)
          ∙ uncache_other l c.cookie c.type k t n,
      subst (λ r. IsMap r.1) (sym e)
          (
            uncache-All (λ x. x.addr ≢ c.addr) l c.cookie c.type fresh,
            uncache_gone l c.cookie c.type m,
            uncache-IsMap l c.cookie c.type m,
          ),
    )
