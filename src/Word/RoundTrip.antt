-- ===== src/Word/RoundTrip.antt =====
-- The macros of aim.h read from a buffer that is known from a position on.
use irssi_icq.Base.{
  All, length, ℕ, suc, ◌+◌, ◌*◌, ◌%◌, ◌^◌, ◌<◌, ◌≡◌, List, ◌∷◌, ◌++◌, arith, drop, get_or,
  get_or-drop, drop-suc,
}
use irssi_icq.Word.{
  get8, get16, get32, put8, put16, put32, getle8, getle16, getle32, putle8, putle16, putle32,
}

abbrev pub IsByte : ℕ → Type 0
IsByte b = b < 256

get_or-drop_one :
    (n : ℕ) (buf : List ℕ) {a b : ℕ} {r : List ℕ}
    → drop n buf ≡ a ∷ b ∷ r
    → get_or buf (n + 1) 0 ≡ b
get_or-drop_one n buf e = rw suc_n (get_or-drop (suc n) buf 0 (drop-suc n buf e))
  where
    suc_n : n + 1 ≡ suc n
    suc_n = omega arith

get_or-drop_two :
    (n : ℕ) (buf : List ℕ) {a b c : ℕ} {r : List ℕ}
    → drop n buf ≡ a ∷ b ∷ c ∷ r
    → get_or buf (n + 2) 0 ≡ c
get_or-drop_two n buf e = rw suc_n (get_or-drop_one (suc n) buf (drop-suc n buf e))
  where
    suc_n : n + 2 ≡ suc n + 1
    suc_n = omega arith

get_or-drop_three :
    (n : ℕ) (buf : List ℕ) {a b c d : ℕ} {r : List ℕ}
    → drop n buf ≡ a ∷ b ∷ c ∷ d ∷ r
    → get_or buf (n + 3) 0 ≡ d
get_or-drop_three n buf e = rw suc_n (get_or-drop_two (suc n) buf (drop-suc n buf e))
  where
    suc_n : n + 3 ≡ suc n + 2
    suc_n = omega arith

module _ (n : ℕ) (buf : List ℕ) where
  pub get8-at : {a : ℕ} {r : List ℕ} → drop n buf ≡ a ∷ r → get8 buf n ≡ a % 256
  unfolding get8
  get8-at e = omega (arith, get_or-drop n buf 0 e)

  pub get16-at :
      {a b : ℕ} {r : List ℕ}
      → drop n buf ≡ a ∷ b ∷ r
      → a < 256
      → b < 256
      → get16 buf n ≡ a * 256 + b
  unfolding get16
  get16-at e ha hb = omega (arith, get_or-drop n buf 0 e, get_or-drop_one n buf e)

  pub get32-at :
      {a b c d : ℕ} {r : List ℕ}
      → drop n buf ≡ a ∷ b ∷ c ∷ d ∷ r
      → a < 256
      → b < 256
      → c < 256
      → d < 256
      → get32 buf n ≡ a * 2 ^ 24 + b * 2 ^ 16 + c * 256 + d
  unfolding get32
  get32-at e ha hb hc hd = omega (
    arith,
    get_or-drop n buf 0 e,
    get_or-drop_one n buf e,
    get_or-drop_two n buf e,
    get_or-drop_three n buf e,
  )

  -- What a put macro stored, the get macro of its width and byte order reads back.
  pub get8-put8 : (v : ℕ) (r : List ℕ) → drop n buf ≡ put8 v ++ r → get8 buf n ≡ v % 2 ^ 8
  unfolding put8
  get8-put8 v r e = omega (arith, get8-at e)

  pub get16-put16 : (v : ℕ) (r : List ℕ) → drop n buf ≡ put16 v ++ r → get16 buf n ≡ v % 2 ^ 16
  unfolding put16
  get16-put16 v r e = omega (arith, get16-at e (omega arith) (omega arith))

  pub get32-put32 : (v : ℕ) (r : List ℕ) → drop n buf ≡ put32 v ++ r → get32 buf n ≡ v % 2 ^ 32
  unfolding put32
  get32-put32 v r e =
      omega (arith, get32-at e (omega arith) (omega arith) (omega arith) (omega arith))

  pub getle8-putle8 : (v : ℕ) (r : List ℕ) → drop n buf ≡ putle8 v ++ r → getle8 buf n ≡ v % 2 ^ 8
  unfolding putle8 getle8
  getle8-putle8 v r e = omega (arith, get_or-drop n buf 0 e)

  pub getle16-putle16 :
      (v : ℕ) (r : List ℕ) → drop n buf ≡ putle16 v ++ r → getle16 buf n ≡ v % 2 ^ 16
  unfolding putle16 getle16
  getle16-putle16 v r e = omega (arith, get_or-drop n buf 0 e, get_or-drop_one n buf e)

  pub getle32-putle32 :
      (v : ℕ) (r : List ℕ) → drop n buf ≡ putle32 v ++ r → getle32 buf n ≡ v % 2 ^ 32
  unfolding putle32 getle32
  getle32-putle32 v r e = omega (
    arith,
    get_or-drop n buf 0 e,
    get_or-drop_one n buf e,
    get_or-drop_two n buf e,
    get_or-drop_three n buf e,
  )

pub put8-IsByte : (v : ℕ) → All IsByte (put8 v)
unfolding put8
put8-IsByte v = omega arith

pub length-put8 : (v : ℕ) → length (put8 v) ≡ 1
unfolding put8
length-put8 v = omega arith

pub put16-IsByte : (v : ℕ) → All IsByte (put16 v)
unfolding put16
put16-IsByte v = omega arith

pub length-put16 : (v : ℕ) → length (put16 v) ≡ 2
unfolding put16
length-put16 v = omega arith

pub put32-IsByte : (v : ℕ) → All IsByte (put32 v)
unfolding put32
put32-IsByte v = omega arith

pub length-put32 : (v : ℕ) → length (put32 v) ≡ 4
unfolding put32
length-put32 v = omega arith

pub putle8-IsByte : (v : ℕ) → All IsByte (putle8 v)
unfolding putle8
putle8-IsByte v = omega arith

pub length-putle8 : (v : ℕ) → length (putle8 v) ≡ 1
unfolding putle8
length-putle8 v = omega arith

pub putle16-IsByte : (v : ℕ) → All IsByte (putle16 v)
unfolding putle16
putle16-IsByte v = omega arith

pub length-putle16 : (v : ℕ) → length (putle16 v) ≡ 2
unfolding putle16
length-putle16 v = omega arith

pub putle32-IsByte : (v : ℕ) → All IsByte (putle32 v)
unfolding putle32
putle32-IsByte v = omega arith

pub length-putle32 : (v : ℕ) → length (putle32 v) ≡ 4
unfolding putle32
length-putle32 v = omega arith
