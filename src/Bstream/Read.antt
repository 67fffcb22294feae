-- ===== src/Bstream/Read.antt =====
-- The get functions of bstream.c as operations on the bytes to come.
use irssi_icq.Base.{
  ℕ, ◌+◌, ◌-◌, ◌*◌, ◌^◌, ◌≤◌, ◌<◌, ◌≡◌, refl, ap, ◌∙◌, List, [], ◌∷◌, arith, length, take, none,
  some, lt→ltb, le→ltb_false, ltb, true, false, length-take, All,
}
use irssi_icq.Word.RoundTrip.{get8-at, get16-at, get32-at, IsByte}
use irssi_icq.Bstream.{Bstream, empty, moved, get8, get16, get32, getrawbuf, getraw}
use irssi_icq.Bstream.View.{
  IsValid, pending, length-pending, pending-moved, moved-IsValid, pending-IsByte,
}

-- Big-endian numbers at the front of a list of bytes: 0, and nothing taken, where it is too short.
abbrev pub take8 : List ℕ → ℕ × List ℕ
take8 [] = (0, [])
take8 (a ∷ r) = (a, r)

abbrev pub take16 : List ℕ → ℕ × List ℕ
take16 [] = (0, [])
take16 (a ∷ []) = (0, a ∷ [])
take16 (a ∷ b ∷ r) = (a * 256 + b, r)

abbrev pub take32 : List ℕ → ℕ × List ℕ
take32 (a ∷ b ∷ c ∷ d ∷ r) = (a * 2 ^ 24 + b * 2 ^ 16 + c * 256 + d, r)
take32 l = (0, l)

-- A get function reads `f`: its result and the bytes then to come are those of `f`, and the stream
-- stays valid.
abbrev pub Reads : (List ℕ → ℕ × List ℕ) → Bstream → ℕ × Bstream → Type 0
Reads f s (v, s') =
    IsValid s' × (v ≡ (f (pending s)).0) × (pending s' ≡ (f (pending s)).1) × (s'.bytes ≡ s.bytes)

cursor_back : (n k : ℕ) → n + k - k ≡ n
cursor_back n k = omega arith

-- What the guard of a get function sees, from the bytes to come.
module _ (s : Bstream) (l : List ℕ) (e : pending s ≡ l) (v : IsValid s) where
  guard_short : (n : ℕ) → length l < n → ltb (empty s) n ≡ true
  guard_short n h = lt→ltb (empty s) n (omega (arith, h, ap length e, length-pending s v))

  guard_long : (n : ℕ) → n ≤ length l → ltb (empty s) n ≡ false
  guard_long n h = le→ltb_false (empty s) n (omega (arith, h, ap length e, length-pending s v))

  moved-IsValid_of : (n : ℕ) → n ≤ length l → IsValid (moved s n)
  moved-IsValid_of n h = moved-IsValid s n v (omega (arith, h, ap length e, length-pending s v))

  bytes_of : All IsByte l
  bytes_of = subst_bytes
    where
      subst_bytes : All IsByte l
      subst_bytes = rw e at (pending-IsByte s v)

get8_at_list : (s : Bstream) (l : List ℕ) → pending s ≡ l → IsValid s → Reads take8 s (get8 s)
unfolding get8
get8_at_list s [] e v = rw (guard_short s _ e v 1 (omega arith)) (v, rw e, rw e, refl)
get8_at_list s (a ∷ r) e v =
    rw (guard_long s _ e v 1 (omega arith), cursor_back s.offset 1)
      (
        moved-IsValid_of s _ e v 1 (omega arith),
        rw e (omega (arith, get8-at s.offset s.bytes e, bytes_of s _ e v)),
        pending-moved s 1 ∙ rw e,
        refl,
      )

get16_at_list : (s : Bstream) (l : List ℕ) → pending s ≡ l → IsValid s → Reads take16 s (get16 s)
unfolding get16
get16_at_list s [] e v = rw (guard_short s _ e v 2 (omega arith)) (v, rw e, rw e, refl)
get16_at_list s (a ∷ []) e v = rw (guard_short s _ e v 2 (omega arith)) (v, rw e, rw e, refl)
get16_at_list s (a ∷ b ∷ r) e v =
    let h : All IsByte (a ∷ b ∷ r) = bytes_of s _ e v in
    rw (guard_long s _ e v 2 (omega arith), cursor_back s.offset 2)
      (
        moved-IsValid_of s _ e v 2 (omega arith),
        rw e (get16-at s.offset s.bytes e h.0 h.1.0),
        pending-moved s 2 ∙ rw e,
        refl,
      )

get32_at_list : (s : Bstream) (l : List ℕ) → pending s ≡ l → IsValid s → Reads take32 s (get32 s)
unfolding get32
get32_at_list s [] e v = rw (guard_short s _ e v 4 (omega arith)) (v, rw e, rw e, refl)
get32_at_list s (a ∷ []) e v = rw (guard_short s _ e v 4 (omega arith)) (v, rw e, rw e, refl)
get32_at_list s (a ∷ b ∷ []) e v = rw (guard_short s _ e v 4 (omega arith)) (v, rw e, rw e, refl)
get32_at_list s (a ∷ b ∷ c ∷ []) e v =
    rw (guard_short s _ e v 4 (omega arith)) (v, rw e, rw e, refl)
get32_at_list s (a ∷ b ∷ c ∷ d ∷ r) e v =
    let h : All IsByte (a ∷ b ∷ c ∷ d ∷ r) = bytes_of s _ e v in
    rw (guard_long s _ e v 4 (omega arith), cursor_back s.offset 4)
      (
        moved-IsValid_of s _ e v 4 (omega arith),
        rw e (get32-at s.offset s.bytes e h.0 h.1.0 h.1.1.0 h.1.1.1.0),
        pending-moved s 4 ∙ rw e,
        refl,
      )

pub get8-Reads : (s : Bstream) → IsValid s → Reads take8 s (get8 s)
get8-Reads s v = get8_at_list s (pending s) refl v

pub get16-Reads : (s : Bstream) → IsValid s → Reads take16 s (get16 s)
get16-Reads s v = get16_at_list s (pending s) refl v

pub get32-Reads : (s : Bstream) → IsValid s → Reads take32 s (get32 s)
get32-Reads s v = get32_at_list s (pending s) refl v

-- On a valid stream aimbs_get8, aimbs_get16 and aimbs_get32 return the big-endian number at the
-- front of the bytes to come and take its bytes off; where too few bytes are left they return 0
-- and take nothing. The stream stays valid and its buffer is not written.
pub gets-Reads :
    (s : Bstream)
    → IsValid s
    → Reads take8 s (get8 s) × Reads take16 s (get16 s) × Reads take32 s (get32 s)
gets-Reads s v = (get8-Reads s v, get16-Reads s v, get32-Reads s v)

length-take_le : (n : ℕ) (l : List ℕ) → n ≤ length l → length (take n l) ≡ n
length-take_le n l h = omega (arith, length-take n l)

-- aimbs_getraw copies exactly the next `n` bytes if there are so many.
pub getraw-some :
    (s : Bstream) (n : ℕ) → n ≤ empty s → getraw s n ≡ (some (take n (pending s)), moved s n)
unfolding getraw
getraw-some s n h = rw (le→ltb_false (empty s) n h, getrawbuf, le→ltb_false n n (omega arith))

pub getraw-none : (s : Bstream) (n : ℕ) → empty s < n → getraw s n ≡ (none, s)
unfolding getraw
getraw-none s n h = rw (lt→ltb (empty s) n h, getrawbuf, lt→ltb 0 n (omega arith))
