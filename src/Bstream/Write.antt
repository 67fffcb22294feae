-- ===== src/Bstream/Write.antt =====
-- The put functions of bstream.c: what they append, and that the get functions read it back.
use irssi_icq.Base.{
  subst, take, length-take, ltb→lt, patch, ℕ, ◌+◌, ◌-◌, ◌%◌, ◌^◌, ◌≤◌, ◌<◌, ◌≡◌, refl, List, ◌++◌,
  arith, length, drop, le→ltb_false, ltb, false, All, if◌then◌else◌, inl, inr, ◌⊎◌, Bool-cases,
  ltb_false→le, [], ◌∷◌, ap,
}
use irssi_icq.Word
use irssi_icq.Word.RoundTrip.{
  IsByte, put8-IsByte, put16-IsByte, put32-IsByte, putle8-IsByte, putle16-IsByte, putle32-IsByte,
  length-put8, length-put16, length-put32, length-putle8, length-putle16, length-putle32,
}
use irssi_icq.Base.Patch.{All-take}
use irssi_icq.Bstream.{
  putraw, putbs, moved, Bstream, empty, curpos, setpos, store, get8, get16, get32, getle8, getle16,
  getle32, put8, put16, put32, putle8, putle16, putle32,
}
use irssi_icq.Bstream.View.{
  length-pending, pending-IsByte, moved-IsValid, IsValid, written, pending, store-IsValid,
  written-store, pending-store, stored_at,
}

-- The outcome of writing `vs`: where there is room it is appended to what was written, and the
-- result is `ret`; otherwise the result is 0 and the stream is as before.
abbrev pub Puts : ℕ → List ℕ → Bstream → ℕ × Bstream → Type 0
Puts ret vs s (r, s') =
    ((length vs ≤ empty s)
      × (r ≡ ret)
      × IsValid s'
      × (written s' ≡ written s ++ vs)
      × (pending s' ≡ drop (length vs) (pending s))
      × (s'.len ≡ s.len))
    ⊎ ((empty s < length vs) × (r ≡ 0) × (s' ≡ s))

put_guarded :
    (ret n : ℕ) (vs : List ℕ) (s : Bstream)
    → IsValid s
    → length vs ≡ n
    → All IsByte vs
    → Puts ret vs s (if ltb (empty s) n then (0, s) else (ret, store s vs))
put_guarded ret n vs s v hn hb = elim (Bool-cases (ltb (empty s) n)) [
  | inl full ↦ rw full (inr (omega (arith, hn, ltb→lt (empty s) n full), refl, refl))
  | inr fits ↦
      let room : length vs ≤ empty s = omega (arith, hn, ltb_false→le (empty s) n fits) in
      rw fits (
        inl (
          room,
          refl,
          store-IsValid s vs v room hb,
          written-store s vs v room,
          pending-store s vs v room,
          refl,
        ))
]

pub put8-Puts : (s : Bstream) (x : ℕ) → IsValid s → Puts 1 (Word.put8 x) s (put8 s x)
unfolding put8
put8-Puts s x v = put_guarded 1 1 (Word.put8 x) s v (length-put8 x) (put8-IsByte x)

pub put16-Puts : (s : Bstream) (x : ℕ) → IsValid s → Puts 2 (Word.put16 x) s (put16 s x)
unfolding put16
put16-Puts s x v = put_guarded 2 2 (Word.put16 x) s v (length-put16 x) (put16-IsByte x)

pub put32-Puts : (s : Bstream) (x : ℕ) → IsValid s → Puts 1 (Word.put32 x) s (put32 s x)
unfolding put32
put32-Puts s x v = put_guarded 1 4 (Word.put32 x) s v (length-put32 x) (put32-IsByte x)

pub putle8-Puts : (s : Bstream) (x : ℕ) → IsValid s → Puts 1 (Word.putle8 x) s (putle8 s x)
unfolding putle8
putle8-Puts s x v = put_guarded 1 1 (Word.putle8 x) s v (length-putle8 x) (putle8-IsByte x)

pub putle16-Puts : (s : Bstream) (x : ℕ) → IsValid s → Puts 2 (Word.putle16 x) s (putle16 s x)
unfolding putle16
putle16-Puts s x v = put_guarded 2 2 (Word.putle16 x) s v (length-putle16 x) (putle16-IsByte x)

pub putle32-Puts : (s : Bstream) (x : ℕ) → IsValid s → Puts 1 (Word.putle32 x) s (putle32 s x)
unfolding putle32
putle32-Puts s x v = put_guarded 1 4 (Word.putle32 x) s v (length-putle32 x) (putle32-IsByte x)

-- Each of the six put functions of bstream.c either appends the bytes of its number, of its width
-- and byte order, to what was written, or, where these do not fit, returns 0 and changes nothing.
-- The stream stays valid. The result of a 16-bit write is 2, that of every other write 1.
pub put-Puts :
    (s : Bstream) (x : ℕ)
    → IsValid s
    → Puts 1 (Word.put8 x) s (put8 s x)
      × Puts 2 (Word.put16 x) s (put16 s x)
      × Puts 1 (Word.put32 x) s (put32 s x)
      × Puts 1 (Word.putle8 x) s (putle8 s x)
      × Puts 2 (Word.putle16 x) s (putle16 s x)
      × Puts 1 (Word.putle32 x) s (putle32 s x)
put-Puts s x v = (
  put8-Puts s x v,
  put16-Puts s x v,
  put32-Puts s x v,
  putle8-Puts s x v,
  putle16-Puts s x v,
  putle32-Puts s x v,
)

-- The stream after a write, with the cursor set back to where it was.
abbrev pub back : Bstream → ℕ × Bstream → Bstream
back s (r, s') = (setpos s' (curpos s)).1

back_cursor : (n k : ℕ) → n + k - k ≡ n
back_cursor n k = omega arith

module _ (s : Bstream) (x : ℕ) (v : IsValid s) (room : 4 ≤ empty s) where
  at_back : List ℕ → Bstream
  at_back vs = record s { bytes = patch s.offset vs s.bytes }

  stored_back :
      (ret n : ℕ) (vs : List ℕ)
      → n ≤ 4
      → back s (if ltb (empty s) n then (0, s) else (ret, store s vs)) ≡ at_back vs
  unfolding setpos curpos at_back
  stored_back ret n vs h =
      rw (le→ltb_false (empty s) n (omega (arith, h, room)))
        (rw (le→ltb_false s.len s.offset v.within, back))

  fits : (n : ℕ) → n ≤ 4 → ltb (empty s) n ≡ false
  fits n h = le→ltb_false (empty s) n (omega (arith, h, room))

  get8-put8 : (get8 (back s (put8 s x))).0 ≡ x % 2 ^ 8
  unfolding get8 put8 at_back
  get8-put8 = rw (stored_back 1 1 (Word.put8 x) (omega arith)) (
      rw (fits 1 (omega arith), back_cursor s.offset 1)
        (Word.RoundTrip.get8-put8 s.offset _ x _
          (stored_at s (Word.put8 x) v (omega (arith, length-put8 x, room)))))

  get16-put16 : (get16 (back s (put16 s x))).0 ≡ x % 2 ^ 16
  unfolding get16 put16 at_back
  get16-put16 = rw (stored_back 2 2 (Word.put16 x) (omega arith)) (
      rw (fits 2 (omega arith), back_cursor s.offset 2)
        (Word.RoundTrip.get16-put16 s.offset _ x _
          (stored_at s (Word.put16 x) v (omega (arith, length-put16 x, room)))))

  get32-put32 : (get32 (back s (put32 s x))).0 ≡ x % 2 ^ 32
  unfolding get32 put32 at_back
  get32-put32 = rw (stored_back 1 4 (Word.put32 x) (omega arith)) (
      rw (fits 4 (omega arith), back_cursor s.offset 4)
        (Word.RoundTrip.get32-put32 s.offset _ x _
          (stored_at s (Word.put32 x) v (omega (arith, length-put32 x, room)))))

  getle8-putle8 : (getle8 (back s (putle8 s x))).0 ≡ x % 2 ^ 8
  unfolding getle8 putle8 at_back
  getle8-putle8 = rw (stored_back 1 1 (Word.putle8 x) (omega arith)) (
      rw (fits 1 (omega arith), back_cursor s.offset 1)
        (Word.RoundTrip.getle8-putle8 s.offset _ x _
          (stored_at s (Word.putle8 x) v (omega (arith, length-putle8 x, room)))))

  getle16-putle16 : (getle16 (back s (putle16 s x))).0 ≡ x % 2 ^ 16
  unfolding getle16 putle16 at_back
  getle16-putle16 = rw (stored_back 2 2 (Word.putle16 x) (omega arith)) (
      rw (fits 2 (omega arith), back_cursor s.offset 2)
        (Word.RoundTrip.getle16-putle16 s.offset _ x _
          (stored_at s (Word.putle16 x) v (omega (arith, length-putle16 x, room)))))

  getle32-putle32 : (getle32 (back s (putle32 s x))).0 ≡ x % 2 ^ 32
  unfolding getle32 putle32 at_back
  getle32-putle32 = rw (stored_back 1 4 (Word.putle32 x) (omega arith)) (
      rw (fits 4 (omega arith), back_cursor s.offset 4)
        (Word.RoundTrip.getle32-putle32 s.offset _ x _
          (stored_at s (Word.putle32 x) v (omega (arith, length-putle32 x, room)))))

-- With four bytes of room, each put function followed by a step back and the get function of the
-- same width and byte order gives the number, reduced to that width.
pub get-put :
    (s : Bstream) (x : ℕ)
    → IsValid s
    → 4 ≤ empty s
    → ((get8 (back s (put8 s x))).0 ≡ x % 2 ^ 8)
      × ((get16 (back s (put16 s x))).0 ≡ x % 2 ^ 16)
      × ((get32 (back s (put32 s x))).0 ≡ x % 2 ^ 32)
      × ((getle8 (back s (putle8 s x))).0 ≡ x % 2 ^ 8)
      × ((getle16 (back s (putle16 s x))).0 ≡ x % 2 ^ 16)
      × ((getle32 (back s (putle32 s x))).0 ≡ x % 2 ^ 32)
get-put s x v room = (
  get8-put8 s x v room,
  get16-put16 s x v room,
  get32-put32 s x v room,
  getle8-putle8 s x v room,
  getle16-putle16 s x v room,
  getle32-putle32 s x v room,
)

take_room : (n : ℕ) (l : List ℕ) → n ≤ length l → length (take n l) ≡ n
take_room n l h = omega (arith, length-take n l)

-- aimbs_putraw appends the first `n` bytes of `x`, where these exist and there is room.
pub putraw-Puts :
    (s : Bstream) (x : List ℕ)
    → IsValid s
    → All IsByte x
    → Puts (length x) x s (putraw s x (length x))
unfolding putraw
putraw-Puts s x v h = rw (take_all x) (put_guarded (length x) (length x) x s v refl h)
  where
    take_all : (l : List ℕ) → take (length l) l ≡ l
    take_all [] = refl
    take_all (a ∷ l) = ap (◌∷◌ a) (take_all l)

-- aimbs_putbs moves the next `n` bytes of `src` behind what was written to `s`, and steps over them
-- in `src`, if `src` has so many left and `s` has room for them; otherwise it returns 0 and changes
-- neither stream. Both stay valid.
pub putbs_lem :
    (s src : Bstream) (n : ℕ)
    → IsValid s
    → IsValid src
    → ((n ≤ empty src)
        × (n ≤ empty s)
        × ((putbs s src n).0 ≡ n)
        × IsValid (putbs s src n).1
        × (written (putbs s src n).1 ≡ written s ++ take n (pending src))
        × ((putbs s src n).2 ≡ moved src n)
        × IsValid (putbs s src n).2)
      ⊎ (((empty src < n) ⊎ (empty s < n)) × (putbs s src n ≡ (0, s, src)))
unfolding putbs
putbs_lem s src n v w = elim (Bool-cases (ltb (empty src) n)) [
  | inl dry ↦ rw dry (inr (inl (ltb→lt (empty src) n dry), refl))
  | inr more ↦ elim (Bool-cases (ltb (empty s) n)) [
    | inl full ↦ rw (more, full) (inr (inr (ltb→lt (empty s) n full), refl))
    | inr fits ↦
        let enough : n ≤ empty src = ltb_false→le (empty src) n more in
        let vs : List ℕ = take n (pending src) in
        let count : length vs ≡ n =
          take_room n (pending src) (omega (arith, enough, length-pending src w)) in
        let room : length vs ≤ empty s = omega (arith, count, ltb_false→le (empty s) n fits) in
        rw (more, fits)
          (inl (
            enough,
            ltb_false→le (empty s) n fits,
            refl,
            subst IsValid (landed count) (
                store-IsValid s vs v room (All-take IsByte n (pending src) (pending-IsByte src w))),
            subst (λ t. written t ≡ written s ++ vs) (landed count) (written-store s vs v room),
            refl,
            moved-IsValid src n w enough,
          ))
  ]
]
  where
    landed :
        length (take n (pending src)) ≡ n
        → store s (take n (pending src)) ≡ record s {
          bytes = patch s.offset (take n (pending src)) s.bytes;
          offset = s.offset + n;
        }
    landed e = λ i. record s {
      bytes = patch s.offset (take n (pending src)) s.bytes;
      offset = s.offset + e i;
    }
