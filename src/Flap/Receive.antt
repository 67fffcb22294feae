-- ===== src/Flap/Receive.antt =====
-- rxqueue.c: reading from a socket, whatever the sizes of the pieces that it delivers.
use irssi_icq.Base.{
  ℕ, Option, List, ◌<◌, ◌≤◌, length, ◌≡◌, ◌++◌, some, suc, [], none, zero, ◌∙◌, ◌-◌, sym,
  append-nil, ◌==◌, ◌∷◌, arith, false, ap, ap₂, refl, length-append, drop, drop-length,
  append_assoc, ltb, if◌then◌else◌,
}
use native.Mathlib.Nat.{zero-add}
use irssi_icq.Bstream
use irssi_icq.Bstream.{Bstream}
use irssi_icq.Flap.{Conn, recv_loop, aim_recv, bstream_recv, ℕ}

-- A socket whose bytes to come are `incoming`: a call delivers some of the next bytes, one at least and
-- no more than asked for, and fails only where none are left.
pub record IsSocket {S : Type 0} (recv : S → ℕ → Option (List ℕ) × S) (incoming : S → List ℕ)
    : Type 0 where
  pub delivers :
      (s : S) (n : ℕ)
      → 0 < n
      → 0 < length (incoming s)
      → (bytes : List ℕ) × ((recv s n).0 ≡ some bytes)
        × (0 < length bytes)
        × (length bytes ≤ n)
        × (incoming s ≡ bytes ++ incoming (recv s n).1)
  pub ends : (s : S) (n : ℕ) → incoming s ≡ [] → (recv s n).0 ≡ none

-- What is the front of a list, and no longer than another front of it, is the front of that.
append_split :
    (bytes xs rest more : List ℕ)
    → xs ++ rest ≡ bytes ++ more
    → length bytes ≤ length xs
    → (ys : List ℕ) × (xs ≡ bytes ++ ys) × (more ≡ ys ++ rest)
append_split [] xs rest more e h = (xs, refl, sym e)
append_split (b ∷ bytes) [] rest more e h = absurd (omega arith)
append_split (b ∷ bytes) (x ∷ xs) rest more e h =
    let tails : xs ++ rest ≡ bytes ++ more = cc in
    let heads : x ≡ b = cc in
    let (ys, front, back) = append_split bytes xs rest more tails (omega arith) in
    (ys, ap₂ ◌∷◌ heads front, back)

fill-store :
    (buf xs : List ℕ)
    → length buf ≡ length xs
    → Bstream.store (Bstream.init buf (length xs)) xs
      ≡ record { bytes = xs; len = length xs; offset = length xs }
unfolding Bstream.init
fill-store buf xs l =
    let e : drop (length xs) buf ≡ [] = rw (← l) (drop-length buf) in
    rw zero-add (rw e (rw append-nil refl))

pub positive : (n : ℕ) → 0 < n → (n == 0) ≡ false
positive n h = ground (arith, h)

fresh_room :
    (buf : List ℕ) (n : ℕ)
    → (if ltb (Bstream.empty (Bstream.init buf n)) n then Bstream.empty (Bstream.init buf n) else n)
      ≡ n
unfolding Bstream.empty Bstream.init
fresh_room buf n = ground arith

module _ {S : Type 0} (recv : S → ℕ → Option (List ℕ) × S) where
  pub recv_loop-round :
      (rounds left : ℕ) (s : S) (got bytes : List ℕ)
      → 0 < left
      → 0 < length bytes
      → (recv s left).0 ≡ some bytes
      → recv_loop recv (suc rounds) s left got
        ≡ recv_loop recv rounds (recv s left).1 (left - length bytes) (got ++ bytes)
  recv_loop-round rounds left s got bytes l b e =
      unfold recv_loop in
      rw (positive left l, recv_loop) (rw (e) (rw (positive (length bytes) b) refl))

  recv_loop-done :
      (rounds : ℕ) (s : S) (got : List ℕ) → recv_loop recv rounds s 0 got ≡ (some got, s)
  unfolding recv_loop
  recv_loop-done zero s got = refl
  recv_loop-done (suc rounds) s got = refl

  -- What aim_bstream_recv makes of the result of aim_recv.
  abbrev pub after_recv : Bstream → ℕ → Option (List ℕ) × S → Option ℕ × Bstream × S
  after_recv bs n (none, s') = (none, bs, s')
  after_recv bs n (some bytes, s') = (some n, Bstream.store bs bytes, s')

  after_recv_lem :
      (bs : Bstream) (n : ℕ) (r : Option (List ℕ) × S)
      → elim r.0 [ none ↦ (none, bs, r.1) | some bytes ↦ (some n, Bstream.store bs bytes, r.1) ]
        ≡ after_recv bs n r
  after_recv_lem bs n (none, s') = refl
  after_recv_lem bs n (some bytes, s') = refl

  aim_recv_is :
      (s : S) (n : ℕ) (r : Option (List ℕ) × S)
      → recv_loop recv n s n [] ≡ r
      → aim_recv recv s n ≡ r
  unfolding aim_recv
  aim_recv_is s n r e = e

  -- The body of aim_bstream_recv once the size is known.
  abbrev transfer : Bstream → S → ℕ → Option ℕ × Bstream × S
  transfer bs s n = if n == 0 then (some 0, bs, s) else (elim (aim_recv recv s n).0 [
    | none ↦ (none, bs, (aim_recv recv s n).1)
    | some bytes ↦ (some n, Bstream.store bs bytes, (aim_recv recv s n).1)
  ])

  transfer_lem :
      (bs : Bstream) (s : S) (n : ℕ) → 0 < n → transfer bs s n ≡ after_recv bs n (aim_recv recv s n)
  transfer_lem bs s n h = rw (positive n h) (after_recv_lem bs n (aim_recv recv s n))

  bstream_recv-open :
      (conn : Conn) (fd : ℕ) (bs : Bstream) (n : ℕ) (s : S)
      → conn.fd ≡ some fd
      → bstream_recv recv bs conn s n
        ≡ transfer bs s (if ltb (Bstream.empty bs) n then Bstream.empty bs else n)
  bstream_recv-open conn fd bs n s f = unfold bstream_recv in rw (f, bstream_recv) refl

  pub bstream_recv-fresh :
      (conn : Conn) (fd : ℕ) (buf : List ℕ) (n : ℕ) (s : S)
      → conn.fd ≡ some fd
      → 0 < n
      → bstream_recv recv (Bstream.init buf n) conn s n
        ≡ after_recv (Bstream.init buf n) n (aim_recv recv s n)
  bstream_recv-fresh conn fd buf n s f h =
      bstream_recv-open conn fd (Bstream.init buf n) n s f
      ∙ ap (transfer (Bstream.init buf n) s) (fresh_room buf n)
      ∙ transfer_lem (Bstream.init buf n) s n h

  module _ (incoming : S → List ℕ) (sock : IsSocket recv incoming) where
    -- The loop gets exactly the bytes asked for.
    recv_loop_lem :
        (rounds left : ℕ) (s : S) (got xs rest : List ℕ)
        → left ≤ rounds
        → length xs ≡ left
        → incoming s ≡ xs ++ rest
        → (s' : S) × (recv_loop recv rounds s left got ≡ (some (got ++ xs), s'))
          × (incoming s' ≡ rest)
    recv_loop_lem rounds left s got [] rest h l e =
        (s, rw (← l) (recv_loop-done rounds s got ∙ rw (append-nil) refl), e)
    recv_loop_lem zero left s got (x ∷ xs) rest h l e = absurd (omega arith)
    recv_loop_lem (suc rounds) left s got (x ∷ xs) rest h l e =
        let (bytes, got_them, some_bytes, few, front) =
          sock.delivers s left (omega arith) (omega (arith, ap length e)) in
        let (ys, parts, others) =
          append_split bytes (x ∷ xs) rest (incoming (recv s left).1) (sym e ∙ front)
            (omega arith) in
        let (s', more, after) =
          recv_loop_lem rounds (left - length bytes) (recv s left).1 (got ++ bytes) ys rest
            (omega arith) (omega (arith, ap length parts, length-append bytes ys)) others in
        let joined : (got ++ bytes) ++ ys ≡ got ++ (x ∷ xs) =
          append_assoc got bytes ys ∙ ap (◌++◌ got) (sym parts) in
        (
          s',
          recv_loop-round rounds left s got bytes (omega arith) some_bytes got_them
              ∙ rw (← joined) more,
          after,
        )

    -- aim_bstream_recv fills a stream that is at its start with as many bytes as it has room for.
    pub bstream_recv_lem :
        (conn : Conn) (fd : ℕ) (buf : List ℕ) (s : S) (xs rest : List ℕ)
        → conn.fd ≡ some fd
        → length buf ≡ length xs
        → incoming s ≡ xs ++ rest
        → (s' : S) × (bstream_recv recv (Bstream.init buf (length xs)) conn s (length xs)
            ≡ (some (length xs), record { bytes = xs; len = length xs; offset = length xs }, s'))
          × (incoming s' ≡ rest)
    bstream_recv_lem conn fd [] s [] rest f l e = (
      s,
      unfold bstream_recv in rw (f, bstream_recv) (unfold Bstream.init Bstream.empty in refl),
      e,
    )
    bstream_recv_lem conn fd [] s (x ∷ xs) rest f l e = absurd (omega arith)
    bstream_recv_lem conn fd (b ∷ buf) s [] rest f l e = absurd (omega arith)
    bstream_recv_lem conn fd (b ∷ buf) s (x ∷ xs) rest f l e =
        let n = length (x ∷ xs) in
        let (s', got, after) = recv_loop_lem n n s [] (x ∷ xs) rest (omega arith) refl e in
        (
          s',
          bstream_recv-fresh conn fd (b ∷ buf) n s f (omega arith)
              ∙ ap (after_recv (Bstream.init (b ∷ buf) n) n) (aim_recv_is s n _ got)
              ∙ ap (λ r. (some n, r, s')) (fill-store (b ∷ buf) (x ∷ xs) l),
          after,
        )
