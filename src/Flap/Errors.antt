-- ===== src/Flap/Errors.antt =====
-- rxqueue.c: what does not arrive as a frame closes the connection.
use irssi_icq.Base.{
  Bool, ◌%◌, not, ℕ, Option, List, ◌<◌, ◌≤◌, length, ◌≡◌, ◌≢◌, ◌++◌, some, suc, [], none, zero, ◌∙◌,
  ◌-◌, sym, ◌==◌, ◌∷◌, arith, false, ap, refl, length-append, ◌⊎◌, inl, inr, ◌^◌, if◌then◌else◌,
}
use irssi_icq.Word
use irssi_icq.Bstream
use irssi_icq.Bstream.{Bstream}
use irssi_icq.Ssi.Sync.Agree.{IsMemory}
use irssi_icq.Flap.{
  recv_loop, aim_recv, Conn, Queues, failed, flap_header, conn_close, get_command_flap,
  bstream_recv, read_payload, get_command,
}
use irssi_icq.Flap.Receive.{
  IsSocket, after_recv, bstream_recv-fresh, bstream_recv_lem, recv_loop-round, positive,
}
use irssi_icq.Flap.Bytes.{encode_header}
use irssi_icq.Flap.RoundTrip.{
  IsOpen, after_header, after_header_lem, after_flap, after_flap_lem, after_payload,
  after_payload_lem, get_command_flap_lem,
}

-- Bytes that end within a header, or do not begin as a frame does, or end within a payload.
abbrev pub Unframed : List ℕ → Type 0
Unframed bytes =
    (length bytes < 6)
    ⊎ (((b : ℕ) × (h : List ℕ) × (rest : List ℕ) × (b < 256)
          × (b ≢ 0x2a)
          × (length h ≡ 5)
          × (bytes ≡ (b ∷ h) ++ rest))
        ⊎ ((t : ℕ) × (n : ℕ) × (l : ℕ) × (ps : List ℕ) × (t < 256)
            × (n < 2 ^ 16)
            × (l < 2 ^ 16)
            × (length ps < l)
            × (bytes ≡ encode_header t n l ++ ps)))

if_not {ℓ} : {A : Type ℓ} {c : Bool} (x y : A) → c ≡ false → (if not c then x else y) ≡ x
if_not x y e = ap (λ c. if not c then x else y) e

flap_header-other :
    (b : ℕ) (h : List ℕ)
    → b < 256
    → b ≢ 0x2a
    → flap_header (record { bytes = b ∷ h; len = 6; offset = 6 }) ≡ none
unfolding flap_header Bstream.rewind Bstream.setpos Bstream.get8 Bstream.empty Word.get8
flap_header-other b h byte other = if_not _ _ (differs b byte other)
  where
    differs : (b : ℕ) → b < 256 → b ≢ 0x2a → (b % 256 == 0x2a) ≡ false
    differs b byte other = ground (arith, byte, other)

module _ {S : Type 0} (recv : S → ℕ → Option (List ℕ) × S) where
  recv_loop-end :
      (rounds left : ℕ) (s : S) (got : List ℕ)
      → 0 < left
      → (recv s left).0 ≡ none
      → (recv_loop recv (suc rounds) s left got).0 ≡ none
  recv_loop-end rounds left s got l e =
      unfold recv_loop in rw (positive left l, recv_loop) (rw (e) refl)

  abbrev Fails : (ℕ → List ℕ) → ℕ → Conn → Queues → S → Type 0
  Fails mem now conn q s =
      (s' : S) × (get_command recv mem now conn q s ≡ (failed, conn_close conn, q, s'))

  module _ (incoming : S → List ℕ) (sock : IsSocket recv incoming) where
    -- Fewer bytes than asked for.
    recv_loop-short :
        (rounds left : ℕ) (s : S) (got : List ℕ) (xs : List ℕ)
        → left ≤ rounds
        → incoming s ≡ xs
        → length xs < left
        → (recv_loop recv rounds s left got).0 ≡ none
    recv_loop-short zero left s got xs h e l = absurd (omega arith)
    recv_loop-short (suc rounds) left s got [] h e l =
        recv_loop-end rounds left s got l (sock.ends s left e)
    recv_loop-short (suc rounds) left s got (x ∷ xs) h e l =
        let (bytes, got_them, some_bytes, few, front) =
          sock.delivers s left (omega arith) (omega (arith, ap length e)) in
        let next = (recv s left).1 in
        ap (λ r. r.0)
          (recv_loop-round recv rounds left s got bytes (omega arith) some_bytes got_them)
        ∙ recv_loop-short rounds (left - length bytes) next (got ++ bytes) (incoming next)
            (omega arith) refl
            (omega (arith, ap length e, ap length front, length-append bytes (incoming next)))

    bstream_recv-short :
        (conn : Conn) (fd : ℕ) (buf : List ℕ) (n : ℕ) (s : S)
        → conn.fd ≡ some fd
        → length (incoming s) < n
        → (bstream_recv recv (Bstream.init buf n) conn s n).0 ≡ none
    bstream_recv-short conn fd buf n s f l =
        ap (λ r. r.0) (bstream_recv-fresh recv conn fd buf n s f (omega arith))
        ∙ nothing (aim_recv recv s n)
            (unfold aim_recv in recv_loop-short n n s [] _ (omega arith) refl l)
      where
        nothing :
            (r : Option (List ℕ) × S)
            → r.0 ≡ none
            → (after_recv recv (Bstream.init buf n) n r).0 ≡ none
        nothing (none, s') e = refl
        nothing (some bytes, s') e = cc

    ended :
        (conn : Conn) (r : Option ℕ × Bstream × S)
        → r.0 ≡ none
        → after_header recv conn r ≡ (none, conn_close conn, r.2)
    ended conn (none, bs, s') e = refl
    ended conn (some n, bs, s') e = cc

    refused :
        (conn : Conn) (r : Option ℕ × Bstream × S) (xs : List ℕ) (s' : S)
        → r ≡ (some 6, record { bytes = xs; len = 6; offset = 6 }, s')
        → flap_header (record { bytes = xs; len = 6; offset = 6 }) ≡ none
        → after_header recv conn r ≡ (none, conn_close conn, r.2)
    refused conn r xs s' e f = ap (after_header recv conn) e ∙ rw f (rw e refl)

    cut :
        (now : ℕ) (conn : Conn) (q : Queues) (t n l : ℕ) (r : Option ℕ × Bstream × S)
        → r.0 ≡ none
        → after_payload recv now conn q t n l r ≡ (failed, conn_close conn, q, r.2)
    cut now conn q t n l (none, bs, s') e = refl
    cut now conn q t n l (some m, bs, s') e = cc

    header-Fails :
        (mem : ℕ → List ℕ) (now : ℕ) (conn : Conn) (q : Queues) (s s' : S)
        → IsOpen conn
        → get_command_flap recv mem conn s ≡ (none, conn_close conn, s')
        → Fails mem now conn q s
    header-Fails mem now conn q s s' o e = (
      s',
      after_flap_lem recv incoming sock mem now conn q s o
          ∙ ap (after_flap recv incoming sock mem now q) e
          ∙ closed s',
    )
      where
        closed :
            (s' : S)
            → read_payload recv mem now (conn_close conn) q 0 0 0xffff s'
              ≡ (failed, conn_close conn, q, s')
        closed s' = unfold read_payload bstream_recv conn_close in refl

    -- On an open connection, whose socket ends before a header is complete, or brings first another byte than 0x2a, or ends
    -- before the payload that the header announces is complete: aim_get_command fails, the
    -- connection is closed and has no handlers any more, and the queues are as they were.
    pub get_command-Fails :
        (mem : ℕ → List ℕ) (now : ℕ) (conn : Conn) (q : Queues) (s : S)
        → IsMemory mem
        → IsOpen conn
        → Unframed (incoming s)
        → (s' : S) × (get_command recv mem now conn q s ≡ (failed, conn_close conn, q, s'))
    get_command-Fails mem now conn q s mm o (inl short) = header-Fails mem now conn q s _ o (
        after_header_lem recv mem conn s
        ∙ ended conn _ (bstream_recv-short conn o.0 (mem 6) 6 s o.1 short))
    get_command-Fails mem now conn q s mm o (inr (inl (b, h, rest, byte, other, full, e))) =
        let (s', got, after) =
          bstream_recv_lem recv incoming sock conn o.0 (mem 6) s (b ∷ h) rest o.1
            ((mm 6).0 ∙ sym (ap suc full)) e in
        header-Fails mem now conn q s _ o (
          after_header_lem recv mem conn s
          ∙ refused conn _ (b ∷ h) s' (rw (ap suc full) at got) (flap_header-other b h byte other))
    get_command-Fails mem now conn q s mm o (inr (inr (t, n, l, ps, ht, hn, hl, few, e))) =
        let (s1, header, left) =
          get_command_flap_lem recv incoming sock mem conn o.0 s t n l ps mm o.1 ht hn hl e in
        (
          (bstream_recv recv (Bstream.init (mem l) l) conn s1 l).2,
          after_flap_lem recv incoming sock mem now conn q s o
              ∙ ap (after_flap recv incoming sock mem now q) header
              ∙ after_payload_lem recv mem now conn q t n l s1 (omega arith)
              ∙ cut now conn q t n l _ (
                  bstream_recv-short conn o.0 (mem l) l s1 o.1
                    (omega (arith, ap length left, few))),
        )
