-- ===== src/Flap/RoundTrip.antt =====
-- rxqueue.c: what aim_get_command makes of the bytes that sendframe_flap sent.
use irssi_icq.Base.{
  ◌≤◌, le→ltb_false, append_assoc, false, ◌==◌, refl, ℕ, Option, ◌<◌, ◌^◌, ◌≡◌, some, arith, List,
  ◌++◌, if◌then◌else◌, none, length, ◌∙◌, ◌∷◌, sym, ltb, ap, false, [], if_false,
}
use irssi_icq.Word
use irssi_icq.Bstream
use irssi_icq.Bstream.{Bstream}
use irssi_icq.Flap.Bytes.{encode_header, length-encode_header, encode_frame, rewind_lem}
use irssi_icq.Ssi.Sync.Agree.{IsMemory}
use irssi_icq.Bstream.View.{IsValid, written, length-written}
use irssi_icq.Flap.{
  type_rendezvous, type_listener, frametype_flap, in_progress, received, enqueue, Frame, Conn,
  Queues, Outcome, failed, below, deliver, flap_header, conn_close, get_command_flap, bstream_recv,
  read_payload, get_command,
}
use irssi_icq.Flap.Receive.{IsSocket, bstream_recv_lem, positive}

flap_header-encode :
    (t q n : ℕ)
    → t < 256
    → q < 2 ^ 16
    → n < 2 ^ 16
    → flap_header (record { bytes = encode_header t q n; len = 6; offset = 6 }) ≡ some (t, q, n)
unfolding flap_header Bstream.rewind Bstream.setpos Bstream.get8 Bstream.get16 Bstream.empty
    Word.get8 Word.get16 Word.put8 Word.put16
flap_header-encode t q n ht hq hn = fields (omega arith) (omega arith) (omega arith)
  where
    fields :
        {a b c a' b' c' : ℕ}
        → a ≡ a'
        → b ≡ b'
        → c ≡ c'
        → Path (Option (ℕ × ℕ × ℕ)) (some (a, b, c)) (some (a', b', c'))
    fields e f g = λ i. some (e i, f i, g i)

pub some_case {ℓ κ} :
    {A : Type ℓ} {B : Type κ} (o : Option A) {a : A} (b : B) (f : A → B)
    → o ≡ some a
    → elim o [ none ↦ b | some x ↦ f x ] ≡ f a
some_case o b f e = ap (λ o. elim o [ none ↦ b | some x ↦ f x ]) e

-- A connection that aim_get_command reads frames from.
abbrev pub IsOpen : Conn → Type 0
IsOpen conn =
    (fd : ℕ) × (conn.fd ≡ some fd)
    × (3 ≤ fd)
    × (in_progress conn ≡ false)
    × ((conn.type == type_listener) ≡ false)
    × ((conn.type == type_rendezvous) ≡ false)

-- A frame as it arrives on a connection.
abbrev pub arrived : ℕ → Frame → Frame
arrived addr fr = record {
  hdrtype = frametype_flap;
  type = fr.type;
  seqnum = fr.seqnum;
  payload = record { bytes = written fr.payload; len = fr.payload.offset; offset = 0 };
  handled = 0;
  nofree = 0;
  conn = addr;
}

module _ {S : Type 0} (recv : S → ℕ → Option (List ℕ) × S) where
  -- aim_get_command_flap and aim_get_command once bytes were received.
  abbrev pub after_header : Conn → Option ℕ × Bstream × S → Option (ℕ × ℕ × ℕ) × Conn × S
  after_header conn r =
      if below r.0 6 then (none, conn_close conn, r.2) else (elim (flap_header r.1) [
        | none ↦ (none, conn_close conn, r.2)
        | some fields ↦ (some fields, conn, r.2)
      ])

  pub after_header_lem :
      (mem : ℕ → List ℕ) (conn : Conn) (s : S)
      → get_command_flap recv mem conn s
        ≡ after_header conn (bstream_recv recv (Bstream.init (mem 6) 6) conn s 6)
  unfolding get_command_flap
  after_header_lem mem conn s = refl

  abbrev pub after_payload :
      ℕ → Conn → Queues → ℕ → ℕ → ℕ → Option ℕ × Bstream × S → Outcome × Conn × Queues × S
  after_payload now conn q type seqnum n r =
      if below r.0 n
      then (failed, conn_close conn, q, r.2)
      else deliver now conn q type seqnum r.1 r.2

  pub after_payload_lem :
      (mem : ℕ → List ℕ) (now : ℕ) (conn : Conn) (q : Queues) (type seqnum n : ℕ) (s : S)
      → 0 < n
      → read_payload recv mem now conn q type seqnum n s
        ≡ after_payload now conn q type seqnum n
            (bstream_recv recv (Bstream.init (mem n) n) conn s n)
  unfolding read_payload
  after_payload_lem mem now conn q type seqnum n s h = rw (positive n h, read_payload) refl

  module _ (incoming : S → List ℕ) (sock : IsSocket recv incoming) where
    -- A header at the front is taken.
    pub get_command_flap_lem :
        (mem : ℕ → List ℕ) (conn : Conn) (fd : ℕ) (s : S) (t q n : ℕ) (rest : List ℕ)
        → IsMemory mem
        → conn.fd ≡ some fd
        → t < 256
        → q < 2 ^ 16
        → n < 2 ^ 16
        → incoming s ≡ encode_header t q n ++ rest
        → (s' : S) × (get_command_flap recv mem conn s ≡ (some (t, q, n), conn, s'))
          × (incoming s' ≡ rest)
    get_command_flap_lem mem conn fd s t q n rest mm f ht hq hn e =
        let six = length-encode_header t q n in
        let (s', got, after) =
          bstream_recv_lem recv incoming sock conn fd (mem 6) s (encode_header t q n) rest f
            ((mm 6).0 ∙ sym six) e in
        (
          s',
          after_header_lem mem conn s
              ∙ ap (after_header conn) (rw six at got)
              ∙ rw (flap_header-encode t q n ht hq hn) refl,
          after,
        )

    -- A payload at the front is taken.
    read_payload_lem :
        (mem : ℕ → List ℕ) (now : ℕ) (conn : Conn) (q : Queues) (type seqnum fd : ℕ) (s : S)
        (ps rest : List ℕ)
        → IsMemory mem
        → conn.fd ≡ some fd
        → incoming s ≡ ps ++ rest
        → (s' : S) × (read_payload recv mem now conn q type seqnum (length ps) s
            ≡ deliver now conn q type seqnum
                (record { bytes = ps; len = length ps; offset = length ps })
                s')
          × (incoming s' ≡ rest)
    read_payload_lem mem now conn q type seqnum fd s [] rest mm f e =
        (s, unfold read_payload Bstream.init in refl, e)
    read_payload_lem mem now conn q type seqnum fd s (x ∷ xs) rest mm f e =
        let n = length (x ∷ xs) in
        let (s', got, after) =
          bstream_recv_lem recv incoming sock conn fd (mem n) s (x ∷ xs) rest f (mm n).0 e in
        (
          s',
          after_payload_lem mem now conn q type seqnum n s (omega arith)
              ∙ ap (after_payload now conn q type seqnum n) got
              ∙ rw (not_below n) refl,
          after,
        )
      where
        not_below : (n : ℕ) → ltb n n ≡ false
        not_below n = ground arith

    abbrev pub after_flap :
        (ℕ → List ℕ) → ℕ → Queues → Option (ℕ × ℕ × ℕ) × Conn × S → Outcome × Conn × Queues × S
    after_flap mem now q r = elim r.0 [
      | none ↦ read_payload recv mem now r.1 q 0 0 0xffff r.2
      | some (type, seqnum, payloadlen) ↦ read_payload recv mem now r.1 q type seqnum payloadlen r.2
    ]

    pub after_flap_lem :
        (mem : ℕ → List ℕ) (now : ℕ) (conn : Conn) (q : Queues) (s : S)
        → IsOpen conn
        → get_command recv mem now conn q s
          ≡ after_flap mem now q (get_command_flap recv mem conn s)
    after_flap_lem mem now conn q s (fd, f, low, ready, no_listener, flap) =
        unfold get_command in
        (some_case conn.fd _ _ f
          ∙ if_false _ _ (le→ltb_false fd 3 low)
          ∙ if_false _ _ ready
          ∙ if_false _ _ no_listener)

    -- An open connection whose next bytes are those of a frame, in whatever pieces they come: aim_get_command
    -- succeeds, takes these bytes and no more, and puts behind the queue a frame of the same
    -- channel and sequence number whose payload is, from its start, what was written to the payload.
    pub get_command-encode_frame :
        (mem : ℕ → List ℕ) (now : ℕ) (conn : Conn) (q : Queues) (fr : Frame) (s : S) (rest : List ℕ)
        → IsMemory mem
        → IsOpen conn
        → IsValid fr.payload
        → fr.type < 256
        → fr.seqnum < 2 ^ 16
        → fr.payload.offset < 2 ^ 16
        → incoming s ≡ encode_frame fr ++ rest
        → (s' : S) × (get_command recv mem now conn q s ≡ (
          received,
          record conn { lastactivity = now },
          record q { incoming = enqueue q.incoming (arrived conn.addr fr) },
          s',
        ))
          × (incoming s' ≡ rest)
    get_command-encode_frame mem now conn q fr s rest mm o v ht hq hn e =
        let ps = written fr.payload in
        let (s1, header, left) =
          get_command_flap_lem mem conn o.0 s fr.type fr.seqnum fr.payload.offset (ps ++ rest) mm
            o.1 ht hq hn
            (e ∙ append_assoc (encode_header fr.type fr.seqnum fr.payload.offset) ps rest) in
        let (s2, payload, after) =
          read_payload_lem mem now conn q fr.type fr.seqnum o.0 s1 ps rest mm o.1 left in
        (
          s2,
          after_flap_lem mem now conn q s o
              ∙ ap (after_flap mem now q) header
              ∙ (rw (length-written fr.payload v) at payload)
              ∙ rw
                  (rewind_lem (record {
                    bytes = written fr.payload;
                    len = fr.payload.offset;
                    offset = fr.payload.offset;
                  }))
                  refl,
          after,
        )
