-- ===== src/Flap/Send.antt =====
-- txqueue.c: sending to a socket, whatever the sizes of the pieces that it takes.
use irssi_icq.Base.{
  ==_refl, ℕ, Option, List, ◌<◌, ◌≤◌, ◌+◌, length, ◌≡◌, ◌++◌, some, suc, [], none, zero, ◌∙◌, ◌==◌,
  ◌∷◌, arith, false, true, Bool, ap, refl, length-drop, take, drop, append-nil, append_assoc,
  take-append-drop, ltb, if◌then◌else◌,
}
use native.Mathlib.Nat.{zero-add, add-zero}
use irssi_icq.Bstream
use irssi_icq.Bstream.{Bstream}
use irssi_icq.Bstream.View.{IsValid, written, length-written}
use irssi_icq.Ssi.Sync.Agree.{IsMemory}
use irssi_icq.Flap.{Conn, Frame, send_loop, bstream_send, sendframe_flap, flap_stream}
use irssi_icq.Flap.Receive.{positive}
use irssi_icq.Flap.Bytes.{encode_frame, rewind_lem, flap_stream_lem}

-- A socket that keeps what it took in `outgoing`: a call takes some of the next bytes, one at least.
pub record IsSink {S : Type 0} (send : S → List ℕ → Option ℕ × S) (outgoing : S → List ℕ)
    : Type 0 where
  pub takes :
      (s : S) (bytes : List ℕ)
      → 0 < length bytes
      → (n : ℕ) × ((send s bytes).0 ≡ some n)
        × (0 < n)
        × (n ≤ length bytes)
        × (outgoing (send s bytes).1 ≡ outgoing s ++ take n bytes)

room :
    (bs : Bstream)
    → IsValid bs
    → (if ltb (Bstream.empty (record bs { offset = 0 })) bs.offset
        then Bstream.empty (record bs { offset = 0 })
        else bs.offset)
      ≡ bs.offset
unfolding Bstream.empty
room bs v = ground (arith, v.within)

module _ {S : Type 0} (send : S → List ℕ → Option ℕ × S) where
  send_loop-round :
      (rounds : ℕ) (s : S) (b : ℕ) (left : List ℕ) (cur n : ℕ)
      → 0 < n
      → (send s (b ∷ left)).0 ≡ some n
      → send_loop send (suc rounds) s (b ∷ left) cur
        ≡ send_loop send rounds (send s (b ∷ left)).1 (drop n (b ∷ left)) (cur + n)
  send_loop-round rounds s b left cur n p e =
      unfold send_loop in rw (e, send_loop) (rw (positive n p) refl)

  send_loop-done : (rounds : ℕ) (s : S) (cur : ℕ) → send_loop send rounds s [] cur ≡ (some cur, s)
  unfolding send_loop
  send_loop-done zero s cur = refl
  send_loop-done (suc rounds) s cur = refl

  rewound :
      (bs : Bstream) (s : S)
      → IsValid bs
      → bstream_send send (record bs { offset = 0 }) s bs.offset
        ≡ send_loop send bs.offset s (written bs) 0
  unfolding bstream_send
  rewound bs s v = ap (λ n. send_loop send n s (take n bs.bytes) 0) (room bs v)

  -- The result of sendframe_flap, from that of aim_bstream_send.
  abbrev after_send : ℕ → Conn → Frame → ℕ → Option ℕ × S → Bool × Frame × Conn × S
  after_send now conn fr obslen r = (
    elim r.0 [ none ↦ false | some n ↦ n == obslen ],
    record fr { handled = 1 },
    record conn { lastactivity = now },
    r.1,
  )

  sendframe_flap-open :
      (mem : ℕ → List ℕ) (now : ℕ) (conn : Conn) (fr : Frame) (s : S)
      → sendframe_flap send mem now conn fr s ≡ (
          let obs = flap_stream mem fr in
          after_send now conn fr obs.offset (bstream_send send (Bstream.rewind obs) s obs.offset))
  unfolding sendframe_flap Bstream.curpos
  sendframe_flap-open mem now conn fr s = refl

  module _ (outgoing : S → List ℕ) (sink : IsSink send outgoing) where
    -- The loop sends all the bytes.
    send_loop_lem :
        (rounds : ℕ) (s : S) (left : List ℕ) (cur : ℕ)
        → length left ≤ rounds
        → (s' : S) × (send_loop send rounds s left cur ≡ (some (cur + length left), s'))
          × (outgoing s' ≡ outgoing s ++ left)
    send_loop_lem rounds s [] cur h = (s, rw add-zero (send_loop-done rounds s cur), rw append-nil)
    send_loop_lem zero s (b ∷ left) cur h = absurd (omega arith)
    send_loop_lem (suc rounds) s (b ∷ left) cur h =
        let (n, took, some_bytes, few, out) = sink.takes s (b ∷ left) (omega arith) in
        let (s', more, after) =
          send_loop_lem rounds (send s (b ∷ left)).1 (drop n (b ∷ left)) (cur + n)
            (omega (arith, length-drop n (b ∷ left))) in
        let all_sent : cur + n + length (drop n (b ∷ left)) ≡ cur + length (b ∷ left) =
          omega (arith, length-drop n (b ∷ left)) in
        (
          s',
          send_loop-round rounds s b left cur n some_bytes took ∙ (rw all_sent at more),
          after
              ∙ ap (λ o. o ++ drop n (b ∷ left)) out
              ∙ append_assoc (outgoing s) (take n (b ∷ left)) (drop n (b ∷ left))
              ∙ ap (◌++◌ (outgoing s)) (take-append-drop n (b ∷ left)),
        )

    -- A stream that is rewound sends what was written to it.
    bstream_send_lem :
        (bs : Bstream) (s : S)
        → IsValid bs
        → (s' : S) × (bstream_send send (Bstream.rewind bs) s bs.offset ≡ (some bs.offset, s'))
          × (outgoing s' ≡ outgoing s ++ written bs)
    bstream_send_lem bs s v =
        let (s', sent, after) =
          send_loop_lem bs.offset s (written bs) 0 (omega (arith, length-written bs v)) in
        (
          s',
          rw (rewind_lem bs) (rewound bs s v) ∙ (rw (zero-add, length-written bs v) at sent),
          after,
        )

    -- sendframe_flap succeeds: the socket takes the header and what was written to the payload,
    -- in this order and nothing else, in whatever pieces; the frame is handled, and the connection has the
    -- time of this.
    pub sendframe_flap-encode_frame :
        (mem : ℕ → List ℕ) (now : ℕ) (conn : Conn) (fr : Frame) (s : S)
        → IsMemory mem
        → IsValid fr.payload
        → (s' : S) × (sendframe_flap send mem now conn fr s
            ≡ (true, record fr { handled = 1 }, record conn { lastactivity = now }, s'))
          × (outgoing s' ≡ outgoing s ++ encode_frame fr)
    sendframe_flap-encode_frame mem now conn fr s mm v =
        let obs = flap_stream mem fr in
        let (valid, size, bytes) = flap_stream_lem mem fr mm v in
        let (s', sent, after) = bstream_send_lem obs s valid in
        (
          s',
          sendframe_flap-open mem now conn fr s
              ∙ ap (after_send now conn fr obs.offset) sent
              ∙ rw (==_refl obs.offset) refl,
          after ∙ ap (◌++◌ (outgoing s)) bytes,
        )
