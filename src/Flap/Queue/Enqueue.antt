-- ===== src/Flap/Queue/Enqueue.antt =====
-- txqueue.c: the two ways to hand a frame over, on the frame's connection and with its socket. A
-- function of the client's in their place (AIM_TX_USER) is not modelled.
use irssi_icq.Base.{
  ℕ, Option, none, some, List, [], ◌++◌, ◌≡◌, ◌⊎◌, ◌∙◌, ◌+◌, ◌%◌, ◌^◌, Bool, true, false, ◌==◌,
  ◌||◌, if◌then◌else◌, refl, ap, inl, inr, Bool-cases, if_true, if_false, arith,
}
use irssi_icq.Bstream
use irssi_icq.Ssi.Sync.Agree.{IsMemory}
use irssi_icq.Flap.{
  Conn, Frame, Queues, in_progress, frametype_flap, type_rendezvous, type_listener,
  get_next_txseqnum, sendframe_flap, tx_enqueue_queuebased, enqueue,
}
use irssi_icq.Flap.Bytes.{encode_frame}
use irssi_icq.Flap.Send.{IsSink, sendframe_flap-encode_frame}
use irssi_icq.Flap.Queue.{tx_sendframe}
use irssi_icq.Flap.Queue.Flush.{Sendable}

-- `sess->tx_enqueue`
pub data Enqueueing : Type 0 where
  queued immediate : Enqueueing

-- A new FLAP frame, with `datalen` bytes for the payload.
unfoldable pub tx_new : (ℕ → List ℕ) → Conn → ℕ → ℕ → Option Frame
tx_new mem conn chan datalen =
    if conn.type == type_rendezvous || conn.type == type_listener
    then none
    else some (record {
      hdrtype = frametype_flap;
      type = chan % 2 ^ 8;
      seqnum = 0;
      payload = (if datalen == 0 then Bstream.init [] 0 else Bstream.init (mem datalen) datalen);
      handled = 0;
      nofree = 0;
      conn = conn.addr;
    })

module _ {Socket : Type 0} (send : Socket → List ℕ → Option ℕ × Socket) where
  unfoldable pub tx_enqueue_immediate : (ℕ → List ℕ) → ℕ → Conn → Frame → Socket → Conn × Socket
  unfolding get_next_txseqnum tx_sendframe
  tx_enqueue_immediate mem now conn fr s =
      if fr.hdrtype == frametype_flap
      then (let (conn', seqnum) = get_next_txseqnum conn in
          let (ok, sent, conn'', s') =
            tx_sendframe send mem now conn' (record fr { seqnum = seqnum; handled = 0 }) s in
          (conn'', s'))
      else (let (ok, sent, conn'', s') =
            tx_sendframe send mem now conn (record fr { handled = 0 }) s in
          (conn'', s'))

  unfoldable pub tx_enqueue :
      Enqueueing → (ℕ → List ℕ) → ℕ → Conn → Queues → Frame → Socket → Conn × Queues × Socket
  unfolding tx_enqueue_queuebased tx_enqueue_immediate
  tx_enqueue mode mem now conn q fr s =
      let (conn', q') = tx_enqueue_queuebased conn q fr in
      if in_progress conn then (conn', q', s) else (elim mode [
        | queued ↦ (conn', q', s)
        | immediate ↦ (let (conn'', s') = tx_enqueue_immediate mem now conn fr s in (conn'', q, s'))
      ])

-- The frame as it leaves, with the number behind that of the last frame.
abbrev pub stamped : Conn → Frame → Frame
stamped conn fr = record fr { seqnum = (conn.seqnum + 1) % 2 ^ 16; handled = 0 }

-- The connection once it has stamped a frame.
abbrev pub counted : Conn → Conn
counted conn = record conn { seqnum = (conn.seqnum + 1) % 2 ^ 16 }

is_flap : (t : ℕ) → t ≡ frametype_flap → (t == frametype_flap) ≡ true
is_flap t e = ground (arith, e)

queuebased_lem :
    (conn : Conn) (q : Queues) (fr : Frame)
    → fr.hdrtype ≡ frametype_flap
    → tx_enqueue_queuebased conn q fr
      ≡ (counted conn, record q { outgoing = enqueue q.outgoing (stamped conn fr) })
queuebased_lem conn q fr flap =
    unfold tx_enqueue_queuebased in if_true _ _ (is_flap fr.hdrtype flap)

module _ {S : Type 0} (send : S → List ℕ → Option ℕ × S) where
  tx_sendframe_flap :
      (mem : ℕ → List ℕ) (now : ℕ) (conn : Conn) (fr : Frame) (s : S)
      → fr.hdrtype ≡ frametype_flap
      → tx_sendframe send mem now conn fr s ≡ sendframe_flap send mem now conn fr s
  tx_sendframe_flap mem now conn fr s flap =
      unfold tx_sendframe in if_true _ _ (is_flap fr.hdrtype flap)

  immediate_lem :
      (mem : ℕ → List ℕ) (now : ℕ) (conn : Conn) (fr : Frame) (s : S)
      → fr.hdrtype ≡ frametype_flap
      → tx_enqueue_immediate send mem now conn fr s
        ≡ (let r = tx_sendframe send mem now (counted conn) (stamped conn fr) s in (r.2, r.3))
  immediate_lem mem now conn fr s flap =
      unfold tx_enqueue_immediate in if_true _ _ (is_flap fr.hdrtype flap)

  waiting_lem :
      (mode : Enqueueing) (mem : ℕ → List ℕ) (now : ℕ) (conn : Conn) (q : Queues) (fr : Frame)
      (s : S)
      → (in_progress conn ≡ true) ⊎ (mode ≡ queued)
      → tx_enqueue send mode mem now conn q fr s
        ≡ (let r = tx_enqueue_queuebased conn q fr in (r.0, r.1, s))
  waiting_lem mode mem now conn q fr s (inl h) = unfold tx_enqueue in if_true _ _ h
  waiting_lem queued mem now conn q fr s (inr h) = unfold tx_enqueue in both (in_progress conn)
    where
      both : {A : Type 0} {a : A} (b : Bool) → (if b then a else a) ≡ a
      both true = refl
      both false = refl
  waiting_lem immediate mem now conn q fr s (inr h) = absurd (differ h)
    where
      differ : Path Enqueueing immediate queued → ⊥
      differ e = cc

  going_lem :
      (mem : ℕ → List ℕ) (now : ℕ) (conn : Conn) (q : Queues) (fr : Frame) (s : S)
      → in_progress conn ≡ false
      → tx_enqueue send immediate mem now conn q fr s
        ≡ (let r = tx_enqueue_immediate send mem now conn fr s in (r.0, q, r.1))
  going_lem mem now conn q fr s h = unfold tx_enqueue in if_false _ _ h

-- aim_tx_enqueue stamps a FLAP frame with the number behind the connection's, modulo 2 ^ 16, which the
-- connection keeps. If the connection is in progress, or frames are to be queued, the frame goes behind the outgoing queue
-- and nothing is sent; otherwise the header with that number and the payload are
-- sent at once, behind all that was sent before, and the queue is as it was.
pub tx_enqueue-stamped :
    {S : Type 0} (send : S → List ℕ → Option ℕ × S) (outgoing : S → List ℕ) (mode : Enqueueing)
    (mem : ℕ → List ℕ) (now : ℕ) (conn : Conn) (q : Queues) (fr : Frame) (s : S)
    → IsSink send outgoing
    → IsMemory mem
    → Sendable fr
    → (((in_progress conn ≡ true) ⊎ (mode ≡ queued))
        × (tx_enqueue send mode mem now conn q fr s
            ≡ (counted conn, record q { outgoing = enqueue q.outgoing (stamped conn fr) }, s)))
      ⊎ ((in_progress conn ≡ false)
          × (mode ≡ immediate)
          × ((s' : S) × (tx_enqueue send mode mem now conn q fr s
                ≡ (record (counted conn) { lastactivity = now }, q, s'))
              × (outgoing s' ≡ outgoing s ++ encode_frame (stamped conn fr))))
tx_enqueue-stamped {S = S} send outgoing mode mem now conn q fr s sink mm (flap, v) =
    elim (Bool-cases (in_progress conn)) [
      | inl h ↦ inl (inl h, waits mode (inl h))
      | inr h ↦ ready mode h
    ]
  where
    waits :
        (mode : Enqueueing)
        → (in_progress conn ≡ true) ⊎ (mode ≡ queued)
        → tx_enqueue send mode mem now conn q fr s
          ≡ (counted conn, record q { outgoing = enqueue q.outgoing (stamped conn fr) }, s)
    waits mode h =
        waiting_lem send mode mem now conn q fr s h
        ∙ ap (λ r. (r.0, r.1, s)) (queuebased_lem conn q fr flap)

    ready :
        (mode : Enqueueing)
        → in_progress conn ≡ false
        → (((in_progress conn ≡ true) ⊎ (mode ≡ queued))
            × (tx_enqueue send mode mem now conn q fr s
                ≡ (counted conn, record q { outgoing = enqueue q.outgoing (stamped conn fr) }, s)))
          ⊎ ((in_progress conn ≡ false)
              × (mode ≡ immediate)
              × ((s' : S) × (tx_enqueue send mode mem now conn q fr s
                    ≡ (record (counted conn) { lastactivity = now }, q, s'))
                  × (outgoing s' ≡ outgoing s ++ encode_frame (stamped conn fr))))
    ready queued h = inl (inr refl, waits queued (inr refl))
    ready immediate h =
        let (s', sent, out) =
          sendframe_flap-encode_frame send outgoing sink mem now (counted conn) (stamped conn fr) s
            mm v in
        inr (
          h,
          refl,
          (
            s',
            going_lem send mem now conn q fr s h
                ∙ ap (λ r. (r.0, q, r.1))
                    (immediate_lem send mem now conn fr s flap
                      ∙ ap (λ r. (r.2, r.3))
                          (tx_sendframe_flap send mem now (counted conn) (stamped conn fr) s flap
                            ∙ sent)),
            out,
          ),
        )
