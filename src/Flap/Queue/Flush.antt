-- ===== src/Flap/Queue/Flush.antt =====
-- txqueue.c: what aim_tx_flushqueue sends, and what it leaves in the queue.
use irssi_icq.Base.{
  ap₂, ==_iff, subst, ℕ, Option, List, [], ◌∷◌, ◌++◌, ◌≡◌, ◌∙◌, Bool, true, false, not, ◌==◌, ◌&&◌,
  if◌then◌else◌, refl, ap, All, arith, Bool-cases, inl, inr, append_assoc, append-nil, sym, if_true,
  if_false,
}
use irssi_icq.Bstream.View.{IsValid}
use irssi_icq.Ssi.Sync.Agree.{IsMemory}
use irssi_icq.Flap.{Conn, Frame, Queues, in_progress, frametype_flap, sendframe_flap}
use irssi_icq.Flap.Bytes.{encode_frame}
use irssi_icq.Flap.Send.{IsSink, sendframe_flap-encode_frame}
use irssi_icq.Flap.Queue.{purge, update, tx_sendframe, flush_one, flush_loop, tx_flushqueue}

abbrev applied :
    {S : Type 0} → (ℕ → Conn) → (ℕ → S) → ℕ → Bool × Frame × Conn × S → Frame × (ℕ → Conn) × (ℕ → S)
applied conns socks k r = (r.1, update conns k r.2, update socks k r.3)

-- A frame that sendframe_flap can send.
abbrev pub Sendable : Frame → Type 0
Sendable fr = (fr.hdrtype ≡ frametype_flap) × IsValid fr.payload

module _ (busy : ℕ → Bool) where
  -- Whether the frame is to be sent: not handled, on a connection that is not busy.
  abbrev pub due : Frame → Bool
  due fr = fr.handled == 0 && not (busy fr.conn)

  -- What a flush sends on one connection.
  abbrev pub sent : ℕ → List Frame → List ℕ
  sent conn [] = []
  sent conn (fr ∷ rest) =
      (if due fr && conn == fr.conn then encode_frame fr else []) ++ sent conn rest

  -- What a flush leaves.
  abbrev pub kept : List Frame → List Frame
  kept [] = []
  kept (fr ∷ rest) = if fr.handled == 0 && busy fr.conn then fr ∷ kept rest else kept rest

module _ {S : Type 0} (send : S → List ℕ → Option ℕ × S) (outgoing : S → List ℕ)
    (sink : IsSink send outgoing) (mem : ℕ → List ℕ) (mm : IsMemory mem) (now : ℕ)
    (busy : ℕ → Bool) where
  -- What a round does: the frame that stays is in the queue after the purge or not, and on each
  -- connection the bytes sent are known.
  abbrev Round : (ℕ → S) → Frame → Frame × (ℕ → Conn) × (ℕ → S) → Type 0
  Round socks cur r =
      ((rest : List Frame)
        → purge (r.0 ∷ rest)
          ≡ (if cur.handled == 0 && busy cur.conn then cur ∷ purge rest else purge rest))
      × ((a : ℕ) → in_progress (r.1 a) ≡ busy a)
      × ((a : ℕ)
          → outgoing (r.2 a)
            ≡ outgoing (socks a)
              ++ (if due busy cur && a == cur.conn then encode_frame cur else []))

  module _ (conns : ℕ → Conn) (socks : ℕ → S) (cur : Frame)
      (b : (a : ℕ) → in_progress (conns a) ≡ busy a) where
    flush_one-handled :
        (cur.handled == 0) ≡ false → flush_one send mem now conns socks cur ≡ (cur, conns, socks)
    flush_one-handled h = unfold flush_one in if_true _ _ (ap not h)

    flush_one-busy :
        (cur.handled == 0) ≡ true
        → busy cur.conn ≡ true
        → flush_one send mem now conns socks cur ≡ (cur, conns, socks)
    flush_one-busy h w =
        unfold flush_one in (if_false _ _ (ap not h) ∙ if_true _ _ (b cur.conn ∙ w))

    flush_one-open :
        (cur.handled == 0) ≡ true
        → busy cur.conn ≡ false
        → flush_one send mem now conns socks cur
          ≡ applied conns socks cur.conn
              (tx_sendframe send mem now (conns cur.conn) cur (socks cur.conn))
    flush_one-open h w =
        unfold flush_one in (if_false _ _ (ap not h) ∙ if_false _ _ (b cur.conn ∙ w))

    tx_sendframe-flap :
        (conn : Conn) (s : S)
        → cur.hdrtype ≡ frametype_flap
        → tx_sendframe send mem now conn cur s ≡ sendframe_flap send mem now conn cur s
    tx_sendframe-flap conn s flap = unfold tx_sendframe in if_true _ _ (flap_type _ flap)
      where
        flap_type : (t : ℕ) → t ≡ frametype_flap → (t == frametype_flap) ≡ true
        flap_type t e = ground (arith, e)

    flush_one-due :
        (cur.handled == 0) ≡ true
        → busy cur.conn ≡ false
        → Sendable cur
        → (s : S) × (flush_one send mem now conns socks cur ≡ (
          record cur { handled = 1 },
          update conns cur.conn (record (conns cur.conn) { lastactivity = now }),
          update socks cur.conn s,
        ))
          × (outgoing s ≡ outgoing (socks cur.conn) ++ encode_frame cur)
    flush_one-due h w (flap, v) =
        let (s, e, out) =
          sendframe_flap-encode_frame send outgoing sink mem now (conns cur.conn) cur
            (socks cur.conn) mm v in
        (
          s,
          flush_one-open h w
              ∙ ap (applied conns socks cur.conn)
                  (tx_sendframe-flap (conns cur.conn) (socks cur.conn) flap ∙ e),
          out,
        )

  stays :
      {A : Type 0} (handled busy : Bool) (l m : A)
      → (handled && not busy) ≡ false
      → (if not handled then m else l) ≡ (if handled && busy then l else m)
  stays false busy l m h = refl
  stays true false l m h = cc
  stays true true l m h = refl

  skipped :
      (conns : ℕ → Conn) (socks : ℕ → S) (cur : Frame)
      → ((a : ℕ) → in_progress (conns a) ≡ busy a)
      → due busy cur ≡ false
      → Round socks cur (cur, conns, socks)
  skipped conns socks cur b h = (
    λ rest. unfold purge in stays (cur.handled == 0) (busy cur.conn) _ _ h,
    b,
    λ a. rw h (sym (append-nil _)),
  )

  update_busy :
      (conns : ℕ → Conn) (k a : ℕ)
      → ((a : ℕ) → in_progress (conns a) ≡ busy a)
      → in_progress (update conns k (record (conns k) { lastactivity = now }) a) ≡ busy a
  update_busy conns k a b = elim (Bool-cases (a == k)) [
    | inl e ↦ rw e (b k ∙ ap busy (sym ((==_iff a k).0 e)))
    | inr e ↦ rw e (b a)
  ]

  update_sent :
      (socks : ℕ → S) (cur : Frame) (s : S)
      → (cur.handled == 0) ≡ true
      → busy cur.conn ≡ false
      → outgoing s ≡ outgoing (socks cur.conn) ++ encode_frame cur
      → (a : ℕ)
      → outgoing (update socks cur.conn s a)
        ≡ outgoing (socks a) ++ (if due busy cur && a == cur.conn then encode_frame cur else [])
  update_sent socks cur s new ready out a = elim (Bool-cases (a == cur.conn)) [
    | inl e ↦
        rw (new, ready, e)
          (out ∙ ap (λ k. outgoing (socks k) ++ encode_frame cur) (sym ((==_iff a cur.conn).0 e)))
    | inr e ↦ rw (new, ready, e) (sym (append-nil _))
  ]

  flush_one_lem :
      (conns : ℕ → Conn) (socks : ℕ → S) (cur : Frame)
      → ((a : ℕ) → in_progress (conns a) ≡ busy a)
      → Sendable cur
      → Round socks cur (flush_one send mem now conns socks cur)
  unfolding purge
  flush_one_lem conns socks cur b ok = elim (Bool-cases (cur.handled == 0)) [
    | inl new ↦ elim (Bool-cases (busy cur.conn)) [
      | inl waits ↦
          subst (Round socks cur) (sym (flush_one-busy conns socks cur b new waits))
            (skipped conns socks cur b (ap₂ (λ x y. x && not y) new waits))
      | inr ready ↦
          (let (s, e, out) = flush_one-due conns socks cur b new ready ok in
            subst (Round socks cur) (sym e) (
              λ rest. sym (if_false _ _ (ap₂ ◌&&◌ new ready)),
              λ a. update_busy conns cur.conn a b,
              λ a. update_sent socks cur s new ready out a,
            ))
    ]
    | inr done ↦
        subst (Round socks cur) (sym (flush_one-handled conns socks cur b done))
          (skipped conns socks cur b (ap (λ x. x && not (busy cur.conn)) done))
  ]

  flush_loop_lem :
      (conns : ℕ → Conn) (socks : ℕ → S) (frs : List Frame)
      → ((a : ℕ) → in_progress (conns a) ≡ busy a)
      → All Sendable frs
      → (purge (flush_loop send mem now conns socks frs).0 ≡ kept busy frs)
        × ((a : ℕ)
            → outgoing ((flush_loop send mem now conns socks frs).2 a)
              ≡ outgoing (socks a) ++ sent busy a frs)
  unfolding flush_loop
  flush_loop_lem conns socks [] b ok = (unfold purge in refl, λ a. sym (append-nil _))
  flush_loop_lem conns socks (cur ∷ rest) b ok =
      let one = flush_one_lem conns socks cur b ok.0 in
      let r = flush_one send mem now conns socks cur in
      let more = flush_loop_lem r.1 r.2 rest one.1 ok.1 in
      (
        one.0 (flush_loop send mem now r.1 r.2 rest).0
            ∙ ap (λ l. if cur.handled == 0 && busy cur.conn then cur ∷ l else l) more.0,
        λ a.
            more.1 a
            ∙ ap (λ o. o ++ sent busy a rest) (one.2 a)
            ∙ append_assoc (outgoing (socks a))
                (if due busy cur && a == cur.conn then encode_frame cur else []) (sent busy a rest),
      )

-- A flush of frames that can be sent: what leaves on a connection that is connected is, behind what left
-- before, the frames of the queue for this connection that were not handled, each once and in the queue's order; a
-- connection in progress sends nothing; and in the queue stay, in their order, exactly the frames
-- that were not handled and wait for a connection in progress.
pub tx_flushqueue-sent :
    {S : Type 0} (send : S → List ℕ → Option ℕ × S) (outgoing : S → List ℕ) (mem : ℕ → List ℕ)
    (now : ℕ) (conns : ℕ → Conn) (socks : ℕ → S) (q : Queues)
    → IsSink send outgoing
    → IsMemory mem
    → All Sendable q.outgoing
    → ((tx_flushqueue send mem now conns socks q).0
        ≡ record q { outgoing = kept (λ a. in_progress (conns a)) q.outgoing })
      × ((conn : ℕ)
          → outgoing ((tx_flushqueue send mem now conns socks q).2 conn)
            ≡ outgoing (socks conn) ++ sent (λ a. in_progress (conns a)) conn q.outgoing)
unfolding tx_flushqueue
tx_flushqueue-sent send outgoing mem now conns socks q sink mm ok =
    let run =
      flush_loop_lem send outgoing sink mem mm now (λ a. in_progress (conns a)) conns socks
        q.outgoing (λ a. refl) ok in
    (ap (λ l. record q { outgoing = l }) run.0, run.1)
