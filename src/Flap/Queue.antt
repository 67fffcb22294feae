-- ===== src/Flap/Queue.antt =====
-- txqueue.c and rxqueue.c: the queues of frames. The connections are a store, from the address of a
-- connection to the connection, and so are their sockets; `now` is the time of the whole run, in
-- which the call of sleep() changes nothing else.
pub mod Flush
pub mod Enqueue
use irssi_icq.Base.{
  ℕ, Option, List, [], ◌∷◌, ◌&&◌, Bool, true, false, not, ◌==◌, if◌then◌else◌, zero, suc,
}
use irssi_icq.Flap.{Conn, Frame, Queues, in_progress, frametype_flap, sendframe_flap}

-- aim_purge_rxqueue on the incoming frames, aim_tx_purgequeue on the outgoing ones.
unfoldable pub purge : List Frame → List Frame
purge [] = []
purge (cur ∷ rest) = if not (cur.handled == 0) then purge rest else cur ∷ purge rest

unfoldable pub rxqueue_cleanbyconn : ℕ → List Frame → List Frame
rxqueue_cleanbyconn conn [] = []
rxqueue_cleanbyconn conn (currx ∷ rest) =
    (if currx.handled == 0 && currx.conn == conn then record currx { handled = 1 } else currx)
    ∷ rxqueue_cleanbyconn conn rest

unfoldable pub tx_cleanqueue : ℕ → List Frame → List Frame
tx_cleanqueue conn [] = []
tx_cleanqueue conn (cur ∷ rest) =
    (if cur.conn == conn then record cur { handled = 1 } else cur) ∷ tx_cleanqueue conn rest

-- A store with another value at one address.
abbrev pub update {ℓ} : {A : Type ℓ} → (ℕ → A) → ℕ → A → ℕ → A
update store k v a = if a == k then v else store a

module _ {Socket : Type 0} (send : Socket → List ℕ → Option ℕ × Socket) where
  -- aim_tx_sendframe on a frame that is not of the type AIM_FRAMETYPE_OFT.
  unfoldable pub tx_sendframe :
      (ℕ → List ℕ) → ℕ → Conn → Frame → Socket → Bool × Frame × Conn × Socket
  unfolding sendframe_flap
  tx_sendframe mem now conn fr s =
      if fr.hdrtype == frametype_flap
      then sendframe_flap send mem now conn fr s
      else (false, fr, conn, s)

  -- A round of the loop of aim_tx_flushqueue.
  unfoldable pub flush_one :
      (ℕ → List ℕ) → ℕ → (ℕ → Conn) → (ℕ → Socket) → Frame → Frame × (ℕ → Conn) × (ℕ → Socket)
  unfolding tx_sendframe
  flush_one mem now conns socks cur =
      if not (cur.handled == 0)
      then (cur, conns, socks)
      else if in_progress (conns cur.conn)
      then (cur, conns, socks)
      else (let (ok, fr, conn, s) = tx_sendframe mem now (conns cur.conn) cur (socks cur.conn) in
          (fr, update conns cur.conn conn, update socks cur.conn s))

  unfoldable pub flush_loop :
      (ℕ → List ℕ)
      → ℕ
      → (ℕ → Conn)
      → (ℕ → Socket)
      → List Frame
      → List Frame × (ℕ → Conn) × (ℕ → Socket)
  unfolding flush_one
  flush_loop mem now conns socks [] = ([], conns, socks)
  flush_loop mem now conns socks (cur ∷ rest) =
      let (fr, conns', socks') = flush_one mem now conns socks cur in
      let (frs, conns'', socks'') = flush_loop mem now conns' socks' rest in
      (fr ∷ frs, conns'', socks'')

  unfoldable pub tx_flushqueue :
      (ℕ → List ℕ) → ℕ → (ℕ → Conn) → (ℕ → Socket) → Queues → Queues × (ℕ → Conn) × (ℕ → Socket)
  unfolding flush_loop purge
  tx_flushqueue mem now conns socks q =
      let (frs, conns', socks') = flush_loop mem now conns socks q.outgoing in
      (record q { outgoing = purge frs }, conns', socks')
