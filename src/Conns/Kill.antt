-- ===== src/Conns/Kill.antt =====
-- conn.c: what a connection that is killed leaves in the queues.
use irssi_icq.Base.{
  ℕ, List, [], ◌∷◌, ◌++◌, Bool, true, false, ◌==◌, ◌&&◌, if◌then◌else◌, ◌≡◌, ◌≢◌, ◌⊎◌, ◌∙◌, inl,
  inr, All, refl, ap₂, sym, ==_iff, if_true, if_false, if_elim, ==_false,
}
use irssi_icq.Flap.{Conn, Frame, Queues}
use irssi_icq.Flap.Bytes.{encode_frame}
use irssi_icq.Flap.Queue.{rxqueue_cleanbyconn, tx_cleanqueue}
use irssi_icq.Flap.Queue.Flush.{due, sent}
use irssi_icq.Conns.{conn_in_sess, conn_kill, unlink}

-- A frame of another connection, or one that nobody looks at any more.
abbrev pub Retired : ℕ → Frame → Type 0
Retired addr fr = (fr.conn ≢ addr) ⊎ ((fr.handled == 0) ≡ false)

differs : (a b : ℕ) → (a == b) ≡ false → a ≢ b
differs a b h e = let t : (a == b) ≡ true = (==_iff a b).1 e in cc

and_false : (x y : Bool) → y ≡ false → (x && y) ≡ false
and_false true y e = e
and_false false y e = refl

rxqueue_cleanbyconn-Retired :
    (addr : ℕ) (frs : List Frame) → All (Retired addr) (rxqueue_cleanbyconn addr frs)
unfolding rxqueue_cleanbyconn
rxqueue_cleanbyconn-Retired addr [] = tt
rxqueue_cleanbyconn-Retired addr (cur ∷ rest) = (
  if_elim (Retired addr) (cur.handled == 0 && cur.conn == addr) _ _ (λ _. inr refl)
      (λ h. elsewise (cur.handled == 0) h),
  rxqueue_cleanbyconn-Retired addr rest,
)
  where
    elsewise : (b : Bool) → (b && cur.conn == addr) ≡ false → (cur.conn ≢ addr) ⊎ (b ≡ false)
    elsewise true h = inl (differs cur.conn addr h)
    elsewise false h = inr refl

tx_cleanqueue-Retired : (addr : ℕ) (frs : List Frame) → All (Retired addr) (tx_cleanqueue addr frs)
unfolding tx_cleanqueue
tx_cleanqueue-Retired addr [] = tt
tx_cleanqueue-Retired addr (cur ∷ rest) = (
  if_elim (Retired addr) (cur.conn == addr) _ _ (λ _. inr refl)
      (λ h. inl (differs cur.conn addr h)),
  tx_cleanqueue-Retired addr rest,
)

-- Nothing is due on a connection whose frames are retired.
sent-Retired :
    (busy : ℕ → Bool) (addr : ℕ) (frs : List Frame)
    → All (Retired addr) frs
    → sent busy addr frs ≡ []
sent-Retired busy addr [] r = refl
sent-Retired busy addr (cur ∷ rest) (one, more) =
    ap₂ ◌++◌ (if_false _ _ (idle one)) (sent-Retired busy addr rest more)
  where
    idle : Retired addr cur → (due busy cur && addr == cur.conn) ≡ false
    idle (inl n) = and_false _ _ (==_false addr cur.conn (λ e. n (sym e)))
    idle (inr h) = rw h refl

-- The frames of the other connections are due as before.
sent-tx_cleanqueue :
    (busy : ℕ → Bool) (addr other : ℕ) (frs : List Frame)
    → other ≢ addr
    → sent busy other (tx_cleanqueue addr frs) ≡ sent busy other frs
unfolding tx_cleanqueue
sent-tx_cleanqueue busy addr other [] n = refl
sent-tx_cleanqueue busy addr other (cur ∷ rest) n =
    ap₂ ◌++◌
      (if_elim
        (λ c.
          (if due busy c && other == c.conn then encode_frame c else [])
          ≡ (if due busy cur && other == cur.conn then encode_frame cur else []))
        (cur.conn == addr) _ _
        (λ h. sym (
          if_false _ _
            (and_false _ _ (==_false other cur.conn (λ e. n (e ∙ (==_iff cur.conn addr).0 h))))))
        (λ _. refl))
      (sent-tx_cleanqueue busy addr other rest n)

conn_kill-there :
    (connlist : List Conn) (q : Queues) (deadconn : ℕ)
    → conn_in_sess connlist deadconn ≡ true
    → conn_kill connlist q deadconn ≡ (
      unlink connlist deadconn,
      record q {
        incoming = rxqueue_cleanbyconn deadconn q.incoming;
        outgoing = tx_cleanqueue deadconn q.outgoing;
      },
    )
conn_kill-there connlist q deadconn h = unfold conn_kill in if_true _ _ h

-- aim_conn_kill on a connection of the session: every frame of this connection in either queue is
-- handled, so that it is neither dispatched nor sent; a flush sends nothing on the connection, and on
-- any other connection what it would have sent before.
pub conn_kill-Retired :
    (connlist : List Conn) (q : Queues) (deadconn : ℕ) (busy : ℕ → Bool) (other : ℕ)
    → conn_in_sess connlist deadconn ≡ true
    → other ≢ deadconn
    → All (Retired deadconn) (conn_kill connlist q deadconn).1.incoming
      × All (Retired deadconn) (conn_kill connlist q deadconn).1.outgoing
      × (sent busy deadconn (conn_kill connlist q deadconn).1.outgoing ≡ [])
      × (sent busy other (conn_kill connlist q deadconn).1.outgoing ≡ sent busy other q.outgoing)
conn_kill-Retired connlist q deadconn busy other h n = rw (conn_kill-there connlist q deadconn h) (
  rxqueue_cleanbyconn-Retired deadconn q.incoming,
  tx_cleanqueue-Retired deadconn q.outgoing,
  sent-Retired busy deadconn (tx_cleanqueue deadconn q.outgoing)
      (tx_cleanqueue-Retired deadconn q.outgoing),
  sent-tx_cleanqueue busy deadconn other q.outgoing n,
)
