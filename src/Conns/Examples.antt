-- ===== src/Conns/Examples.antt =====
-- The theorem on killed connections at a concrete session.
use irssi_icq.Base.{ℕ, List, [], ◌∷◌, true, false, ◌≡◌, All, refl, arith}
use irssi_icq.Flap.{Conn, Frame, Queues}
use irssi_icq.Flap.Queue.Flush.{sent}
use irssi_icq.Conns.{conn_kill, conn_getnext, conn_in_sess}
use irssi_icq.Conns.Kill.{Retired, conn_kill-Retired}

abbrev two : List Conn
two = conn_getnext (conn_getnext [] 5) 6

abbrev frame : Frame
frame = record {
  hdrtype = 0;
  type = 2;
  seqnum = 1;
  payload = record { bytes = []; len = 0; offset = 0 };
  handled = 0;
  nofree = 0;
  conn = 5;
}

abbrev queues : Queues
queues = record { incoming = frame ∷ []; outgoing = frame ∷ record frame { conn = 6 } ∷ [] }

two-has_five : conn_in_sess two 5 ≡ true
unfolding conn_in_sess conn_getnext
two-has_five = refl

conn_kill-Retired_example :
    All (Retired 5) (conn_kill two queues 5).1.incoming
    × All (Retired 5) (conn_kill two queues 5).1.outgoing
    × (sent (λ a. false) 5 (conn_kill two queues 5).1.outgoing ≡ [])
    × (sent (λ a. false) 6 (conn_kill two queues 5).1.outgoing
        ≡ sent (λ a. false) 6 queues.outgoing)
conn_kill-Retired_example = conn_kill-Retired two queues 5 (λ a. false) 6 two-has_five six_five
  where
    six_five : Path ℕ 6 5 → ⊥
    six_five e = omega (arith, e)
