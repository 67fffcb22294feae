-- ===== src/Conns.antt =====
-- irssi-icq/src/protocols/oscar/conn.c: the list of the connections of a session, and the groups of
-- families that each serves. A connection is known by its address. The sockets, the proxy, the
-- session's settings and the client's functions are not modelled, nor is what a chat connection
-- keeps.
pub mod Kill
mod Examples
use irssi_icq.Base.{
  ℕ, List, [], ◌∷◌, Option, none, some, Bool, true, false, ltb, ◌==◌, ◌&&◌, if◌then◌else◌, not,
}
use irssi_icq.Flap.{Conn, Queues, in_progress, conn_close}
use irssi_icq.Flap.Queue.{rxqueue_cleanbyconn, tx_cleanqueue}

unfoldable pub conn_addgroup : Conn → ℕ → Conn
conn_addgroup conn group = record conn { groups = group ∷ conn.groups }

-- The inner loop of aim_conn_findbygroup.
unfoldable pub serves : List ℕ → ℕ → Bool
serves [] group = false
serves (sg ∷ rest) group = if sg == group then true else serves rest group

unfoldable pub conn_findbygroup : List Conn → ℕ → Option Conn
unfolding serves
conn_findbygroup [] group = none
conn_findbygroup (cur ∷ rest) group =
    if serves cur.groups group then some cur else conn_findbygroup rest group

unfoldable pub getconn_type : List Conn → ℕ → Option Conn
getconn_type [] type = none
getconn_type (cur ∷ rest) type =
    if cur.type == type && not (in_progress cur) then some cur else getconn_type rest type

unfoldable pub getconn_type_all : List Conn → ℕ → Option Conn
getconn_type_all [] type = none
getconn_type_all (cur ∷ rest) type =
    if cur.type == type then some cur else getconn_type_all rest type

-- For a descriptor that is not -1.
unfoldable pub getconn_fd : List Conn → ℕ → Option Conn
getconn_fd [] fd = none
getconn_fd (cur ∷ rest) fd = elim cur.fd [
  | none ↦ getconn_fd rest fd
  | some n ↦ if n == fd then some cur else getconn_fd rest fd
]

-- The loop of aim_conngetmaxfd, with the highest so far.
unfoldable pub maxfd_loop : List Conn → ℕ → ℕ
maxfd_loop [] j = j
maxfd_loop (cur ∷ rest) j = elim cur.fd [
  | none ↦ maxfd_loop rest j
  | some fd ↦ maxfd_loop rest (if ltb j fd then fd else j)
]

unfoldable pub conngetmaxfd : List Conn → ℕ
unfolding maxfd_loop
conngetmaxfd connlist = maxfd_loop connlist 0

unfoldable pub conn_in_sess : List Conn → ℕ → Bool
conn_in_sess [] conn = false
conn_in_sess (cur ∷ rest) conn = if cur.addr == conn then true else conn_in_sess rest conn

unfoldable pub conn_isconnecting : Conn → Bool
conn_isconnecting conn = in_progress conn

unfoldable pub conn_setlatency : Conn → ℕ → Conn
conn_setlatency conn newval = record conn { forcedlatency = newval; lastactivity = 0 }

-- aim_conn_getnext, with the address of the new connection. The type -1 is 65535 in 16 bits.
unfoldable pub conn_getnext : List Conn → ℕ → List Conn
conn_getnext connlist addr =
    record {
      addr = addr;
      fd = none;
      type = 0xffff;
      seqnum = 0;
      status = 0;
      lastactivity = 0;
      forcedlatency = 0;
      handlerlist = [];
      groups = [];
    }
    ∷ connlist

-- The loop of aim_conn_kill.
unfoldable pub unlink : List Conn → ℕ → List Conn
unlink [] deadconn = []
unlink (cur ∷ rest) deadconn = if cur.addr == deadconn then rest else cur ∷ unlink rest deadconn

-- connkill_real, but for what it frees.
unfoldable pub connkill_real : Queues → ℕ → Queues
unfolding rxqueue_cleanbyconn tx_cleanqueue
connkill_real q deadconn = record q {
  incoming = rxqueue_cleanbyconn deadconn q.incoming;
  outgoing = tx_cleanqueue deadconn q.outgoing;
}

unfoldable pub conn_kill : List Conn → Queues → ℕ → List Conn × Queues
unfolding unlink conn_in_sess connkill_real
conn_kill connlist q deadconn =
    if conn_in_sess connlist deadconn
    then (unlink connlist deadconn, connkill_real q deadconn)
    else (connlist, q)

-- The loop of aim_connrst.
unfoldable pub kill_all : List Conn → Queues → Queues
unfolding connkill_real
kill_all [] q = q
kill_all (cur ∷ rest) q = kill_all rest (connkill_real q cur.addr)

unfoldable pub connrst : List Conn → Queues → List Conn × Queues
unfolding kill_all
connrst connlist q = ([], kill_all connlist q)
