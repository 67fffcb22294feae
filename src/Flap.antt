-- ===== src/Flap.antt =====
-- irssi-icq/src/protocols/oscar/rxqueue.c and txqueue.c: frames and their way through the queues. A
-- connection carries its address, which stands for the pointer to it; its descriptor is `none` once
-- it is closed (-1). The socket is a parameter: `recv` gives the bytes of a call, `none` for an error
-- or the end, and `send` how many bytes a call took. `now` is what time() returns, `mem` the content
-- of fresh memory. A frame has a connection; frames of the type AIM_FRAMETYPE_OFT are not modelled,
-- nor is the user function for a dead connection.
pub mod Bytes
pub mod Receive
pub mod RoundTrip
pub mod Errors
pub mod Send
pub mod Sequence
pub mod Queue
mod Examples
use irssi_icq.Base.{
  Option, none, List, Bool, ℕ, if◌then◌else◌, some, ◌∷◌, ◌+◌, false, not, [], true, ◌==◌, ltb, ◌/◌,
  ◌%◌, take, suc, ◌^◌, length, drop, ◌-◌, zero, ◌++◌,
}
use irssi_icq.Bstream
use irssi_icq.Bstream.{Bstream}

-- A handler that a client registered; `handler` stands for the function.
pub record Handler : Type 0 where
  pub family : ℕ
  pub type : ℕ
  pub handler : ℕ
  pub flags : ℕ

pub record Conn : Type 0 where
  pub addr : ℕ
  pub fd : Option ℕ
  pub type : ℕ
  pub seqnum : ℕ
  pub status : ℕ
  pub lastactivity : ℕ
  pub forcedlatency : ℕ
  pub handlerlist : List Handler
  pub groups : List ℕ

pub record Frame : Type 0 where
  pub hdrtype : ℕ
  pub type : ℕ
  pub seqnum : ℕ
  pub payload : Bstream
  pub handled : ℕ
  pub nofree : ℕ
  pub conn : ℕ

pub record Queues : Type 0 where
  pub incoming : List Frame
  pub outgoing : List Frame

abbrev pub frametype_flap : ℕ
frametype_flap = 0

abbrev pub type_rendezvous : ℕ
type_rendezvous = 0xfffe

abbrev pub type_listener : ℕ
type_listener = 0xffff

-- `status & AIM_CONN_STATUS_INPROGRESS`
abbrev pub in_progress : Conn → Bool
in_progress conn = conn.status / 0x0100 % 2 == 1

-- A frame behind the last one.
abbrev pub enqueue : List Frame → Frame → List Frame
enqueue [] fr = fr ∷ []
enqueue (cur ∷ rest) fr = cur ∷ enqueue rest fr

-- The connection, and the sequence number to stamp.
unfoldable pub get_next_txseqnum : Conn → Conn × ℕ
get_next_txseqnum conn =
    let seqnum = (conn.seqnum + 1) % 2 ^ 16 in (record conn { seqnum = seqnum }, seqnum)

-- aim_tx_enqueue__queuebased on the frame's connection.
unfoldable pub tx_enqueue_queuebased : Conn → Queues → Frame → Conn × Queues
unfolding get_next_txseqnum
tx_enqueue_queuebased conn q fr =
    let (conn', seqnum) = get_next_txseqnum conn in
    if fr.hdrtype == frametype_flap
    then (
      conn',
      record q { outgoing = enqueue q.outgoing (record fr { seqnum = seqnum; handled = 0 }) },
    )
    else (conn, record q { outgoing = enqueue q.outgoing (record fr { handled = 0 }) })

-- The stream `obs` of sendframe_flap, filled.
unfoldable pub flap_stream : (ℕ → List ℕ) → Frame → Bstream
flap_stream mem fr =
    let payloadlen = Bstream.curpos fr.payload in
    let obs = Bstream.init (mem (6 + payloadlen)) (6 + payloadlen) in
    let s1 = (Bstream.put8 obs 0x2a).1 in
    let s2 = (Bstream.put8 s1 fr.type).1 in
    let s3 = (Bstream.put16 s2 fr.seqnum).1 in
    let s4 = (Bstream.put16 s3 payloadlen).1 in
    (Bstream.putbs s4 (Bstream.rewind fr.payload) payloadlen).1

module _ {Socket : Type 0} (send : Socket → List ℕ → Option ℕ × Socket) where
  -- The loop of aim_send on the bytes left, `cur` of them sent before: `none` is -1. A round sends a
  -- byte at least, so that as many rounds as bytes are enough.
  unfoldable pub send_loop : ℕ → Socket → List ℕ → ℕ → Option ℕ × Socket
  send_loop zero s left cur = (some cur, s)
  send_loop (suc rounds) s [] cur = (some cur, s)
  send_loop (suc rounds) s (b ∷ left) cur =
      let (ret, s') = send s (b ∷ left) in
      elim ret [
        | none ↦ (none, s')
        | some n ↦ elim (n == 0) [
          | true ↦ (some cur, s')
          | false ↦ send_loop rounds s' (drop n (b ∷ left)) (cur + n)
        ]
      ]

  -- aim_bstream_send on a connection that is no rendezvous. The stream, whose cursor it moves, is freed
  -- after the call.
  unfoldable pub bstream_send : Bstream → Socket → ℕ → Option ℕ × Socket
  unfolding send_loop
  bstream_send bs s count =
      let n : ℕ = if ltb (Bstream.empty bs) count then Bstream.empty bs else count in
      send_loop n s (take n (drop bs.offset bs.bytes)) 0

  -- Whether there was no error, the frame and the connection. The cursor of the payload goes to the
  -- start and, with the copy, back to where it was.
  unfoldable pub sendframe_flap :
      (ℕ → List ℕ) → ℕ → Conn → Frame → Socket → Bool × Frame × Conn × Socket
  unfolding flap_stream bstream_send
  sendframe_flap mem now conn fr s =
      let obs = flap_stream mem fr in
      let obslen = Bstream.curpos obs in
      let (ret, s') = bstream_send (Bstream.rewind obs) s obslen in
      (
        elim ret [ none ↦ false | some n ↦ n == obslen ],
        record fr { handled = 1 },
        record conn { lastactivity = now },
        s',
      )

unfoldable pub conn_close : Conn → Conn
conn_close conn = record conn { fd = none; handlerlist = [] }

-- What the four reads of the header find, once it is rewound; `none` where it does not begin as it
-- must.
unfoldable pub flap_header : Bstream → Option (ℕ × ℕ × ℕ)
flap_header hdr =
    let (start, h1) = Bstream.get8 (Bstream.rewind hdr) in
    let (type, h2) = Bstream.get8 h1 in
    let (seqnum, h3) = Bstream.get16 h2 in
    let (payloadlen, h4) = Bstream.get16 h3 in
    if not (start == 0x2a) then none else some (type, seqnum, payloadlen)

-- The result of aim_get_command: 0, -1, or that of aim_conn_completeconnect.
pub data Outcome : Type 0 where
  received failed connecting : Outcome

-- The new frame goes behind the queue.
abbrev pub deliver {ℓ} :
    {S : Type ℓ} → ℕ → Conn → Queues → ℕ → ℕ → Bstream → S → Outcome × Conn × Queues × S
deliver now conn q type seqnum bs s = (
  received,
  record conn { lastactivity = now },
  record q {
    incoming = enqueue q.incoming (record {
      hdrtype = frametype_flap;
      type = type;
      seqnum = seqnum;
      payload = Bstream.rewind bs;
      handled = 0;
      nofree = 0;
      conn = conn.addr;
    });
  },
  s,
)

-- `red < n`, where `none` is -1.
abbrev pub below : Option ℕ → ℕ → Bool
below none n = true
below (some red) n = ltb red n

module _ {Socket : Type 0} (recv : Socket → ℕ → Option (List ℕ) × Socket) where
  -- The loop of aim_recv, with the bytes received before.
  unfoldable pub recv_loop : ℕ → Socket → ℕ → List ℕ → Option (List ℕ) × Socket
  recv_loop zero s left got = (some got, s)
  recv_loop (suc rounds) s left got = elim (left == 0) [
    | true ↦ (some got, s)
    | false ↦
        (let (ret, s') = recv s left in
          elim ret [
            | none ↦ (none, s')
            | some bytes ↦ elim (length bytes == 0) [
              | true ↦ (none, s')
              | false ↦ recv_loop rounds s' (left - length bytes) (got ++ bytes)
            ]
          ])
  ]

  unfoldable pub aim_recv : Socket → ℕ → Option (List ℕ) × Socket
  unfolding recv_loop
  aim_recv s count = recv_loop count s count []

  -- `none` is -1, as on a closed descriptor.
  unfoldable pub bstream_recv : Bstream → Conn → Socket → ℕ → Option ℕ × Bstream × Socket
  unfolding aim_recv
  bstream_recv bs conn s count = elim conn.fd [
    | none ↦ (none, bs, s)
    | some fd ↦
        (let n : ℕ = if ltb (Bstream.empty bs) count then Bstream.empty bs else count in
          if n == 0
          then (some 0, bs, s)
          else (let (ret, s') = aim_recv s n in
              elim ret [
                | none ↦ (none, bs, s')
                | some bytes ↦ (some n, Bstream.store bs bytes, s')
              ]))
  ]

  unfoldable pub get_command_flap :
      (ℕ → List ℕ) → Conn → Socket → Option (ℕ × ℕ × ℕ) × Conn × Socket
  unfolding bstream_recv flap_header conn_close
  get_command_flap mem conn s =
      let (red, hdr, s') = bstream_recv (Bstream.init (mem 6) 6) conn s 6 in
      if below red 6 then (none, conn_close conn, s') else (elim (flap_header hdr) [
        | none ↦ (none, conn_close conn, s')
        | some fields ↦ (some fields, conn, s')
      ])

  -- From the allocation of the payload on.
  unfoldable pub read_payload :
      (ℕ → List ℕ) → ℕ → Conn → Queues → ℕ → ℕ → ℕ → Socket → Outcome × Conn × Queues × Socket
  unfolding bstream_recv conn_close
  read_payload mem now conn q type seqnum payloadlen s =
      if payloadlen == 0
      then deliver now conn q type seqnum (Bstream.init [] 0) s
      else (let (red, bs, s') =
            bstream_recv (Bstream.init (mem payloadlen) payloadlen) conn s payloadlen in
          if below red payloadlen
          then (failed, conn_close conn, q, s')
          else deliver now conn q type seqnum bs s')

  -- On a connection that is no rendezvous. A failed aim_get_command_flap returns -1, which `payloadlen` holds as 65535; the fields of the
  -- header are 0 then.
  unfoldable pub get_command :
      (ℕ → List ℕ) → ℕ → Conn → Queues → Socket → Outcome × Conn × Queues × Socket
  unfolding get_command_flap read_payload
  get_command mem now conn q s = elim conn.fd [
    | none ↦ (failed, conn, q, s)
    | some fd ↦
        if ltb fd 3
        then (failed, conn, q, s)
        else if in_progress conn
        then (connecting, conn, q, s)
        else if conn.type == type_listener
        then (failed, conn, q, s)
        else (let (hdr, conn', s') = get_command_flap mem conn s in
            elim hdr [
              | none ↦ read_payload mem now conn' q 0 0 0xffff s'
              | some (type, seqnum, payloadlen) ↦
                  read_payload mem now conn' q type seqnum payloadlen s'
            ])
  ]
