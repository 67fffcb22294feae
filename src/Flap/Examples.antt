-- ===== src/Flap/Examples.antt =====
-- The theorems on frames at concrete frames, over sockets that move a byte at a time.
use irssi_icq.Base.{
  ◌⊎◌, false, true, ℕ, Option, List, [], ◌∷◌, ◌++◌, ◌≡◌, ◌<◌, ◌≤◌, zero, suc, none, some, refl,
  arith, length, true, inl, take, if◌then◌else◌, ◌==◌,
}
use irssi_icq.Word
use irssi_icq.Bstream.{Bstream}
use irssi_icq.Bstream.View.{IsValid}
use irssi_icq.Ssi.Sync.Agree.{IsMemory}
use irssi_icq.Flap.{Conn, Frame, Queues, failed, conn_close, get_command, in_progress, enqueue}
use irssi_icq.Flap.Receive.{IsSocket}
use irssi_icq.Flap.Bytes.{encode_frame}
use irssi_icq.Flap.RoundTrip.{IsOpen}
use irssi_icq.Flap.Errors.{get_command-Fails}
use irssi_icq.Flap.Send.{IsSink}
use irssi_icq.Flap.Sequence.{
  Fits, encode_frames, arrived_all, get_commands, get_commands-encode_frames,
}
use irssi_icq.Flap.Queue.{tx_flushqueue}
use irssi_icq.Flap.Queue.Enqueue.{
  queued, immediate, tx_enqueue, counted, stamped, tx_enqueue-stamped,
}
use irssi_icq.Flap.Queue.Flush.{kept, sent, tx_flushqueue-sent}

abbrev zeros : ℕ → List ℕ
zeros zero = []
zeros (suc n) = 0 ∷ zeros n

zeros-IsMemory : IsMemory zeros
zeros-IsMemory zero = (refl, tt)
zeros-IsMemory (suc n) =
    let (sized, bytes) = zeros-IsMemory n in (omega (arith, sized), (omega arith, bytes))

abbrev recv_byte : List ℕ → ℕ → Option (List ℕ) × List ℕ
recv_byte [] n = (none, [])
recv_byte (b ∷ rest) n = (some (b ∷ []), rest)

abbrev coming : List ℕ → List ℕ
coming l = l

recv_byte-IsSocket : IsSocket recv_byte coming
recv_byte-IsSocket = record { delivers = delivers; ends = ends }
  where
    delivers :
        (s : List ℕ) (n : ℕ)
        → 0 < n
        → 0 < length s
        → (bytes : List ℕ) × ((recv_byte s n).0 ≡ some bytes)
          × (0 < length bytes)
          × (length bytes ≤ n)
          × (s ≡ bytes ++ (recv_byte s n).1)
    delivers [] n p l = absurd (omega arith)
    delivers (b ∷ rest) n p l = (b ∷ [], refl, omega arith, omega arith, refl)

    ends : (s : List ℕ) (n : ℕ) → s ≡ [] → (recv_byte s n).0 ≡ none
    ends [] n e = refl
    ends (b ∷ rest) n e = cc

abbrev send_byte : List ℕ → List ℕ → Option ℕ × List ℕ
send_byte s [] = (some 0, s)
send_byte s (b ∷ rest) = (some 1, s ++ (b ∷ []))

send_byte-IsSink : IsSink send_byte coming
send_byte-IsSink = record { takes = takes }
  where
    takes :
        (s bytes : List ℕ)
        → 0 < length bytes
        → (n : ℕ) × ((send_byte s bytes).0 ≡ some n)
          × (0 < n)
          × (n ≤ length bytes)
          × ((send_byte s bytes).1 ≡ s ++ take n bytes)
    takes s [] l = absurd (omega arith)
    takes s (b ∷ rest) l = (1, refl, omega arith, omega arith, refl)

-- A payload in which two of three bytes are written.
abbrev hello : Bstream
hello = record { bytes = 7 ∷ 8 ∷ 9 ∷ []; len = 3; offset = 2 }

hello-IsValid : IsValid hello
hello-IsValid = record { sized = refl; within = omega arith; bounded = omega arith }

abbrev snac_frame : Frame
snac_frame = record {
  hdrtype = 0;
  type = 2;
  seqnum = 258;
  payload = hello;
  handled = 0;
  nofree = 0;
  conn = 5;
}

abbrev bos : Conn
bos = record {
  addr = 5;
  fd = some 4;
  type = 2;
  seqnum = 258;
  status = 1;
  lastactivity = 0;
  forcedlatency = 0;
  groups = [];
  handlerlist = [];
}

bos-IsOpen : IsOpen bos
bos-IsOpen = (4, refl, omega arith, refl, refl, refl)

abbrev idle : Queues
idle = record { incoming = []; outgoing = [] }

snac_frame-Fits : Fits snac_frame
snac_frame-Fits = (hello-IsValid, omega arith, omega arith, omega arith)

-- A connection that is still being established.
abbrev waiting : Conn
waiting = record bos { addr = 6; status = 0x0101 }

abbrev store : ℕ → Conn
store a = if a == 6 then waiting else bos

abbrev loaded : Queues
loaded = record idle {
  outgoing = snac_frame ∷ record snac_frame { conn = 6 } ∷ record snac_frame { handled = 1 } ∷ [];
}

-- On the wire.
encode_frame_bytes : encode_frame snac_frame ≡ 0x2a ∷ 2 ∷ 1 ∷ 2 ∷ 0 ∷ 2 ∷ 7 ∷ 8 ∷ []
unfolding Word.put8 Word.put16
encode_frame_bytes = refl

get_command-Fails_example :
    (s' : List ℕ) × (get_command recv_byte zeros 9 bos idle (42 ∷ 2 ∷ 0 ∷ [])
      ≡ (failed, conn_close bos, idle, s'))
get_command-Fails_example =
    get_command-Fails recv_byte coming recv_byte-IsSocket zeros 9 bos idle (42 ∷ 2 ∷ 0 ∷ [])
      zeros-IsMemory bos-IsOpen (inl (omega arith))

get_commands-encode_frames_example :
    ((get_commands recv_byte 2 zeros 9 bos idle
        (encode_frames (snac_frame ∷ snac_frame ∷ []) ++ [])).1
      ≡ record idle { incoming = [] ++ arrived_all 5 (snac_frame ∷ snac_frame ∷ []) })
    × ((get_commands recv_byte 2 zeros 9 bos idle
          (encode_frames (snac_frame ∷ snac_frame ∷ []) ++ [])).2
        ≡ [])
get_commands-encode_frames_example =
    get_commands-encode_frames recv_byte coming zeros 9 bos idle (snac_frame ∷ snac_frame ∷ [])
      (encode_frames (snac_frame ∷ snac_frame ∷ []) ++ []) [] recv_byte-IsSocket zeros-IsMemory
      bos-IsOpen (snac_frame-Fits, (snac_frame-Fits, tt)) refl

tx_enqueue-stamped_example :
    (((in_progress bos ≡ true) ⊎ (immediate ≡ queued))
      × (tx_enqueue send_byte immediate zeros 9 bos idle snac_frame (1 ∷ [])
          ≡ (counted bos, record idle { outgoing = enqueue [] (stamped bos snac_frame) }, 1 ∷ [])))
    ⊎ ((in_progress bos ≡ false)
        × (immediate ≡ immediate)
        × ((s' : List ℕ) × (tx_enqueue send_byte immediate zeros 9 bos idle snac_frame (1 ∷ [])
              ≡ (record (counted bos) { lastactivity = 9 }, idle, s'))
            × (coming s' ≡ (1 ∷ []) ++ encode_frame (stamped bos snac_frame))))
tx_enqueue-stamped_example =
    tx_enqueue-stamped send_byte coming immediate zeros 9 bos idle snac_frame (1 ∷ [])
      send_byte-IsSink zeros-IsMemory (refl, hello-IsValid)

tx_flushqueue-sent_example :
    ((tx_flushqueue send_byte zeros 9 store (λ a. []) loaded).0
      ≡ record loaded { outgoing = kept (λ a. in_progress (store a)) loaded.outgoing })
    × ((conn : ℕ)
        → coming ((tx_flushqueue send_byte zeros 9 store (λ a. []) loaded).2 conn)
          ≡ [] ++ sent (λ a. in_progress (store a)) conn loaded.outgoing)
tx_flushqueue-sent_example =
    tx_flushqueue-sent send_byte coming zeros 9 store (λ a. []) loaded send_byte-IsSink
      zeros-IsMemory ((refl, hello-IsValid), ((refl, hello-IsValid), ((refl, hello-IsValid), tt)))
