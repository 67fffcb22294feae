-- ===== src/Flap/Sequence.antt =====
-- rxqueue.c: one call of aim_get_command after another.
use irssi_icq.Base.{
  ℕ, Option, List, [], ◌∷◌, ◌++◌, ◌≡◌, ◌∙◌, ◌<◌, ◌^◌, zero, suc, refl, ap, All, append_assoc,
  append-nil, length,
}
use irssi_icq.Bstream.View.{IsValid}
use irssi_icq.Ssi.Sync.Agree.{IsMemory}
use irssi_icq.Flap.{Conn, Frame, Queues, enqueue, get_command}
use irssi_icq.Flap.Receive.{IsSocket}
use irssi_icq.Flap.Bytes.{encode_frame}
use irssi_icq.Flap.RoundTrip.{IsOpen, arrived, get_command-encode_frame}

-- A frame whose fields fit the header.
abbrev pub Fits : Frame → Type 0
Fits fr = IsValid fr.payload × (fr.type < 256) × (fr.seqnum < 2 ^ 16) × (fr.payload.offset < 2 ^ 16)

abbrev pub encode_frames : List Frame → List ℕ
encode_frames [] = []
encode_frames (fr ∷ rest) = encode_frame fr ++ encode_frames rest

abbrev pub arrived_all : ℕ → List Frame → List Frame
arrived_all addr [] = []
arrived_all addr (fr ∷ rest) = arrived addr fr ∷ arrived_all addr rest

enqueue_lem : (frs : List Frame) (fr : Frame) → enqueue frs fr ≡ frs ++ (fr ∷ [])
enqueue_lem [] fr = refl
enqueue_lem (cur ∷ rest) fr = ap (◌∷◌ cur) (enqueue_lem rest fr)

module _ {S : Type 0} (recv : S → ℕ → Option (List ℕ) × S) where
  -- As many calls as told, at the same time.
  abbrev pub get_commands : ℕ → (ℕ → List ℕ) → ℕ → Conn → Queues → S → Conn × Queues × S
  get_commands zero mem now conn q s = (conn, q, s)
  get_commands (suc calls) mem now conn q s =
      let (result, conn', q', s') = get_command recv mem now conn q s in
      get_commands calls mem now conn' q' s'

  -- Frames one behind the other on an open connection, in whatever pieces: as many calls of aim_get_command as
  -- there are frames put them behind the queue, all of them and in their order, and
  -- take no other byte.
  pub get_commands-encode_frames :
      (incoming : S → List ℕ) (mem : ℕ → List ℕ) (now : ℕ) (conn : Conn) (q : Queues)
      (frs : List Frame) (s : S) (rest : List ℕ)
      → IsSocket recv incoming
      → IsMemory mem
      → IsOpen conn
      → All Fits frs
      → incoming s ≡ encode_frames frs ++ rest
      → ((get_commands (length frs) mem now conn q s).1
          ≡ record q { incoming = q.incoming ++ arrived_all conn.addr frs })
        × (incoming (get_commands (length frs) mem now conn q s).2 ≡ rest)
  get_commands-encode_frames incoming mem now conn q [] s rest sock mm o fits e =
      (rw append-nil refl, e)
  get_commands-encode_frames incoming mem now conn q (fr ∷ frs) s rest sock mm o fits e =
      let (v, t, n, l) = fits.0 in
      let (s', got, after) =
        get_command-encode_frame recv incoming sock mem now conn q fr s (encode_frames frs ++ rest)
          mm o v t n l (e ∙ append_assoc (encode_frame fr) (encode_frames frs) rest) in
      let more =
        get_commands-encode_frames incoming mem now (record conn { lastactivity = now })
          (record q { incoming = enqueue q.incoming (arrived conn.addr fr) }) frs s' rest sock mm o
          fits.1 after in
      (
        ap (λ r. (get_commands (length frs) mem now r.1 r.2 r.3).1) got
            ∙ more.0
            ∙ ap (λ l. record q { incoming = l })
                (ap (λ l. l ++ arrived_all conn.addr frs)
                    (enqueue_lem q.incoming (arrived conn.addr fr))
                  ∙ append_assoc q.incoming (arrived conn.addr fr ∷ [])
                      (arrived_all conn.addr frs)),
        ap (λ r. incoming (get_commands (length frs) mem now r.1 r.2 r.3).2) got ∙ more.1,
      )
