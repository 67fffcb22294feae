-- ===== src/Dispatch/Examples.antt =====
-- The theorems on dispatch at concrete queues.
use irssi_icq.Base.{
  ℕ, List, [], ◌∷◌, Option, none, some, ◌≡◌, ◌⊎◌, ◌↔◌, ◌+◌, All, refl, if◌then◌else◌, ◌==◌,
}
use irssi_icq.Word
use irssi_icq.Bstream
use irssi_icq.Bstream.{Bstream}
use irssi_icq.Flap.{Conn, Handler, Frame}
use irssi_icq.Dispatch.{Module, Modsnac, rxdispatch, callhandler, special_default}
use irssi_icq.Dispatch.Handlers.{IsFirst, Absent, callhandler_iff}
use irssi_icq.Dispatch.Left.{Plain, Stays, rxdispatch-Stays}

abbrev on_message : Handler
on_message = record { family = 4; type = 7; handler = 70; flags = 0 }

abbrev on_other : Handler
on_other = record { family = 4; type = 0xffff; handler = 71; flags = 0 }

abbrev bos : Conn
bos = record {
  addr = 5;
  fd = some 4;
  type = 2;
  seqnum = 0;
  status = 1;
  lastactivity = 0;
  forcedlatency = 0;
  groups = [];
  handlerlist = on_message ∷ on_other ∷ [];
}

abbrev chat : Conn
chat = record bos { addr = 6; handlerlist = [] }

-- The world counts the calls; the module of family 4 accepts, a handler of a client does not.
abbrev accept : Module → Modsnac → Bstream → ℕ → ℕ × Bstream × ℕ
accept cur snac bs w = (if cur.family == 4 then 1 else 0, bs, w + 1)

abbrev call : ℕ → Frame → ℕ → ℕ × Bstream × ℕ
call h fr w = (0, fr.payload, w + 1)

abbrev connerr : ℕ → Frame → ℕ → Option (List ℕ) → ℕ → ℕ × Bstream × ℕ
connerr h fr code msg w = (1, fr.payload, w + 1)

abbrev icbm : Module
icbm = record { family = 4; flags = 0; name = 109 ∷ [] }

abbrev snac : Bstream
snac = record { bytes = 0 ∷ 4 ∷ 0 ∷ 7 ∷ 0 ∷ 0 ∷ 0 ∷ 0 ∷ 0 ∷ 1 ∷ []; len = 10; offset = 0 }

abbrev message : Frame
message = record {
  hdrtype = 0;
  type = 2;
  seqnum = 1;
  payload = snac;
  handled = 0;
  nofree = 0;
  conn = 5;
}

abbrev queue : List Frame
queue = message ∷ record message { type = 5 } ∷ []

-- The message is taken, and the other frame has its last chance.
rxdispatch_run : rxdispatch (λ w a. bos) accept call connerr (icbm ∷ []) queue 0 ≡ some ([], 1)
unfolding rxdispatch Bstream.empty Bstream.get16 Word.get16
rxdispatch_run = refl

rxdispatch-Stays_example :
    ((¬ All Plain queue) × (rxdispatch (λ w a. bos) accept call connerr (icbm ∷ []) queue 0 ≡ none))
    ⊎ ((r : List Frame × ℕ) × (rxdispatch (λ w a. bos) accept call connerr (icbm ∷ []) queue 0
          ≡ some r)
        × All Stays r.0)
rxdispatch-Stays_example = rxdispatch-Stays (λ w a. bos) accept call connerr (icbm ∷ []) queue 0

callhandler_example : (callhandler bos 4 8 ≡ some 71) ↔ (
    IsFirst 4 8 bos.handlerlist 71
    ⊎ (Absent 4 8 bos.handlerlist × IsFirst 4 special_default bos.handlerlist 71))
callhandler_example = callhandler_iff bos 4 8 71
