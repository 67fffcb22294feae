-- ===== src/Message/Examples.antt =====
-- The theorems on multipart messages at concrete parts.
use irssi_icq.Base.{ℕ, zero, suc, ◌≤◌, ◌≡◌, refl, List, [], ◌∷◌, none, arith, All, length, ◌⊎◌}
use mathlib.Core.List.{map}
use irssi_icq.Bstream.{Bstream, empty}
use irssi_icq.Bstream.View.{IsValid}
use irssi_icq.Message.{Section, Args, parts_len, put_parts, parsemsgs, choose, charsetpri}
use irssi_icq.Message.Parts.{Part, IsPart, sent, received}
use irssi_icq.Message.Received.{appended, Receives, parsemsgs-put_parts}
use irssi_icq.Message.Choice.{Shows, ShowsNothing, choose_lem}

abbrev greeting : Part
greeting = record { charset = 0; charsubset = 0; text = b'h' ∷ b'i' ∷ [] }

abbrev wide : Part
wide = record { charset = 2; charsubset = 0; text = 0 ∷ b'h' ∷ [] }

abbrev parts : List Part
parts = wide ∷ greeting ∷ []

parts-IsPart : All IsPart parts
parts-IsPart = (
  record {
    charset_fits = omega arith;
    charsubset_fits = omega arith;
    text_fits = omega arith;
    bytes = omega arith;
  },
  (
    record {
      charset_fits = omega arith;
      charsubset_fits = omega arith;
      text_fits = omega arith;
      bytes = omega arith;
    },
    tt,
  ),
)

abbrev zeros : ℕ → List ℕ
zeros zero = []
zeros (suc n) = 0 ∷ zeros n

abbrev frame : Bstream
frame = record { bytes = zeros 24; len = 24; offset = 3 }

frame-IsValid : IsValid frame
frame-IsValid = record { sized = refl; within = omega arith; bounded = omega arith }

frame_room : parts_len (map sent parts) ≤ empty frame
unfolding parts_len empty
frame_room = omega arith

abbrev start : Args
start = record {
  mpmsg = record { numparts = 0; parts = [] };
  icbmflags = 0;
  charset = 0;
  charsubset = 0;
  msg = none;
  msglen = 0;
}

parsemsgs_example :
    let bytes = appended frame (put_parts frame (map sent parts)) in
    (length bytes ≡ parts_len (map sent parts))
    × Receives parts start.mpmsg (parsemsgs bytes (length bytes) start)
parsemsgs_example = parsemsgs-put_parts frame parts start frame-IsValid parts-IsPart frame_room

abbrev got : Args
got = record start { mpmsg = record { numparts = 2; parts = map received parts } }

choose_example :
    ((sec : Section) × Shows (map received parts) sec (choose charsetpri got))
    ⊎ ShowsNothing (map received parts) (choose charsetpri got)
choose_example = choose_lem got
