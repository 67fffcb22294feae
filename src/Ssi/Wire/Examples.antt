-- ===== src/Ssi/Wire/Examples.antt =====
-- The theorems on the bytes of items at a group and a buddy with an alias.
use irssi_icq.Base.{
  All, some, none, ◌∷◌, false, suc, arith, ℕ, ◌≡◌, List, ◌++◌, zero, refl, [], true,
}
use irssi_icq.Word
use irssi_icq.Word.RoundTrip.{IsByte}
use irssi_icq.Util.Names.{IsString}
use irssi_icq.Bstream
use irssi_icq.Bstream.{Bstream}
use irssi_icq.Bstream.View.{IsValid, pending, written}
use irssi_icq.Tlv.{Tlv, sizetlvchain, counttlvchain}
use irssi_icq.Tlv.Format.{IsTlv}
use irssi_icq.Ssi.{itemlist_find, Item, List, some, ℕ, suc, false}
use irssi_icq.Ssi.Items.{IsSorted}
use irssi_icq.Ssi.Sync.{Store}
use irssi_icq.Ssi.Sync.Agree.{IsMemory}
use irssi_icq.Ssi.Wire.{edit_frame, parsedata}
use irssi_icq.Ssi.Wire.Frame.{IsWritable, encode_snac, encode_items, edit_frame_lem}
use irssi_icq.Ssi.Wire.Reading.{IsReadable}
use irssi_icq.Ssi.Wire.Loading.{IsStored}
use irssi_icq.Ssi.Wire.Push.{parseadd, parsemod, parsedel}
use irssi_icq.Ssi.Wire.Push.Endless.{push-diverges}
use irssi_icq.Ssi.Wire.Parse.{encode_data, received, parsedata-encode}

abbrev ann : List ℕ
ann = b'a' ∷ b'n' ∷ b'n' ∷ []

abbrev alias : Tlv
alias = record { type = 0x0131; len = 1; value = b'a' ∷ [] }

abbrev friends : Item
friends = record { addr = 1; name = some ann; gid = 1; bid = 0; type = 1; tlvs = [] }

abbrev friend : Item
friend = record { addr = 2; name = some ann; gid = 1; bid = 7; type = 0; tlvs = alias ∷ [] }

abbrev two : List Item
two = friends ∷ friend ∷ []

alias-IsTlv : IsTlv alias
alias-IsTlv = record {
  type_fits = omega arith;
  len_fits = omega arith;
  sized = refl;
  bounded = omega arith;
}

ann_bytes : All IsByte ann
ann_bytes = (omega arith, (omega arith, (omega arith, tt)))

two-IsWritable : All IsWritable two
two-IsWritable = ((ann_bytes, tt), ((ann_bytes, (alias-IsTlv, tt)), tt))

abbrev zeros : ℕ → List ℕ
zeros zero = []
zeros (suc n) = 0 ∷ zeros n

zeros-IsMemory : IsMemory zeros
zeros-IsMemory zero = (refl, tt)
zeros-IsMemory (suc n) =
    let (sized, bytes) = zeros-IsMemory n in (omega (arith, sized), (omega arith, bytes))

edit_frame_example :
    IsValid (edit_frame zeros 3 8 two)
    × (Bstream.empty (edit_frame zeros 3 8 two) ≡ 0)
    × (written (edit_frame zeros 3 8 two) ≡ encode_snac 0x0013 8 0 3 ++ encode_items two)
edit_frame_example = edit_frame_lem zeros 3 8 two zeros-IsMemory two-IsWritable

abbrev message : Bstream
message = record {
  bytes =
      0 ∷ 0 ∷ 2 ∷ 0 ∷ 3 ∷ b'a' ∷ b'n' ∷ b'n' ∷ 0 ∷ 1 ∷ 0 ∷ 0 ∷ 0 ∷ 1 ∷ 0 ∷ 0 ∷ 0 ∷ 3 ∷ b'a' ∷ b'n'
      ∷ b'n' ∷ 0 ∷ 1 ∷ 0 ∷ 7 ∷ 0 ∷ 0 ∷ 0 ∷ 5 ∷ 1 ∷ 49 ∷ 0 ∷ 1 ∷ b'a' ∷ 0 ∷ 0 ∷ 0 ∷ 5 ∷ [];
  len = 38;
  offset = 0;
}

message-IsValid : IsValid message
message-IsValid = record { sized = refl; within = omega arith; bounded = omega arith }

message_bytes : pending message ≡ encode_data 0 2 two 5
unfolding Word.put16 Word.put32 sizetlvchain
message_bytes = refl

abbrev fresh : Store
fresh = record {
  received_data = false;
  numitems = 0;
  official = [];
  local = [];
  pending = [];
  timestamp = 0;
  waiting_for_ack = false;
  connected = true;
  sent = [];
  next = 9;
}

ann-IsString : IsString ann
ann-IsString = (omega arith, (omega arith, (omega arith, tt)))

two-IsReadable : All (IsReadable 1) two
unfolding sizetlvchain counttlvchain
two-IsReadable = (
  record {
    writable = two-IsWritable.0;
    name_fits = omega arith;
    named = ann-IsString;
    gid_fits = omega arith;
    bid_fits = omega arith;
    type_fits = omega arith;
    chain_fits = omega arith;
    rounds = omega arith;
  },
  (
    record {
      writable = two-IsWritable.1.0;
      name_fits = omega arith;
      named = ann-IsString;
      gid_fits = omega arith;
      bid_fits = omega arith;
      type_fits = omega arith;
      chain_fits = omega arith;
      rounds = omega arith;
    },
    tt,
  ),
)

two-IsStored : All IsStored two
two-IsStored = ((omega arith, omega arith, tt), ((omega arith, omega arith, (alias-IsTlv, tt)), tt))

two-IsSorted : IsSorted two
two-IsSorted =
    ((omega arith, omega arith), omega arith, ((omega arith, omega arith), omega arith, tt))

parsedata-encode_example : parsedata 2 1 0 message fresh ≡ some (received fresh 2 two 5)
parsedata-encode_example =
    parsedata-encode fresh message two 0 2 5 2 1 0 message-IsValid message_bytes (omega arith)
      (omega arith) two-IsReadable two-IsStored two-IsSorted (omega arith) refl refl refl

-- The deletion of the buddy, with its name and no triples.
abbrev deletion : Bstream
deletion = record {
  bytes = 0 ∷ 3 ∷ b'a' ∷ b'n' ∷ b'n' ∷ 0 ∷ 1 ∷ 0 ∷ 7 ∷ 0 ∷ 0 ∷ 0 ∷ 0 ∷ [];
  len = 13;
  offset = 0;
}

abbrev listed : Store
listed = record fresh { local = two; official = two }

parsedel_run :
    parsedel 1 deletion listed
    ≡ some (
      record deletion { offset = 13 },
      record listed { local = friends ∷ []; official = friends ∷ [] },
    )
unfolding parsedel Bstream.empty Bstream.advance Bstream.get16 Word.get16 itemlist_find
parsedel_run = refl

-- A single byte.
abbrev stray : Bstream
stray = record { bytes = 7 ∷ []; len = 1; offset = 0 }

stray_one : Bstream.empty stray ≡ 1
unfolding Bstream.empty
stray_one = refl

push-diverges_example :
    (parseadd 1000 5 stray listed ≡ none)
    × (parsemod 1000 5 stray listed ≡ none)
    × (parsedel 1000 stray listed ≡ none)
push-diverges_example = push-diverges 1000 5 stray listed stray_one
