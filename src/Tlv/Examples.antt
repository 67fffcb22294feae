-- ===== src/Tlv/Examples.antt =====
-- The theorems on chains at a chain of two triples.
use irssi_icq.Base.{ℕ, [], ◌∷◌, ◌+◌, ◌≡◌, List, refl, some, ◌++◌, reverse, none, arith, length}
use irssi_icq.Word
use irssi_icq.Bstream.{Bstream, empty}
use irssi_icq.Bstream.View.{IsValid}
use irssi_icq.Tlv.{
  Tlv, sizetlvchain, counttlvchain, readtlvchain, readtlvchain_num, writetlvchain, addtlvtochain8,
  addtlvtochain16, addtlvtochain32, addtlvtochain_noval, gettlv,
}
use irssi_icq.Tlv.Format.{IsChain}
use irssi_icq.Tlv.Read.{Delivers, readtlvchain-encode}
use irssi_icq.Tlv.Limits.{readtlvchain-diverges}
use irssi_icq.Tlv.RoundTrip.{back_to, readtlvchain_num-writetlvchain}
use irssi_icq.Tlv.Edit.{addtlvtochain_lem}
use irssi_icq.Tlv.Lookup.{gettlv_lem}

abbrev first : Tlv
first = record { type = 1; len = 2; value = 5 ∷ 6 ∷ [] }

abbrev second : Tlv
second = record { type = 300; len = 0; value = [] }

abbrev pair : List Tlv
pair = first ∷ second ∷ []

pair-IsChain : IsChain pair
pair-IsChain = (
  record { type_fits = omega arith; len_fits = omega arith; sized = refl; bounded = omega arith },
  (record { type_fits = omega arith; len_fits = omega arith; sized = refl; bounded = tt }, tt),
)

abbrev pair_bytes : List ℕ
pair_bytes = 0 ∷ 1 ∷ 0 ∷ 2 ∷ 5 ∷ 6 ∷ 1 ∷ 44 ∷ 0 ∷ 0 ∷ []

-- The chain in a stream, with some bytes behind it.
abbrev holding : List ℕ → Bstream
holding rest = record { bytes = pair_bytes ++ rest; len = 10 + length rest; offset = 0 }

holding-IsValid : IsValid (holding [])
holding-IsValid = record { sized = refl; within = omega arith; bounded = omega arith }

holding_more-IsValid : IsValid (holding (9 ∷ []))
holding_more-IsValid = record { sized = refl; within = omega arith; bounded = omega arith }

readtlvchain-encode_example : Delivers (reverse pair) [] (readtlvchain 2 (holding []))
unfolding Word.put16 counttlvchain
readtlvchain-encode_example =
    readtlvchain-encode (holding []) pair 2 holding-IsValid pair-IsChain refl (omega arith)

readtlvchain-diverges_example : readtlvchain 1000 (holding (9 ∷ [])) ≡ none
unfolding Word.put16
readtlvchain-diverges_example =
    readtlvchain-diverges (holding (9 ∷ [])) pair 9 1000 holding_more-IsValid pair-IsChain refl

readtlvchain_num-writetlvchain_example :
    (readtlvchain_num (back_to 0 (writetlvchain (holding []) pair).1) (counttlvchain pair)).0
    ≡ reverse pair
unfolding sizetlvchain counttlvchain empty
readtlvchain_num-writetlvchain_example =
    readtlvchain_num-writetlvchain (holding []) pair holding-IsValid pair-IsChain (omega arith)
      (omega arith)

addtlvtochain_example :
    (addtlvtochain8 pair 7 258
      ≡ (1, pair ++ (record { type = 7; len = 1; value = Word.put8 258 } ∷ [])))
    × (addtlvtochain16 pair 7 258
        ≡ (2, pair ++ (record { type = 7; len = 2; value = Word.put16 258 } ∷ [])))
    × (addtlvtochain32 pair 7 258
        ≡ (4, pair ++ (record { type = 7; len = 4; value = Word.put32 258 } ∷ [])))
    × (addtlvtochain_noval pair 7 ≡ (0, pair ++ (record { type = 7; len = 0; value = [] } ∷ [])))
addtlvtochain_example = addtlvtochain_lem pair 7 258

gettlv_example : gettlv pair 300 (0 + 1) ≡ some second
gettlv_example = gettlv_lem pair 300 0
