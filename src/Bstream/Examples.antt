-- ===== src/Bstream/Examples.antt =====
-- The theorems on streams at concrete streams.
use irssi_icq.Base.{[], ◌∷◌, ◌%◌, ◌^◌, ◌≡◌, refl, arith}
use irssi_icq.Bstream.{
  Bstream, empty, get8, get16, get32, getle8, getle16, getle32, put8, put16, put32, putle8, putle16,
  putle32,
}
use irssi_icq.Bstream.View.{IsValid}
use irssi_icq.Bstream.Write.{back, get-put}

abbrev five : Bstream
five = record { bytes = 1 ∷ 2 ∷ 3 ∷ 4 ∷ 5 ∷ []; len = 5; offset = 1 }

five-IsValid : IsValid five
five-IsValid = record { sized = refl; within = omega arith; bounded = omega arith }

get-put_example :
    ((get8 (back five (put8 five 258))).0 ≡ 258 % 2 ^ 8)
    × ((get16 (back five (put16 five 258))).0 ≡ 258 % 2 ^ 16)
    × ((get32 (back five (put32 five 258))).0 ≡ 258 % 2 ^ 32)
    × ((getle8 (back five (putle8 five 258))).0 ≡ 258 % 2 ^ 8)
    × ((getle16 (back five (putle16 five 258))).0 ≡ 258 % 2 ^ 16)
    × ((getle32 (back five (putle32 five 258))).0 ≡ 258 % 2 ^ 32)
unfolding empty
get-put_example = get-put five 258 five-IsValid (omega arith)
