-- ===== src/Caps/Examples.antt =====
-- The theorems on capabilities at concrete streams.
use irssi_icq.Base.{ℕ, zero, suc, ◌-◌, ◌%◌, ◌≤◌, ◌≢◌, ◌≡◌, refl, List, [], ◌∷◌, arith, All}
use irssi_icq.Word.RoundTrip.{IsByte}
use irssi_icq.Bstream.{Bstream, empty}
use irssi_icq.Bstream.View.{IsValid, pending}
use irssi_icq.Tlv.RoundTrip.{back_to}
use irssi_icq.Caps.{getcap, putcap, null}
use irssi_icq.Caps.RoundTrip.{Restores, getcap-putcap}
use irssi_icq.Caps.Null.{getcap-null}

abbrev zeros : ℕ → List ℕ
zeros zero = []
zeros (suc n) = 0 ∷ zeros n

zeros-IsByte : (n : ℕ) → All IsByte (zeros n)
zeros-IsByte zero = tt
zeros-IsByte (suc n) = (omega arith, zeros-IsByte n)

abbrev blank : Bstream
blank = record { bytes = zeros 360; len = 360; offset = 0 }

blank-IsValid : IsValid blank
blank-IsValid = record { sized = refl; within = omega arith; bounded = zeros-IsByte 360 }

blank_room : 352 ≤ empty blank
unfolding empty
blank_room = omega arith

-- AIM_CAPS_CHAT, AIM_CAPS_BUDDYICON and AIM_CAPS_INTEROPERATE.
getcap-putcap_example :
    let s' = putcap blank 0x40009 in
    Restores 0x40009 (pending s') (getcap (back_to 0 s') (s'.offset - 0))
getcap-putcap_example = getcap-putcap blank 0x40009 blank-IsValid blank_room

abbrev cut : Bstream
cut = record { bytes = 9 ∷ 0x46 ∷ 0x13 ∷ []; len = 3; offset = 0 }

cut_odd : empty cut % 16 ≢ 0
unfolding empty
cut_odd = omega arith

cut_within : empty cut ≤ 3
unfolding empty
cut_within = omega arith

getcap-null_example : getcap cut 3 ≡ null
getcap-null_example = getcap-null cut 3 cut_odd cut_within
