-- ===== src/Cookies/Examples.antt =====
-- The theorems on cookies at a concrete list.
use irssi_icq.Base.{ℕ, List, [], ◌∷◌, none, some, ◌≡◌, refl, arith}
use irssi_icq.Cookies.{Cookie, checkcookie, cachecookie, uncachecookie}
use irssi_icq.Cookies.Map.{SameKey, IsMap, uncachecookie-IsMap}
use irssi_icq.Cookies.Cache.{cachecookie-IsMap}

abbrev eight : List ℕ
eight = 1 ∷ 2 ∷ 3 ∷ 4 ∷ 5 ∷ 6 ∷ 7 ∷ 8 ∷ []

abbrev chat_invitation : Cookie
chat_invitation = record { addr = 10; cookie = eight; type = 5; payload = 1; addtime = 100 }

-- The same key at another address.
abbrev again : Cookie
again = record chat_invitation { addr = 12; payload = 2 }

abbrev file_offer : Cookie
file_offer = record { addr = 11; cookie = eight; type = 0x12; payload = 3; addtime = 101 }

abbrev two : List Cookie
two = chat_invitation ∷ file_offer ∷ []

two-IsMap : IsMap two
unfolding checkcookie
two-IsMap = ((eleven_ten, tt), refl, (tt, refl, tt))
  where
    eleven_ten : Path ℕ 11 10 → ⊥
    eleven_ten e = omega (arith, e)

other_type : ¬ SameKey eight 5 eight 0x12
other_type (e, f) = omega (arith, e)

uncachecookie_example :
    ((uncachecookie two eight 5).0 ≡ checkcookie two eight 5)
    × (checkcookie (uncachecookie two eight 5).1 eight 5 ≡ none)
    × (checkcookie (uncachecookie two eight 5).1 eight 0x12 ≡ checkcookie two eight 0x12)
    × IsMap (uncachecookie two eight 5).1
uncachecookie_example = uncachecookie-IsMap two eight 5 eight 0x12 two-IsMap other_type

cachecookie_example :
    ((cachecookie 9 two again).0 ≡ 0)
    × (checkcookie (cachecookie 9 two again).1 eight 5 ≡ some (record again { addtime = 9 }))
    × (checkcookie (cachecookie 9 two again).1 eight 0x12 ≡ checkcookie two eight 0x12)
    × IsMap (cachecookie 9 two again).1
cachecookie_example =
    cachecookie-IsMap 9 two again eight 0x12 two-IsMap (ten_twelve, (eleven_twelve, tt)) other_type
  where
    ten_twelve : Path ℕ 10 12 → ⊥
    ten_twelve e = omega (arith, e)

    eleven_twelve : Path ℕ 11 12 → ⊥
    eleven_twelve e = omega (arith, e)
