-- ===== src/Util/Examples.antt =====
-- The theorems on screen names and strings of items at concrete strings.
use irssi_icq.Base.{◌≡◌, List, ℕ, ◌↔◌, arith, ◌∷◌, [], refl}
use irssi_icq.Util.{sncmp, iconsum}
use irssi_icq.Util.Names.{IsString, normal, sncmp_iff}

abbrev joe : List ℕ
joe = b'J' ∷ b'o' ∷ b' ' ∷ b'e' ∷ []

abbrev joe_plain : List ℕ
joe_plain = b'j' ∷ b'o' ∷ b'e' ∷ []

joe-IsString : IsString joe
joe-IsString = (omega arith, (omega arith, (omega arith, (omega arith, tt))))

sncmp_example : (sncmp joe joe_plain ≡ 0) ↔ (normal joe ≡ normal joe_plain)
sncmp_example = sncmp_iff joe joe_plain joe-IsString (omega arith, (omega arith, (omega arith, tt)))

iconsum_run : iconsum (1 ∷ 2 ∷ 3 ∷ []) ≡ 0x0204
unfolding iconsum
iconsum_run = refl
