-- ===== src/Buddy/Examples.antt =====
-- The theorems on buddies at a concrete list.
use irssi_icq.Base.{ℕ, refl, List, [], ◌∷◌, Option, none, some, All, arith, bytes_eq}
use irssi_icq.Buddy.{
  Text, Buddy, State, Query, Memory, get_buddy, getalias, setmode, setip, is_number, isspace,
  save_buddy_file, reread_buddy_file,
}
use irssi_icq.Buddy.Lines.{tidy}
use irssi_icq.Buddy.Saved.{IsSaveable, Restores, reread_buddy_file-save_buddy_file}
use irssi_icq.Buddy.Fields.{SetsMode, SetsIp, fields_lem}

abbrev one_two : Text
one_two = b'1' ∷ b'2' ∷ []

-- An alias of two words.
abbrev joe_b : Text
joe_b = b'J' ∷ b'o' ∷ b'e' ∷ b' ' ∷ b'B' ∷ []

abbrev joe : Buddy
joe = record { uin = one_two; alias = joe_b; mode = 0; ip = 7 }

abbrev ann : Buddy
ann = record { uin = b'9' ∷ []; alias = b'A' ∷ []; mode = 1; ip = 8 }

-- An older alias of Joe's number comes last.
abbrev list : List Buddy
list = joe ∷ ann ∷ record joe { alias = b'j' ∷ [] } ∷ []

abbrev memory : Memory
memory = record { mode = 9; ip = 9 }

abbrev no_query : List Query → Text → Option ℕ
no_query l t = none

abbrev state : State
state = record { buddies = ann ∷ []; queries = [] }

list-IsSaveable : All (IsSaveable list) list
unfolding is_number tidy isspace getalias get_buddy bytes_eq
list-IsSaveable = (
  (refl, omega arith, refl, omega arith),
  ((refl, omega arith, refl, omega arith), ((refl, omega arith, refl, omega arith), tt)),
)

reread_example :
    Restores list (reread_buddy_file no_query memory state (some (save_buddy_file list)))
reread_example = reread_buddy_file-save_buddy_file no_query memory state list list-IsSaveable

fields_example :
    SetsMode one_two list one_two 5 (setmode one_two 5 list)
    × SetsIp one_two list one_two 6 (setip one_two 6 list)
fields_example = fields_lem one_two list one_two 5 6
