-- ===== src/Buddy.antt =====
-- irssi-icq/src/core/icq-buddy.c: the list of buddies with their aliases, and the file that keeps it. A string is the
-- list of its characters before the NUL, and holds none; pointers are not NULL. irssi's queries are records whose
-- search is the parameter `query_find`, and its signals are not modelled. What `g_new` leaves in a field is an argument.
-- A file is the list of its characters; `none` is a file that is not named or cannot be opened.
pub mod Lines
pub mod Aliases
pub mod Saved
pub mod Fields
mod Examples
use irssi_icq.Base.{
  ℕ, zero, suc, ◌+◌, ◌==◌, ltb, leb, List, [], ◌∷◌, ◌++◌, Bool, true, false, ◌&&◌, ◌||◌, Option,
  none, some, if◌then◌else◌, bytes_eq, length, ◌>>=◌,
}

abbrev pub Text : Type 0
Text = List ℕ

pub record Buddy : Type 0 where
  pub uin : Text
  pub alias : Text
  pub mode : ℕ
  pub ip : ℕ

pub record Query : Type 0 where
  pub name : Text
  pub visible_name : Text

pub record State : Type 0 where
  pub buddies : List Buddy
  pub queries : List Query

-- The uninitialised fields of a new buddy.
pub record Memory : Type 0 where
  pub mode : ℕ
  pub ip : ℕ

-- The query at an index takes the alias for both names.
unfoldable pub rename : ℕ → Text → List Query → List Query
rename i alias [] = []
rename zero alias (q ∷ qs) = record { name = alias; visible_name = alias } ∷ qs
rename (suc i) alias (q ∷ qs) = q ∷ rename i alias qs

-- The functions on the list alone.
unfoldable pub get_buddy : Text → List Buddy → Option Buddy
get_buddy uin [] = none
get_buddy uin (b ∷ l) = if bytes_eq uin b.uin then some b else get_buddy uin l

unfoldable pub getalias : Text → List Buddy → Text
getalias uin l = elim (get_buddy uin l) [ none ↦ uin | some item ↦ item.alias ]

-- `tolower` of the C locale, for strcasecmp.
unfoldable pub lower : Text → Text
lower [] = []
lower (c ∷ cs) = (if leb b'A' c && leb c b'Z' then c + 32 else c) ∷ lower cs

unfoldable pub getuin : Text → List Buddy → Text
getuin alias [] = alias
getuin alias (b ∷ l) = if bytes_eq (lower alias) (lower b.alias) then b.uin else getuin alias l

-- `none` is the result -1.
unfoldable pub getmode : Text → List Buddy → Option ℕ
getmode uin l = elim (get_buddy uin l) [ none ↦ none | some item ↦ some item.mode ]

-- The first buddy of a number, changed.
unfoldable pub change : (Buddy → Buddy) → Text → List Buddy → List Buddy
change f uin [] = []
change f uin (b ∷ l) = if bytes_eq uin b.uin then f b ∷ l else b ∷ change f uin l

unfoldable pub setmode : Text → ℕ → List Buddy → Option ℕ × List Buddy
setmode uin mode l = elim (get_buddy uin l) [
  | none ↦ (none, l)
  | some item ↦ (some mode, change (λ b. record b { mode = mode }) uin l)
]

-- -1 is returned as an unsigned number.
unfoldable pub getip : Text → List Buddy → ℕ
getip uin l = elim (get_buddy uin l) [ none ↦ 0xffffffff | some item ↦ item.ip ]

unfoldable pub setip : Text → ℕ → List Buddy → Option ℕ × List Buddy
setip uin ip l = elim (get_buddy uin l) [
  | none ↦ (none, l)
  | some item ↦ (some 0, change (λ b. record b { ip = ip }) uin l)
]

unfoldable pub isspace : ℕ → Bool
isspace c = c == b' ' || (leb 9 c && leb c 13)

-- The loop of trim, with `src` and `last` as offsets from the start of the line.
unfoldable pub trim_loop : ℕ → ℕ → Text → Text
trim_loop src last [] = []
trim_loop src last (c ∷ s) = elim (isspace c) [
  | true ↦ trim_loop (src + 1) last s
  | false ↦
      (let rest = trim_loop (src + 1) (src + 1) s in
        if ltb last src then b' ' ∷ c ∷ rest else c ∷ rest)
]

unfoldable pub trim : Text → Text
trim src = trim_loop 0 666666 src

-- fgets: the characters up to a newline, at most `n` of them, and the rest of the file.
unfoldable pub fgets_loop : ℕ → Text → Text × Text
fgets_loop zero file = ([], file)
fgets_loop (suc n) [] = ([], [])
fgets_loop (suc n) (c ∷ file) =
    if c == 10 then (c ∷ [], file) else (let (line, rest) = fgets_loop n file in (c ∷ line, rest))

-- The part of a line before its first blank, and the part behind it.
unfoldable pub split : Text → Option (Text × Text)
split [] = none
split (c ∷ s) =
    if c == b' '
    then some ([], s)
    else elim (split s) [ none ↦ none | some (key, value) ↦ some (c ∷ key, value) ]

-- `strspn(line, "0123456789") == strlen(line)`
unfoldable pub is_number : Text → Bool
is_number [] = true
is_number (c ∷ s) = leb b'0' c && leb c b'9' && is_number s

-- `line[80]` has room for this many characters and the NUL.
abbrev pub line_size : ℕ
line_size = 79

unfoldable pub icq_savebuddy : List Buddy → Text → Text
icq_savebuddy l uin = uin ++ (b' ' ∷ (getalias uin l ++ (10 ∷ [])))

-- The calls of icq_savebuddy that buddy_forall makes, for the buddies of a list.
unfoldable pub save_loop : List Buddy → List Buddy → Text
save_loop l [] = []
save_loop l (b ∷ bs) = icq_savebuddy l b.uin ++ save_loop l bs

-- The file that icq_save_buddy_file writes.
unfoldable pub save_buddy_file : List Buddy → Text
save_buddy_file l = save_loop l l

module _ (query_find : List Query → Text → Option ℕ) (memory : Memory) where
  unfoldable pub add_buddy : State → Text → Text → State
  add_buddy s uin alias = record {
    buddies = record { uin = uin; alias = alias; mode = memory.mode; ip = memory.ip } ∷ s.buddies;
    queries = elim (query_find s.queries uin) [
      | none ↦ s.queries
      | some i ↦ rename i alias s.queries
    ];
  }

  -- One round of read_buddy_file, for a line.
  unfoldable pub read_line : State → Text → State
  unfolding add_buddy
  read_line s line = elim (split (trim line)) [
    | none ↦ s
    | some (uin, buddy) ↦ if is_number uin then add_buddy s uin buddy else s
  ]

  -- `none` says that the fuel, one round for each line, has run out.
  unfoldable pub read_loop : ℕ → State → Text → Option State
  unfolding read_line
  read_loop fuel s [] = some s
  read_loop zero s (c ∷ file) = none
  read_loop (suc fuel) s (c ∷ file) =
      let (line, rest) = fgets_loop line_size (c ∷ file) in read_loop fuel (read_line s line) rest

  unfoldable pub read_buddy_file : State → Option Text → Option State
  read_buddy_file s none = some s
  read_buddy_file s (some file) = read_loop (length file) s file

  unfoldable pub reread_buddy_file : State → Option Text → Option State
  unfolding read_buddy_file
  reread_buddy_file s file = read_buddy_file (record s { buddies = [] }) file

-- The loop of read_conf_option: `none` out of fuel, else the value, if there is one.
unfoldable pub conf_loop : ℕ → Text → Text → Option (Option Text)
conf_loop fuel opt [] = some none
conf_loop zero opt (c ∷ file) = none
conf_loop (suc fuel) opt (c ∷ file) =
    let (line, rest) = fgets_loop line_size (c ∷ file) in
    let later = conf_loop fuel opt rest in
    elim (split (trim line)) [
      | none ↦ later
      | some (key, value) ↦ if bytes_eq key opt then some (some value) else later
    ]

unfoldable pub read_conf_option : Text → Option Text → Option (Option Text)
read_conf_option opt none = some none
read_conf_option opt (some file) = conf_loop (length file) opt file
