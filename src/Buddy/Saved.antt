-- ===== src/Buddy/Saved.antt =====
-- icq-buddy.c: the buddy file that is written and read again.
use irssi_icq.Base.{
  ℕ, suc, ◌+◌, ◌≤◌, ◌<◌, ◌≡◌, refl, List, [], ◌∷◌, ◌++◌, true, Option, some, length, arith, ap,
  append_assoc, reverse, reverse-cons, All, ◌∙◌, length-append, zero, append-nil,
}
use irssi_icq.Buddy.{
  Text, Buddy, State, Query, Memory, line_size, getalias, split, is_number, fgets_loop, trim,
  icq_savebuddy, save_loop, save_buddy_file, add_buddy, read_line, read_loop, read_buddy_file,
  reread_buddy_file,
}
use irssi_icq.Buddy.Aliases.{numbers, has, Keeps, has-reverse, getalias-same}
use irssi_icq.Buddy.Lines.{tidy, trim-tidy, fgets_loop-tidy, is_number-tidy, split-number}

-- A buddy whose line can be read back: a number, an alias with single blanks between its words, and a line that fits
-- the buffer with its newline.
abbrev pub IsSaveable : List Buddy → Buddy → Type 0
IsSaveable l b =
    (is_number b.uin ≡ true)
    × (0 < length b.uin)
    × (tidy true (getalias b.uin l) ≡ true)
    × (length (b.uin ++ (b' ' ∷ getalias b.uin l)) + 1 ≤ line_size)

line_lem :
    (l : List Buddy) (uin : Text) (file : Text)
    → icq_savebuddy l uin ++ file ≡ (uin ++ (b' ' ∷ getalias uin l)) ++ (10 ∷ file)
unfolding icq_savebuddy
line_lem l uin file = simp (append_assoc) refl

module _ (query_find : List Query → Text → Option ℕ) (memory : Memory) (l : List Buddy) where
  -- What the lines of the buddies `bs` do to the state.
  abbrev enter : State → List Buddy → State
  enter s [] = s
  enter s (b ∷ bs) = enter (add_buddy query_find memory s b.uin (getalias b.uin l)) bs

  read_line-at :
      (s : State) (line uin alias : Text)
      → split (trim line) ≡ some (uin, alias)
      → is_number uin ≡ true
      → read_line query_find memory s line ≡ add_buddy query_find memory s uin alias
  unfolding read_line
  read_line-at s line uin alias e u = ground (arith, e, u)

  read_line-saved :
      (s : State) (b : Buddy)
      → IsSaveable l b
      → read_line query_find memory s ((b.uin ++ (b' ' ∷ getalias b.uin l)) ++ (10 ∷ []))
        ≡ add_buddy query_find memory s b.uin (getalias b.uin l)
  read_line-saved s b h =
      let line = b.uin ++ (b' ' ∷ getalias b.uin l) in
      let t = is_number-tidy true b.uin (getalias b.uin l) h.0 h.2 (ground (arith, h.1)) in
      read_line-at s _ b.uin (getalias b.uin l)
        (ap split (trim-tidy line t) ∙ split-number b.uin (getalias b.uin l) h.0) h.0

  read_loop-step :
      (fuel : ℕ) (s : State) (file line rest : Text)
      → 0 < length file
      → fgets_loop line_size file ≡ (line, rest)
      → read_loop query_find memory (suc fuel) s file
        ≡ read_loop query_find memory fuel (read_line query_find memory s line) rest
  unfolding read_loop
  read_loop-step fuel s [] line rest h e = absurd (omega arith)
  read_loop-step fuel s (c ∷ file) line rest h e =
      ap
        (λ (p : Text × Text).
          read_loop query_find memory fuel (read_line query_find memory s p.0) p.1)
        e

  read_loop-line :
      (fuel : ℕ) (s : State) (b : Buddy) (file : Text)
      → IsSaveable l b
      → read_loop query_find memory (suc fuel) s (icq_savebuddy l b.uin ++ file)
        ≡ read_loop query_find memory fuel
            (add_buddy query_find memory s b.uin (getalias b.uin l))
            file
  read_loop-line fuel s b file h =
      let line = b.uin ++ (b' ' ∷ getalias b.uin l) in
      let t = is_number-tidy true b.uin (getalias b.uin l) h.0 h.2 (ground (arith, h.1)) in
      rw (line_lem l b.uin file) (
        read_loop-step fuel s (line ++ (10 ∷ file)) (line ++ (10 ∷ [])) file
          (omega (arith, length-append line (10 ∷ file)))
          (fgets_loop-tidy true line file line_size t h.3)
        ∙ ap (λ (t : State). read_loop query_find memory fuel t file) (read_line-saved s b h))

  read_loop-saved :
      (bs : List Buddy) (fuel : ℕ) (s : State)
      → All (IsSaveable l) bs
      → length bs ≤ fuel
      → read_loop query_find memory fuel s (save_loop l bs) ≡ some (enter s bs)
  unfolding save_loop read_loop
  read_loop-saved [] fuel s h enough = refl
  read_loop-saved (b ∷ bs) zero s h enough = absurd (omega arith)
  read_loop-saved (b ∷ bs) (suc fuel) s h enough =
      read_loop-line fuel s b (save_loop l bs) h.0
      ∙ read_loop-saved bs fuel (add_buddy query_find memory s b.uin (getalias b.uin l)) h.1
          (omega arith)

  enter-Keeps : (s : State) (bs : List Buddy) → Keeps l s.buddies → Keeps l (enter s bs).buddies
  unfolding add_buddy
  enter-Keeps s [] k = k
  enter-Keeps s (b ∷ bs) k =
      enter-Keeps (add_buddy query_find memory s b.uin (getalias b.uin l)) bs (refl, k)

  numbers-enter :
      (s : State) (bs : List Buddy)
      → numbers (enter s bs).buddies ≡ reverse (numbers bs) ++ numbers s.buddies
  unfolding add_buddy numbers
  numbers-enter s [] = refl
  numbers-enter s (b ∷ bs) =
      numbers-enter (add_buddy query_find memory s b.uin (getalias b.uin l)) bs
      ∙ simp (reverse-cons, append_assoc) refl

  length-save_loop : (bs : List Buddy) → length bs ≤ length (save_loop l bs)
  unfolding save_loop icq_savebuddy
  length-save_loop [] = omega arith
  length-save_loop (b ∷ bs) = omega (
    arith,
    length-save_loop bs,
    length-append (icq_savebuddy l b.uin) (save_loop l bs),
    length-append b.uin (b' ' ∷ (getalias b.uin l ++ (10 ∷ []))),
  )

-- The buddies after the file is read.
abbrev pub Restores : List Buddy → Option State → Type 0
Restores l r =
    (s' : State) × (r ≡ some s')
    × (numbers s'.buddies ≡ reverse (numbers l))
    × ((uin : Text) → getalias uin s'.buddies ≡ getalias uin l)

-- Where the line of each buddy can be read back, writing the buddy file and reading it again, into whatever state,
-- ends with the same numbers in the opposite order, and each number, of a buddy or not, has the alias that it had.
pub reread_buddy_file-save_buddy_file :
    (query_find : List Query → Text → Option ℕ) (memory : Memory) (s : State) (l : List Buddy)
    → All (IsSaveable l) l
    → Restores l (reread_buddy_file query_find memory s (some (save_buddy_file l)))
unfolding reread_buddy_file read_buddy_file save_buddy_file numbers
reread_buddy_file-save_buddy_file query_find memory s l h =
    let start : State = record s { buddies = [] } in
    let k = enter-Keeps query_find memory l start l tt in
    let n = numbers-enter query_find memory l start l in
    (
      enter query_find memory l start l,
      read_loop-saved query_find memory l l _ start h (length-save_loop query_find memory l l),
      n ∙ nothing_more,
      λ uin.
          getalias-same l uin _ k (ap (has uin) (n ∙ nothing_more) ∙ has-reverse uin (numbers l)),
    )
  where
    nothing_more : reverse (numbers l) ++ numbers [] ≡ reverse (numbers l)
    nothing_more = append-nil (reverse (numbers l))
