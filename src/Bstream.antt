-- ===== src/Bstream.antt =====
-- irssi-icq/src/protocols/oscar/bstream.c: a byte buffer with a cursor, the functions aim_bstream_*
-- and aimbs_*. `bytes` is what `bs->data` points to. A function that changes `*bs` returns the new
-- stream behind its C result; `none` stands for the result -1 or NULL. Pointers are not NULL and
-- `malloc` succeeds. `int` arguments are not negative, and positions stay below 2 ^ 31, so that the
-- C difference `bs->len - bs->offset` is `len - offset` on each stream with `offset` at most `len`.
pub mod View
pub mod Read
pub mod Write
mod Examples
use irssi_icq.Base.{
  ℕ, ◌+◌, ◌-◌, List, [], ◌∷◌, ◌++◌, Option, none, some, ltb, if◌then◌else◌, length, take, drop,
  patch,
}
use irssi_icq.Word

pub record Bstream : Type 0 where
  pub bytes : List ℕ
  pub len : ℕ
  pub offset : ℕ

unfoldable pub init : List ℕ → ℕ → Bstream
init buf len = record { bytes = buf; len = len; offset = 0 }

unfoldable pub empty : Bstream → ℕ
empty s = s.len - s.offset

unfoldable pub curpos : Bstream → ℕ
curpos s = s.offset

unfoldable pub setpos : Bstream → ℕ → Option ℕ × Bstream
setpos s off = if ltb s.len off then (none, s) else (some off, record s { offset = off })

unfoldable pub rewind : Bstream → Bstream
unfolding setpos
rewind s = (setpos s 0).1

unfoldable pub advance : Bstream → ℕ → ℕ × Bstream
unfolding empty
advance s n = if ltb (empty s) n then (0, s) else (n, record s { offset = s.offset + n })

-- The stream with the cursor `n` bytes further, as `bs->offset += n` leaves it.
abbrev pub moved : Bstream → ℕ → Bstream
moved s n = record s { offset = s.offset + n }

unfoldable pub get8 : Bstream → ℕ × Bstream
unfolding empty
get8 s =
    if ltb (empty s) 1
    then (0, s)
    else (let s' = moved s 1 in (Word.get8 s'.bytes (s'.offset - 1), s'))

unfoldable pub get16 : Bstream → ℕ × Bstream
unfolding empty
get16 s =
    if ltb (empty s) 2
    then (0, s)
    else (let s' = moved s 2 in (Word.get16 s'.bytes (s'.offset - 2), s'))

unfoldable pub get32 : Bstream → ℕ × Bstream
unfolding empty
get32 s =
    if ltb (empty s) 4
    then (0, s)
    else (let s' = moved s 4 in (Word.get32 s'.bytes (s'.offset - 4), s'))

unfoldable pub getle8 : Bstream → ℕ × Bstream
unfolding empty
getle8 s =
    if ltb (empty s) 1
    then (0, s)
    else (let s' = moved s 1 in (Word.getle8 s'.bytes (s'.offset - 1), s'))

unfoldable pub getle16 : Bstream → ℕ × Bstream
unfolding empty
getle16 s =
    if ltb (empty s) 2
    then (0, s)
    else (let s' = moved s 2 in (Word.getle16 s'.bytes (s'.offset - 2), s'))

unfoldable pub getle32 : Bstream → ℕ × Bstream
unfolding empty
getle32 s =
    if ltb (empty s) 4
    then (0, s)
    else (let s' = moved s 4 in (Word.getle32 s'.bytes (s'.offset - 4), s'))

-- `bs->offset += aimutil_put*(bs->data + bs->offset, v)`, where the macro stores `vs` and returns
-- how many bytes these are.
abbrev pub store : Bstream → List ℕ → Bstream
store s vs = record s { bytes = patch s.offset vs s.bytes; offset = s.offset + length vs }

unfoldable pub put8 : Bstream → ℕ → ℕ × Bstream
unfolding empty
put8 s v = if ltb (empty s) 1 then (0, s) else (1, store s (Word.put8 v))

unfoldable pub put16 : Bstream → ℕ → ℕ × Bstream
unfolding empty
put16 s v = if ltb (empty s) 2 then (0, s) else (2, store s (Word.put16 v))

-- The source returns 1 here, not 4.
unfoldable pub put32 : Bstream → ℕ → ℕ × Bstream
unfolding empty
put32 s v = if ltb (empty s) 4 then (0, s) else (1, store s (Word.put32 v))

unfoldable pub putle8 : Bstream → ℕ → ℕ × Bstream
unfolding empty
putle8 s v = if ltb (empty s) 1 then (0, s) else (1, store s (Word.putle8 v))

unfoldable pub putle16 : Bstream → ℕ → ℕ × Bstream
unfolding empty
putle16 s v = if ltb (empty s) 2 then (0, s) else (2, store s (Word.putle16 v))

unfoldable pub putle32 : Bstream → ℕ → ℕ × Bstream
unfolding empty
putle32 s v = if ltb (empty s) 4 then (0, s) else (1, store s (Word.putle32 v))

-- The bytes copied to the caller's buffer stand behind the result.
unfoldable pub getrawbuf : Bstream → ℕ → ℕ × List ℕ × Bstream
unfolding empty
getrawbuf s n =
    if ltb (empty s) n then (0, [], s) else (n, take n (drop s.offset s.bytes), moved s n)

unfoldable pub getraw : Bstream → ℕ → Option (List ℕ) × Bstream
unfolding getrawbuf
getraw s n =
    let (count, ob, s') = getrawbuf s n in if ltb count n then (none, s') else (some ob, s')

-- The string ends with its NUL.
unfoldable pub getstr : Bstream → ℕ → Option (List ℕ) × Bstream
unfolding getrawbuf
getstr s n =
    let (count, ob, s') = getrawbuf s n in
    if ltb count n then (none, s') else (some (ob ++ (0 ∷ [])), s')

unfoldable pub putraw : Bstream → List ℕ → ℕ → ℕ × Bstream
unfolding empty
putraw s v n =
    if ltb (empty s) n
    then (0, s)
    else (n, record s { bytes = patch s.offset (take n v) s.bytes; offset = s.offset + n })

-- The result, the stream written and the stream read.
unfoldable pub putbs : Bstream → Bstream → ℕ → ℕ × Bstream × Bstream
unfolding empty
putbs s src n =
    if ltb (empty src) n then (0, s, src) else if ltb (empty s) n then (0, s, src) else (
      n,
      record s {
        bytes = patch s.offset (take n (drop src.offset src.bytes)) s.bytes;
        offset = s.offset + n;
      },
      moved src n,
    )
