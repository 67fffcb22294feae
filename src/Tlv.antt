-- ===== src/Tlv.antt =====
-- irssi-icq/src/protocols/oscar/tlv.c: chains of type-length-value triples, the functions
-- aim_readtlvchain*, aim_writetlvchain, aim_addtlvtochain*, aim_gettlv* and the like.
-- A chain is the list of its triples in the order of the `next` pointers; NULL is the empty list,
-- and the value NULL of a triple of length 0 is the empty list of bytes. Allocations succeed. The
-- loop of aim_readtlvchain has fuel, and so has that of aim_readtlvchain_len: `none` is no C result,
-- but a loop that is not at its end. A number of the type fu16_t is taken modulo 2 ^ 16 where the
-- code converts to it.
pub mod Format
pub mod Read
pub mod Limits
pub mod Write
pub mod Lookup
pub mod RoundTrip
pub mod Edit
mod Examples
use irssi_icq.Base.{
  ℕ, zero, suc, ◌+◌, ◌-◌, ◌%◌, ◌^◌, List, [], ◌∷◌, ◌++◌, Option, none, some, Bool, true, false, ltb,
  leb, ◌==◌, if◌then◌else◌, length, take, bytes_eq, not,
}
use irssi_icq.Word
use irssi_icq.Bstream
use irssi_icq.Bstream.{Bstream}

pub record Tlv : Type 0 where
  pub type : ℕ
  pub len : ℕ
  pub value : List ℕ

-- The rest of a round of the reading loops behind the header: the check of the length, and the
-- value. `none` is the exit that frees the chain and returns NULL.
unfoldable pub read_value : ℕ → ℕ → Bstream → Option Tlv × Bstream
read_value type len s =
    if ltb (Bstream.empty s) len
    then (none, s)
    else if len == 0
    then (some (record { type = type; len = len; value = [] }), s)
    else (let (value, s') = Bstream.getraw s len in
        elim value [
          | none ↦ (none, s')
          | some v ↦ (some (record { type = type; len = len; value = v }), s')
        ])

unfoldable pub read_tlv : Bstream → Option Tlv × Bstream
unfolding read_value
read_tlv s =
    let (type, s1) = Bstream.get16 s in let (len, s2) = Bstream.get16 s1 in read_value type len s2

-- `while (aim_bstream_empty(bs) > 0)`, with the chain read so far, which grows at its front.
unfoldable pub read_loop : ℕ → Bstream → List Tlv → Option (List Tlv × Bstream)
read_loop zero s list = if ltb 0 (Bstream.empty s) then none else some (list, s)
read_loop (suc fuel) s list = elim (ltb 0 (Bstream.empty s)) [
  | true ↦
      (let (t, s') = read_tlv s in
        elim t [ none ↦ some ([], s') | some cur ↦ read_loop fuel s' (cur ∷ list) ])
  | false ↦ some (list, s)
]

unfoldable pub readtlvchain : ℕ → Bstream → Option (List Tlv × Bstream)
unfolding read_loop read_tlv
readtlvchain fuel s = read_loop fuel s []

-- The loop of aim_readtlvchain_num: at most `num` rounds, where `num`, of the type fu16_t, is below
-- 2 ^ 16, as aim_readtlvchain_num passes it, and only goes down.
unfoldable pub read_num_loop : ℕ → Bstream → List Tlv → List Tlv × Bstream
read_num_loop zero s list = (list, s)
read_num_loop (suc num) s list = elim (ltb 0 (Bstream.empty s)) [
  | true ↦
      (let (t, s') = read_tlv s in
        elim t [ none ↦ ([], s') | some cur ↦ read_num_loop num s' (cur ∷ list) ])
  | false ↦ (list, s)
]

-- The count is converted to fu16_t by the call.
unfoldable pub readtlvchain_num : Bstream → ℕ → List Tlv × Bstream
unfolding read_num_loop read_tlv
readtlvchain_num s num = read_num_loop (num % 2 ^ 16) s []

unfoldable pub sizetlvchain : List Tlv → ℕ
sizetlvchain [] = 0
sizetlvchain (cur ∷ rest) = 4 + cur.len + sizetlvchain rest

-- The loop of aim_readtlvchain_len: `len -= aim_sizetlvchain(&cur)` is a subtraction on fu16_t, of
-- the size of a chain of one triple, and wraps round.
unfoldable pub read_len_loop : ℕ → Bstream → ℕ → List Tlv → Option (List Tlv × Bstream)
unfolding sizetlvchain
read_len_loop zero s len list =
    if ltb 0 (Bstream.empty s) then (if ltb 0 len then none else some (list, s)) else some (list, s)
read_len_loop (suc fuel) s len list = elim (ltb 0 (Bstream.empty s)) [
  | true ↦ elim (ltb 0 len) [
    | true ↦
        (let (t, s') = read_tlv s in
          elim t [
            | none ↦ some ([], s')
            | some cur ↦
                read_len_loop fuel s' ((len + 2 ^ 17 - sizetlvchain (cur ∷ [])) % 2 ^ 16)
                  (cur ∷ list)
          ])
    | false ↦ some (list, s)
  ]
  | false ↦ some (list, s)
]

-- The length is converted to fu16_t by the call.
unfoldable pub readtlvchain_len : ℕ → Bstream → ℕ → Option (List Tlv × Bstream)
unfolding read_len_loop read_tlv
readtlvchain_len fuel s len = read_len_loop fuel s (len % 2 ^ 16) []

unfoldable pub counttlvchain : List Tlv → ℕ
counttlvchain [] = 0
counttlvchain (cur ∷ rest) = suc (counttlvchain rest)

-- The new triple goes behind the last one.
unfoldable pub append_tlv : List Tlv → Tlv → List Tlv
append_tlv [] new = new ∷ []
append_tlv (cur ∷ rest) new = cur ∷ append_tlv rest new

unfoldable pub addtlvtochain_raw : List Tlv → ℕ → ℕ → List ℕ → ℕ × List Tlv
unfolding append_tlv
addtlvtochain_raw list t l v =
    let value : List ℕ = if l == 0 then [] else take l v in
    (l, append_tlv list (record { type = t; len = l; value = value }))

unfoldable pub addtlvtochain8 : List Tlv → ℕ → ℕ → ℕ × List Tlv
unfolding addtlvtochain_raw
addtlvtochain8 list t v = addtlvtochain_raw list t 1 (Word.put8 v)

unfoldable pub addtlvtochain16 : List Tlv → ℕ → ℕ → ℕ × List Tlv
unfolding addtlvtochain_raw
addtlvtochain16 list t v = addtlvtochain_raw list t 2 (Word.put16 v)

unfoldable pub addtlvtochain32 : List Tlv → ℕ → ℕ → ℕ × List Tlv
unfolding addtlvtochain_raw
addtlvtochain32 list t v = addtlvtochain_raw list t 4 (Word.put32 v)

unfoldable pub addtlvtochain_noval : List Tlv → ℕ → ℕ × List Tlv
unfolding addtlvtochain_raw
addtlvtochain_noval list t = addtlvtochain_raw list t 0 []

-- The loop of aim_tlvlist_copy, with the copy made so far.
unfoldable pub copy_loop : List Tlv → List Tlv → List Tlv
unfolding addtlvtochain_raw
copy_loop new [] = new
copy_loop new (orig ∷ rest) = copy_loop (addtlvtochain_raw new orig.type orig.len orig.value).1 rest

unfoldable pub tlvlist_copy : List Tlv → List Tlv
unfolding copy_loop
tlvlist_copy orig = copy_loop [] orig

-- The write-out loop of aim_writetlvchain.
unfoldable pub write_loop : Bstream → List Tlv → Bstream
write_loop s [] = s
write_loop s (cur ∷ rest) =
    let s1 = (Bstream.put16 s cur.type).1 in
    let s2 = (Bstream.put16 s1 cur.len).1 in
    let s3 : Bstream = if cur.len == 0 then s2 else (Bstream.putraw s2 cur.value cur.len).1 in
    write_loop s3 rest

unfoldable pub writetlvchain : Bstream → List Tlv → ℕ × Bstream
unfolding write_loop sizetlvchain
writetlvchain s list =
    if ltb (Bstream.empty s) (sizetlvchain list) then (0, s) else (1, write_loop s list)

-- `buf1` and `buf2` are what `malloc` returns: memory of the size asked for, of any content.
unfoldable pub tlvlist_cmp : List ℕ → List ℕ → List Tlv → List Tlv → ℕ
unfolding writetlvchain
tlvlist_cmp buf1 buf2 one two =
    if not (sizetlvchain one == sizetlvchain two)
    then 1
    else (let bs1 = (writetlvchain (Bstream.init buf1 (sizetlvchain one)) one).1 in
        let bs2 = (writetlvchain (Bstream.init buf2 (sizetlvchain two)) two).1 in
        if not (bytes_eq (take bs1.len bs1.bytes) (take bs1.len bs2.bytes)) then 1 else 0)

-- `buf` is the memory that `malloc` returns. The length is converted to fu16_t by the call.
unfoldable pub addtlvtochain_frozentlvlist : List ℕ → List Tlv → ℕ → List Tlv → ℕ × List Tlv
unfolding writetlvchain addtlvtochain_raw
addtlvtochain_frozentlvlist buf list type tl =
    let buflen = sizetlvchain tl in
    if buflen == 0
    then (0, list)
    else (let bs = (writetlvchain (Bstream.init buf buflen) tl).1 in
        (buflen, (addtlvtochain_raw list type (Bstream.curpos bs % 2 ^ 16) bs.bytes).1))

-- The loop of aim_gettlv, with the count `i` of triples of the type `t` seen so far.
unfoldable pub gettlv_loop : ℕ → List Tlv → ℕ → ℕ → Option Tlv
gettlv_loop i [] t n = none
gettlv_loop i (cur ∷ rest) t n =
    let i' : ℕ = if cur.type == t then i + 1 else i in
    if leb n i' then some cur else gettlv_loop i' rest t n

unfoldable pub gettlv : List Tlv → ℕ → ℕ → Option Tlv
unfolding gettlv_loop
gettlv list t n = gettlv_loop 0 list t n

-- The string ends with its NUL.
unfoldable pub gettlv_str : List Tlv → ℕ → ℕ → Option (List ℕ)
unfolding gettlv
gettlv_str list t n = elim (gettlv list t n) [
  | none ↦ none
  | some tlv ↦ some (take tlv.len tlv.value ++ (0 ∷ []))
]

-- These three read one, two and four bytes of the value, however long it is; `none` is the read
-- behind its end, which C leaves undefined.
unfoldable pub gettlv8 : List Tlv → ℕ → ℕ → Option ℕ
unfolding gettlv
gettlv8 list t n = elim (gettlv list t n) [
  | none ↦ some 0
  | some tlv ↦ if ltb (length tlv.value) 1 then none else some (Word.get8 tlv.value 0)
]

unfoldable pub gettlv16 : List Tlv → ℕ → ℕ → Option ℕ
unfolding gettlv
gettlv16 list t n = elim (gettlv list t n) [
  | none ↦ some 0
  | some tlv ↦ if ltb (length tlv.value) 2 then none else some (Word.get16 tlv.value 0)
]

unfoldable pub gettlv32 : List Tlv → ℕ → ℕ → Option ℕ
unfolding gettlv
gettlv32 list t n = elim (gettlv list t n) [
  | none ↦ some 0
  | some tlv ↦ if ltb (length tlv.value) 4 then none else some (Word.get32 tlv.value 0)
]
