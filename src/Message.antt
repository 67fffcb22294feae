-- ===== src/Message.antt =====
-- irssi-icq/src/protocols/oscar/im.c: multipart messages, the functions aim_mpmsg_*, the loops of aim_im_sendch1_ext
-- over the parts, and incomingim_ch1_parsemsgs. Allocations succeed, and `none` is the pointer NULL. `fu16_t` is
-- reduced by 2 ^ 16. `memory` is what the buffer of aim_mpmsg_addunicode holds before it is filled.
pub mod Parts
pub mod Received
pub mod Choice
mod Examples
use irssi_icq.Base.{
  ℕ, zero, suc, ◌+◌, ◌-◌, ◌*◌, ◌%◌, ◌^◌, ◌==◌, List, [], ◌∷◌, ◌++◌, Bool, true, false, Option, none,
  some, if◌then◌else◌, length, take, ◌>>=◌,
}
use irssi_icq.Bstream
use irssi_icq.Bstream.{Bstream}
use Prim.Native.Nat.{bit_or}

pub record Section : Type 0 where
  pub charset : ℕ
  pub charsubset : ℕ
  pub content : Option (List ℕ)
  pub datalen : ℕ

pub record Mpmsg : Type 0 where
  pub numparts : ℕ
  pub parts : List Section

unfoldable pub mpmsg_init : Mpmsg
mpmsg_init = record { numparts = 0; parts = [] }

unfoldable pub addsection : Mpmsg → ℕ → ℕ → Option (List ℕ) → ℕ → Mpmsg
addsection mpm charset charsubset content datalen = record {
  numparts = mpm.numparts + 1;
  parts =
      mpm.parts
      ++ (record {
        charset = charset;
        charsubset = charsubset;
        content = content;
        datalen = datalen;
      }
          ∷ []);
}

unfoldable pub addraw : Mpmsg → ℕ → ℕ → List ℕ → ℕ → Mpmsg
unfolding addsection
addraw mpm charset charsubset bytes datalen =
    addsection mpm charset charsubset (some (take datalen bytes)) datalen

-- `strdup` copies the NUL as well.
unfoldable pub addascii : Mpmsg → List ℕ → Mpmsg
unfolding addsection
addascii mpm ascii = addsection mpm 0x0000 0x0000 (some (ascii ++ (0 ∷ []))) (length ascii % 2 ^ 16)

-- The loop that stores the characters.
unfoldable pub put_chars : Bstream → List ℕ → Bstream
put_chars bs [] = bs
put_chars bs (c ∷ unicode) = put_chars (Bstream.put16 bs c).1 unicode

unfoldable pub addunicode : List ℕ → Mpmsg → List ℕ → Mpmsg
unfolding addsection put_chars
addunicode memory mpm unicode =
    let bs = put_chars (Bstream.init memory (length unicode * 2)) unicode in
    addsection mpm 0x0002 0x0000 (some bs.bytes) (Bstream.curpos bs % 2 ^ 16)

unfoldable pub mpmsg_free : Mpmsg → Mpmsg
mpmsg_free mpm = record { numparts = 0; parts = [] }

-- The part of `msgtlvlen` that the loop adds.
unfoldable pub parts_len : List Section → ℕ
parts_len [] = 0
parts_len (sec ∷ parts) = 2 + 2 + (4 + sec.datalen) + parts_len parts

-- A part with the pointer NULL is taken to have no bytes.
abbrev pub bytes_of : Option (List ℕ) → List ℕ
bytes_of none = []
bytes_of (some bytes) = bytes

unfoldable pub put_part : Bstream → Section → Bstream
put_part bs sec =
    let bs1 = (Bstream.put16 bs 0x0101).1 in
    let bs2 = (Bstream.put16 bs1 (sec.datalen + 4)).1 in
    let bs3 = (Bstream.put16 bs2 sec.charset).1 in
    let bs4 = (Bstream.put16 bs3 sec.charsubset).1 in
    (Bstream.putraw bs4 (bytes_of sec.content) sec.datalen).1

unfoldable pub put_parts : Bstream → List Section → Bstream
unfolding put_part
put_parts bs [] = bs
put_parts bs (sec ∷ parts) = put_parts (put_part bs sec) parts

-- One round of the loop of incomingim_ch1_parsemsgs.
unfoldable pub read_part : Bstream → Section × Bstream
read_part bs =
    let bs1 = (Bstream.get8 bs).1 in
    let bs2 = (Bstream.get8 bs1).1 in
    let (len, bs3) = Bstream.get16 bs2 in
    let (flag1, bs4) = Bstream.get16 bs3 in
    let (flag2, bs5) = Bstream.get16 bs4 in
    let msglen = (len + 2 ^ 16 - 4) % 2 ^ 16 in
    let (msgbuf, bs6) = Bstream.getstr bs5 msglen in
    (record { charset = flag1; charsubset = flag2; content = msgbuf; datalen = msglen }, bs6)

-- The while loop; `none` says that the fuel, one round for each byte, has run out.
unfoldable pub read_parts : ℕ → Bstream → Mpmsg → Option Mpmsg
unfolding read_part addsection
read_parts zero bs mpm = if Bstream.empty bs == 0 then some mpm else none
read_parts (suc fuel) bs mpm = elim (Bstream.empty bs == 0) [
  | true ↦ some mpm
  | false ↦
      let (sec, bs') = read_part bs in
      read_parts fuel bs' (addsection mpm sec.charset sec.charsubset sec.content sec.datalen)
]

-- What the function fills in of `struct aim_incomingim_ch1_args`.
pub record Args : Type 0 where
  pub mpmsg : Mpmsg
  pub icbmflags : ℕ
  pub charset : ℕ
  pub charsubset : ℕ
  pub msg : Option (List ℕ)
  pub msglen : ℕ

unfoldable pub find_part : ℕ → List Section → Option Section
find_part charset [] = none
find_part charset (sec ∷ parts) =
    if sec.charset == charset then some sec else find_part charset parts

-- The simple flags.
unfoldable pub charset_flags : ℕ → ℕ → ℕ
charset_flags flags charset =
    if charset == 0x0002
    then bit_or flags 0x0004
    else if charset == 0x0003
    then bit_or flags 0x0008
    else flags

unfoldable pub charsubset_flags : ℕ → ℕ → ℕ
charsubset_flags flags charsubset = if charsubset == 0x000b then bit_or flags 0x0040 else flags

unfoldable pub fill : Args → Section → Args
unfolding charset_flags charsubset_flags
fill args sec = record args {
  icbmflags = charsubset_flags (charset_flags args.icbmflags sec.charset) sec.charsubset;
  charset = sec.charset;
  charsubset = sec.charsubset;
  msg = sec.content;
  msglen = sec.datalen;
}

-- The loop over `charsetpri`.
unfoldable pub choose : List ℕ → Args → Args
unfolding find_part fill
choose [] args = record args { charset = 0xffff; charsubset = 0xffff; msg = none; msglen = 0 }
choose (pri ∷ rest) args = elim (find_part pri args.mpmsg.parts) [
  | none ↦ choose rest args
  | some sec ↦ fill args sec
]

abbrev pub charsetpri : List ℕ
charsetpri = 0x0000 ∷ 0x0003 ∷ 0x0002 ∷ []

unfoldable pub parsemsgs : List ℕ → ℕ → Args → Option Args
unfolding read_parts choose
parsemsgs bytes len args = do
  mpm ← read_parts len (Bstream.init bytes len) args.mpmsg
  some (choose charsetpri (record args { mpmsg = mpm; icbmflags = bit_or args.icbmflags 0x0400 }))
