-- ===== src/Caps.antt =====
-- irssi-icq/src/protocols/oscar/info.c: the capabilities of a client, aim_caps, aim_getcap and aim_putcap. The entry
-- AIM_CAPS_LAST is the end of the list here. Allocations succeed.
pub mod Table
pub mod RoundTrip
pub mod Null
mod Examples
use irssi_icq.Base.{
  ℕ, zero, suc, ◌+◌, ◌==◌, leb, List, [], ◌∷◌, Bool, true, false, ◌||◌, Option, none, some,
  if◌then◌else◌, bytes_eq,
}
use Prim.Native.Nat.{bit_and, bit_or}
use irssi_icq.Bstream
use irssi_icq.Bstream.{Bstream}

pub record Cap : Type 0 where
  pub flag : ℕ
  pub content : List ℕ

unfoldable pub aim_caps : List Cap
aim_caps =
    record {
      flag = 0x00080000;
      content =
          0x09 ∷ 0x46 ∷ 0x00 ∷ 0x00 ∷ 0x4c ∷ 0x7f ∷ 0x11 ∷ 0xd1 ∷ 0x82 ∷ 0x22 ∷ 0x44 ∷ 0x45 ∷ 0x53
          ∷ 0x54 ∷ 0x00 ∷ 0x00 ∷ [];
    }
    ∷ record {
      flag = 0x00200000;
      content =
          0x09 ∷ 0x46 ∷ 0x00 ∷ 0x01 ∷ 0x4c ∷ 0x7f ∷ 0x11 ∷ 0xd1 ∷ 0x82 ∷ 0x22 ∷ 0x44 ∷ 0x45 ∷ 0x53
          ∷ 0x54 ∷ 0x00 ∷ 0x00 ∷ [];
    }
    ∷ record {
      flag = 0x00100000;
      content =
          0x09 ∷ 0x46 ∷ 0x13 ∷ 0x23 ∷ 0x4c ∷ 0x7f ∷ 0x11 ∷ 0xd1 ∷ 0x82 ∷ 0x22 ∷ 0x44 ∷ 0x45 ∷ 0x53
          ∷ 0x54 ∷ 0x00 ∷ 0x00 ∷ [];
    }
    ∷ record {
      flag = 0x00000002;
      content =
          0x09 ∷ 0x46 ∷ 0x13 ∷ 0x41 ∷ 0x4c ∷ 0x7f ∷ 0x11 ∷ 0xd1 ∷ 0x82 ∷ 0x22 ∷ 0x44 ∷ 0x45 ∷ 0x53
          ∷ 0x54 ∷ 0x00 ∷ 0x00 ∷ [];
    }
    ∷ record {
      flag = 0x00000020;
      content =
          0x09 ∷ 0x46 ∷ 0x13 ∷ 0x43 ∷ 0x4c ∷ 0x7f ∷ 0x11 ∷ 0xd1 ∷ 0x82 ∷ 0x22 ∷ 0x44 ∷ 0x45 ∷ 0x53
          ∷ 0x54 ∷ 0x00 ∷ 0x00 ∷ [];
    }
    ∷ record {
      flag = 0x00000400;
      content =
          0x09 ∷ 0x46 ∷ 0x13 ∷ 0x44 ∷ 0x4c ∷ 0x7f ∷ 0x11 ∷ 0xd1 ∷ 0x82 ∷ 0x22 ∷ 0x44 ∷ 0x45 ∷ 0x53
          ∷ 0x54 ∷ 0x00 ∷ 0x00 ∷ [];
    }
    ∷ record {
      flag = 0x00000004;
      content =
          0x09 ∷ 0x46 ∷ 0x13 ∷ 0x45 ∷ 0x4c ∷ 0x7f ∷ 0x11 ∷ 0xd1 ∷ 0x82 ∷ 0x22 ∷ 0x44 ∷ 0x45 ∷ 0x53
          ∷ 0x54 ∷ 0x00 ∷ 0x00 ∷ [];
    }
    ∷ record {
      flag = 0x00000001;
      content =
          0x09 ∷ 0x46 ∷ 0x13 ∷ 0x46 ∷ 0x4c ∷ 0x7f ∷ 0x11 ∷ 0xd1 ∷ 0x82 ∷ 0x22 ∷ 0x44 ∷ 0x45 ∷ 0x53
          ∷ 0x54 ∷ 0x00 ∷ 0x00 ∷ [];
    }
    ∷ record {
      flag = 0x00000080;
      content =
          0x09 ∷ 0x46 ∷ 0x13 ∷ 0x47 ∷ 0x4c ∷ 0x7f ∷ 0x11 ∷ 0xd1 ∷ 0x82 ∷ 0x22 ∷ 0x44 ∷ 0x45 ∷ 0x53
          ∷ 0x54 ∷ 0x00 ∷ 0x00 ∷ [];
    }
    ∷ record {
      flag = 0x00000010;
      content =
          0x09 ∷ 0x46 ∷ 0x13 ∷ 0x48 ∷ 0x4c ∷ 0x7f ∷ 0x11 ∷ 0xd1 ∷ 0x82 ∷ 0x22 ∷ 0x44 ∷ 0x45 ∷ 0x53
          ∷ 0x54 ∷ 0x00 ∷ 0x00 ∷ [];
    }
    ∷ record {
      flag = 0x00004000;
      content =
          0x09 ∷ 0x46 ∷ 0x13 ∷ 0x49 ∷ 0x4c ∷ 0x7f ∷ 0x11 ∷ 0xd1 ∷ 0x82 ∷ 0x22 ∷ 0x44 ∷ 0x45 ∷ 0x53
          ∷ 0x54 ∷ 0x00 ∷ 0x00 ∷ [];
    }
    ∷ record {
      flag = 0x00000040;
      content =
          0x09 ∷ 0x46 ∷ 0x13 ∷ 0x4a ∷ 0x4c ∷ 0x7f ∷ 0x11 ∷ 0xd1 ∷ 0x82 ∷ 0x22 ∷ 0x44 ∷ 0x45 ∷ 0x53
          ∷ 0x54 ∷ 0x00 ∷ 0x00 ∷ [];
    }
    ∷ record {
      flag = 0x00000200;
      content =
          0x09 ∷ 0x46 ∷ 0x13 ∷ 0x4a ∷ 0x4c ∷ 0x7f ∷ 0x11 ∷ 0xd1 ∷ 0x22 ∷ 0x82 ∷ 0x44 ∷ 0x45 ∷ 0x53
          ∷ 0x54 ∷ 0x00 ∷ 0x00 ∷ [];
    }
    ∷ record {
      flag = 0x00000100;
      content =
          0x09 ∷ 0x46 ∷ 0x13 ∷ 0x4b ∷ 0x4c ∷ 0x7f ∷ 0x11 ∷ 0xd1 ∷ 0x82 ∷ 0x22 ∷ 0x44 ∷ 0x45 ∷ 0x53
          ∷ 0x54 ∷ 0x00 ∷ 0x00 ∷ [];
    }
    ∷ record {
      flag = 0x00040000;
      content =
          0x09 ∷ 0x46 ∷ 0x13 ∷ 0x4d ∷ 0x4c ∷ 0x7f ∷ 0x11 ∷ 0xd1 ∷ 0x82 ∷ 0x22 ∷ 0x44 ∷ 0x45 ∷ 0x53
          ∷ 0x54 ∷ 0x00 ∷ 0x00 ∷ [];
    }
    ∷ record {
      flag = 0x00020000;
      content =
          0x09 ∷ 0x46 ∷ 0x13 ∷ 0x4e ∷ 0x4c ∷ 0x7f ∷ 0x11 ∷ 0xd1 ∷ 0x82 ∷ 0x22 ∷ 0x44 ∷ 0x45 ∷ 0x53
          ∷ 0x54 ∷ 0x00 ∷ 0x00 ∷ [];
    }
    ∷ record {
      flag = 0x00008000;
      content =
          0x2e ∷ 0x7a ∷ 0x64 ∷ 0x75 ∷ 0xfa ∷ 0xdf ∷ 0x4d ∷ 0xc8 ∷ 0x88 ∷ 0x6f ∷ 0xea ∷ 0x35 ∷ 0x95
          ∷ 0xfd ∷ 0xb6 ∷ 0xdf ∷ [];
    }
    ∷ record {
      flag = 0x00000008;
      content =
          0x74 ∷ 0x8f ∷ 0x24 ∷ 0x20 ∷ 0x62 ∷ 0x87 ∷ 0x11 ∷ 0xd1 ∷ 0x82 ∷ 0x22 ∷ 0x44 ∷ 0x45 ∷ 0x53
          ∷ 0x54 ∷ 0x00 ∷ 0x00 ∷ [];
    }
    ∷ record {
      flag = 0x00001000;
      content =
          0x97 ∷ 0xb1 ∷ 0x27 ∷ 0x51 ∷ 0x24 ∷ 0x3c ∷ 0x43 ∷ 0x34 ∷ 0xad ∷ 0x22 ∷ 0xd6 ∷ 0xab ∷ 0xf7
          ∷ 0x3f ∷ 0x14 ∷ 0x92 ∷ [];
    }
    ∷ record {
      flag = 0x00000800;
      content =
          0xaa ∷ 0x4a ∷ 0x32 ∷ 0xb5 ∷ 0xf8 ∷ 0x84 ∷ 0x48 ∷ 0xc6 ∷ 0xa3 ∷ 0xd7 ∷ 0x8c ∷ 0x50 ∷ 0x97
          ∷ 0x19 ∷ 0xfd ∷ 0x5b ∷ [];
    }
    ∷ record {
      flag = 0x00010000;
      content =
          0xf2 ∷ 0xe7 ∷ 0xc7 ∷ 0xf4 ∷ 0xfe ∷ 0xad ∷ 0x4d ∷ 0xfb ∷ 0xb2 ∷ 0x35 ∷ 0x36 ∷ 0x79 ∷ 0x8b
          ∷ 0xdf ∷ 0x00 ∷ 0x00 ∷ [];
    }
    ∷ record {
      flag = 0x00002000;
      content =
          0x00 ∷ 0x00 ∷ 0x00 ∷ 0x00 ∷ 0x00 ∷ 0x00 ∷ 0x00 ∷ 0x00 ∷ 0x00 ∷ 0x00 ∷ 0x00 ∷ 0x00 ∷ 0x00
          ∷ 0x00 ∷ 0x00 ∷ 0x00 ∷ [];
    }
    ∷ []

-- The flag of the first entry with these bytes.
unfoldable pub find_flag : List ℕ → List Cap → Option ℕ
find_flag cap [] = none
find_flag cap (c ∷ t) = if bytes_eq c.content cap then some c.flag else find_flag cap t

-- `flags |= aim_caps[i].flag`, for a capability that is known.
unfoldable pub identify : ℕ → List ℕ → ℕ
unfolding find_flag aim_caps
identify flags cap = elim (find_flag cap aim_caps) [ none ↦ flags | some flag ↦ bit_or flags flag ]

-- The flags and the stream; the access through NULL, where aimbs_getraw has no sixteen bytes; or no fuel left.
pub data Outcome : Type 0 where
  read : ℕ → Bstream → Outcome
  null spent : Outcome

-- The loop ends when no bytes are left, or the offset has reached `len`.
unfoldable pub ends : Bstream → ℕ → ℕ → Bool
ends s offset len = Bstream.empty s == 0 || leb len offset

unfoldable pub getcap_loop : ℕ → Bstream → ℕ → ℕ → ℕ → Outcome
unfolding ends identify
getcap_loop zero s offset len flags = if ends s offset len then read flags s else spent
getcap_loop (suc fuel) s offset len flags = elim (ends s offset len) [
  | true ↦ read flags s
  | false ↦
      let (found, s') = Bstream.getraw s 16 in
      elim found [
        | none ↦ null
        | some cap ↦ getcap_loop fuel s' (offset + 16) len (identify flags cap)
      ]
]

unfoldable pub getcap : Bstream → ℕ → Outcome
getcap s len = getcap_loop len s 0 len 0

unfoldable pub putcap_loop : Bstream → ℕ → List Cap → Bstream
putcap_loop s caps [] = s
putcap_loop s caps (c ∷ t) =
    if Bstream.empty s == 0
    then s
    else putcap_loop (if bit_and caps c.flag == 0 then s else (Bstream.putraw s c.content 16).1)
        caps t

unfoldable pub putcap : Bstream → ℕ → Bstream
unfolding aim_caps
putcap s caps = putcap_loop s caps aim_caps
