-- ===== src/Bstream/View.antt =====
-- What a stream holds: the bytes before its cursor and those still to come, and the invariant that
-- keeps every access of bstream.c inside the buffer.
use irssi_icq.Base.{
  ℕ, ◌+◌, ◌≤◌, ◌≡◌, refl, ◌∙◌, List, ◌++◌, arith, length, take, drop, All, length-drop, length-take,
  drop-drop,
}
use irssi_icq.Base.Patch.{length-patch, All-patch, take-patch, drop-patch, drop-patch_at, All-drop}
use irssi_icq.Word.RoundTrip.{IsByte}
use irssi_icq.Bstream.{Bstream, init, empty, setpos, rewind, moved, store}

pub record IsValid (s : Bstream) : Type 0 where
  pub sized : length s.bytes ≡ s.len
  pub within : s.offset ≤ s.len
  pub bounded : All IsByte s.bytes

-- The bytes before the cursor.
abbrev pub written : Bstream → List ℕ
written s = take s.offset s.bytes

-- The bytes from the cursor on.
abbrev pub pending : Bstream → List ℕ
pending s = drop s.offset s.bytes

pub length-pending : (s : Bstream) → IsValid s → length (pending s) ≡ empty s
unfolding empty
length-pending s v = omega (arith, length-drop s.offset s.bytes)

pub length-written : (s : Bstream) → IsValid s → length (written s) ≡ s.offset
length-written s v = omega (arith, length-take s.offset s.bytes)

pub pending-IsByte : (s : Bstream) → IsValid s → All IsByte (pending s)
pending-IsByte s v = All-drop IsByte s.offset s.bytes v.bounded

pub pending-moved : (s : Bstream) (n : ℕ) → pending (moved s n) ≡ drop n (pending s)
pending-moved s n = drop-drop s.offset n s.bytes

pub moved-IsValid : (s : Bstream) (n : ℕ) → IsValid s → n ≤ empty s → IsValid (moved s n)
unfolding empty
moved-IsValid s n v h = record {
  sized = v.sized;
  within = omega (arith, v.within);
  bounded = v.bounded;
}

pub setpos-IsValid : (s : Bstream) (n : ℕ) → IsValid s → IsValid (setpos s n).1
unfolding setpos
setpos-IsValid s n v = ground arith

pub rewind-IsValid : (s : Bstream) → IsValid s → IsValid (rewind s)
unfolding rewind
rewind-IsValid s v = ground arith

pub init-IsValid : (buf : List ℕ) → All IsByte buf → IsValid (init buf (length buf))
unfolding init
init-IsValid buf h = record { sized = refl; within = omega arith; bounded = h }

-- A store of `vs` where there is room for it.
module _ (s : Bstream) (vs : List ℕ) (v : IsValid s) (room : length vs ≤ empty s) where
  room_in : s.offset + length vs ≤ length s.bytes
  unfolding empty
  room_in = omega (arith, room, v.sized, v.within)

  offset_in : s.offset ≤ length s.bytes
  offset_in = omega (arith, room_in)

  pub store-IsValid : All IsByte vs → IsValid (store s vs)
  unfolding empty
  store-IsValid hv = record {
    sized = length-patch s.offset vs s.bytes room_in ∙ v.sized;
    within = omega (arith, room, v.within);
    bounded = All-patch IsByte s.offset vs s.bytes hv v.bounded;
  }

  pub written-store : written (store s vs) ≡ written s ++ vs
  written-store = take-patch s.offset vs s.bytes offset_in

  pub pending-store : pending (store s vs) ≡ drop (length vs) (pending s)
  pending-store = drop-patch s.offset vs s.bytes offset_in ∙ drop-drop s.offset (length vs) s.bytes

  pub empty-store : empty (store s vs) + length vs ≡ empty s
  unfolding empty
  empty-store = omega (arith, room, v.within)

  -- What was stored stands at the old cursor.
  pub stored_at : drop s.offset (store s vs).bytes ≡ vs ++ drop (s.offset + length vs) s.bytes
  stored_at = drop-patch_at s.offset vs s.bytes offset_in
