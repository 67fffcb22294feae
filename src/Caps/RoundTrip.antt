-- ===== src/Caps/RoundTrip.antt =====
-- info.c: aim_getcap reads what aim_putcap writes.
use irssi_icq.Base.{
  ℕ, ◌-◌, zero, suc, ◌+◌, ◌*◌, ◌≤◌, ◌<◌, ◌≡◌, refl, ◌∙◌, ap, subst, ◌==◌, List, [], ◌∷◌, ◌++◌, true,
  false, some, arith, All, length, take, drop, Bool-cases, inl, inr, append_assoc, length-append,
  take-length-append, drop-length-append,
}
use Prim.Native.Nat.{bit_and, bit_or}
use irssi_icq.Base.Bits.{bit}
use irssi_icq.Bstream
use irssi_icq.Bstream.{Bstream, moved}
use irssi_icq.Bstream.View.{
  IsValid, written, length-written, pending, length-pending, pending-moved, moved-IsValid,
  setpos-IsValid,
}
use irssi_icq.Bstream.Read.{getraw-some}
use irssi_icq.Bstream.Write.{putraw-Puts}
use irssi_icq.Tlv.Write.{Appends, Appends-trans, Appends-nil, Puts-Appends}
use irssi_icq.Tlv.RoundTrip.{back_to, pending-back_to}
use irssi_icq.Caps.{
  Cap, aim_caps, find_flag, identify, Outcome, read, ends, getcap_loop, getcap, putcap_loop, putcap,
}
use irssi_icq.Caps.Table.{
  IsEntry, selected, gather, aim_caps-IsEntry, selected-IsEntry, bit-selected,
}

-- The bytes of the entries.
unfoldable pub blocks : List Cap → List ℕ
blocks [] = []
blocks (c ∷ t) = c.content ++ blocks t

putraw-Appends :
    (s : Bstream) (c : Cap)
    → IsValid s
    → IsEntry c
    → 16 ≤ Bstream.empty s
    → Appends c.content s (Bstream.putraw s c.content 16).1
putraw-Appends s c v h room =
    subst (λ n. Appends c.content s (Bstream.putraw s c.content n).1) h.0
      (Puts-Appends _ c.content s _ _ v (omega (arith, h.0, room)) (putraw-Puts s c.content v h.1))

putcap_loop-Appends :
    (caps : ℕ) (t : List Cap) (s : Bstream)
    → IsValid s
    → All IsEntry t
    → length t * 16 ≤ Bstream.empty s
    → Appends (blocks (selected caps t)) s (putcap_loop s caps t)
unfolding putcap_loop selected blocks
putcap_loop-Appends caps [] s v h room = Appends-nil s v
putcap_loop-Appends caps (c ∷ t) s v h room =
    let full : (Bstream.empty s == 0) ≡ false = ground (arith, room) in
    elim (Bool-cases (bit_and caps c.flag == 0)) [
      | inl z ↦ rw (full, z) (putcap_loop-Appends caps t s v h.1 (omega (arith, room)))
      | inr z ↦
          let a = putraw-Appends s c v h.0 (omega (arith, room)) in
          rw (full, z)
            (Appends-trans a
              (putcap_loop-Appends caps t _ a.valid h.1 (omega (arith, room, a.room, h.0.0))))
    ]

-- The outcome of reading the entries.
abbrev Gets : ℕ → List ℕ → Outcome → Type 0
Gets flags r o = (s' : Bstream) × (o ≡ read flags s') × (pending s' ≡ r)

getcap_loop-end :
    (fuel : ℕ) (s : Bstream) (offset len flags : ℕ)
    → ends s offset len ≡ true
    → getcap_loop fuel s offset len flags ≡ read flags s
unfolding getcap_loop
getcap_loop-end zero s offset len flags e = ground (arith, e)
getcap_loop-end (suc fuel) s offset len flags e = ground (arith, e)

pub getcap_loop-step :
    (fuel : ℕ) (s s' : Bstream) (offset len flags : ℕ) (cap : List ℕ)
    → ends s offset len ≡ false
    → Bstream.getraw s 16 ≡ (some cap, s')
    → getcap_loop (suc fuel) s offset len flags
      ≡ getcap_loop fuel s' (offset + 16) len (identify flags cap)
unfolding getcap_loop
getcap_loop-step fuel s s' offset len flags cap e g = ground (arith, e, g)

identify-find_flag :
    (flags : ℕ) (cap : List ℕ) (flag : ℕ)
    → find_flag cap aim_caps ≡ some flag
    → identify flags cap ≡ bit_or flags flag
unfolding identify
identify-find_flag flags cap flag e = ground (arith, e)

front : (n : ℕ) (xs ys : List ℕ) → length xs ≡ n → take n (xs ++ ys) ≡ xs
front n xs ys e = subst (λ k. take k (xs ++ ys) ≡ xs) e (take-length-append xs ys)

behind : (n : ℕ) (xs ys : List ℕ) → length xs ≡ n → drop n (xs ++ ys) ≡ ys
behind n xs ys e = subst (λ k. drop k (xs ++ ys) ≡ ys) e (drop-length-append xs ys)

-- The bytes to come begin with an entry.
module _ (s : Bstream) (c : Cap) (more : List ℕ) (v : IsValid s) (h : IsEntry c)
    (p : pending s ≡ c.content ++ more) where
  room_of : 16 ≤ Bstream.empty s
  room_of = omega (arith, h.0, ap length p, length-append c.content more, length-pending s v)

  getraw-entry : Bstream.getraw s 16 ≡ (some c.content, moved s 16)
  getraw-entry =
      getraw-some s 16 room_of
      ∙ ap (λ t. (some t, moved s 16)) (ap (take 16) p ∙ front 16 c.content more h.0)

  pending-entry : pending (moved s 16) ≡ more
  pending-entry = pending-moved s 16 ∙ ap (drop 16) p ∙ behind 16 c.content more h.0

getcap_loop-blocks :
    (sel : List Cap) (fuel : ℕ) (s : Bstream) (offset len flags : ℕ) (r : List ℕ)
    → IsValid s
    → All IsEntry sel
    → pending s ≡ blocks sel ++ r
    → len ≡ offset + length sel * 16
    → length sel ≤ fuel
    → Gets (gather flags sel) r (getcap_loop fuel s offset len flags)
unfolding blocks gather ends
getcap_loop-blocks [] fuel s offset len flags r v h p e enough =
    (s, getcap_loop-end fuel s offset len flags (ground (arith, e)), p)
getcap_loop-blocks (c ∷ sel) zero s offset len flags r v h p e enough = absurd (omega arith)
getcap_loop-blocks (c ∷ sel) (suc fuel) s offset len flags r v h p e enough =
    let more : List ℕ = blocks sel ++ r in
    let q : pending s ≡ c.content ++ more = p ∙ append_assoc c.content (blocks sel) r in
    let room : 16 ≤ Bstream.empty s = room_of s c more v h.0 q in
    let on : ends s offset len ≡ false = ground (arith, e, room) in
    let (s', o, rest) =
      getcap_loop-blocks sel fuel (moved s 16) (offset + 16) len (bit_or flags c.flag) r
        (moved-IsValid s 16 v room) h.1 (pending-entry s c more v h.0 q) (omega (arith, e))
        (omega (arith, enough)) in
    (
      s',
      getcap_loop-step fuel s (moved s 16) offset len flags c.content on
            (getraw-entry s c more v h.0 q)
          ∙ ap (getcap_loop fuel (moved s 16) (offset + 16) len)
              (identify-find_flag flags c.content c.flag h.0.2)
          ∙ o,
      rest,
    )

length-blocks : (t : List Cap) → All IsEntry t → length (blocks t) ≡ length t * 16
unfolding blocks
length-blocks [] h = refl
length-blocks (c ∷ t) h =
    omega (arith, length-append c.content (blocks t), h.0.0, length-blocks t h.1)

-- What reading gives: the 22 flags as in `caps`, and what is left to read.
abbrev pub Restores : ℕ → List ℕ → Outcome → Type 0
Restores caps r o =
    (flags : ℕ) × (s' : Bstream) × (o ≡ read flags s')
    × ((k : ℕ) → k < 22 → bit k flags ≡ bit k caps)
    × (pending s' ≡ r)

-- Where a valid stream has room for the 22 capabilities of the table, aim_getcap, from where aim_putcap began and over
-- as many bytes as it wrote, ends with flags that agree with the flags written at each of the 22 digits that the table
-- has, and leaves the cursor where aim_putcap left it.
pub getcap-putcap :
    (s : Bstream) (caps : ℕ)
    → IsValid s
    → 22 * 16 ≤ Bstream.empty s
    → (let s' = putcap s caps in
        Restores caps (pending s') (getcap (back_to s.offset s') (s'.offset - s.offset)))
unfolding putcap getcap
getcap-putcap s caps v room =
    let sel = selected caps aim_caps in
    let h = selected-IsEntry caps aim_caps aim_caps-IsEntry in
    let a =
      putcap_loop-Appends caps aim_caps s v aim_caps-IsEntry (omega (arith, room, table_size)) in
    let s' = putcap_loop s caps aim_caps in
    let size : s'.offset ≡ s.offset + length sel * 16 = omega (
      arith,
      length-written s v,
      length-written s' a.valid,
      ap length a.written_is,
      length-append (written s) (blocks sel),
      length-blocks sel h,
    ) in
    let (s'', o, rest) =
      getcap_loop-blocks sel (s'.offset - s.offset) (back_to s.offset s') 0 (s'.offset - s.offset) 0
        (pending s') (setpos-IsValid s' s.offset a.valid) h (pending-back_to (blocks sel) s s' v a)
        (omega (arith, size)) (omega (arith, size)) in
    (gather 0 sel, s'', o, λ k small. bit-selected k caps small, rest)
  where
    table_size : length aim_caps ≡ 22
    table_size = refl
