-- ===== src/Tlv/Write.antt =====
-- tlv.c: aim_writetlvchain, and that the reading loop reads back what it wrote.
use irssi_icq.Base.{
  ℕ, [], List, sym, length, ◌≡◌, ◌++◌, ◌∙◌, ◌≤◌, append-nil, drop, ◌+◌, arith, inl, append_assoc,
  length-append, inr, drop-drop, ap, ◌∷◌, refl, length-drop, if◌then◌else◌, ◌⊎◌, ◌==◌, ◌<◌,
  Bool-cases, ltb, subst, ==_iff, ltb→lt, ltb_false→le,
}
use irssi_icq.Bstream
use irssi_icq.Bstream.{Bstream}
use irssi_icq.Bstream.View.{IsValid, written, pending, length-pending}
use irssi_icq.Bstream.Write.{Puts, put16-Puts, putraw-Puts}
use irssi_icq.Word
use irssi_icq.Word.RoundTrip.{length-put16}
use irssi_icq.Tlv.{Tlv, sizetlvchain, write_loop, writetlvchain}
use irssi_icq.Tlv.Format.{IsTlv, IsChain, encode, length-encode_tlv}

-- A write that had room: `vs` is appended.
pub record Appends (vs : List ℕ) (s s' : Bstream) : Type 0 where
  pub valid : IsValid s'
  pub written_is : written s' ≡ written s ++ vs
  pub pending_is : pending s' ≡ drop (length vs) (pending s)
  pub room : length vs + Bstream.empty s' ≡ Bstream.empty s
  pub len_is : s'.len ≡ s.len

pub Appends-trans :
    {vs ws : List ℕ} {s t u : Bstream} → Appends vs s t → Appends ws t u → Appends (vs ++ ws) s u
Appends-trans {vs} {ws} {s} {t} {u} a b = record {
  valid = b.valid;
  written_is = b.written_is ∙ rw a.written_is (append_assoc (written s) vs ws);
  pending_is =
      b.pending_is
      ∙ rw (a.pending_is, length-append vs ws)
          (sym (drop-drop (length vs) (length ws) (pending s)));
  room = omega (arith, a.room, b.room, length-append vs ws);
  len_is = b.len_is ∙ a.len_is;
}

pub Appends-nil : (s : Bstream) → IsValid s → Appends [] s s
Appends-nil s v = record {
  valid = v;
  written_is = sym (append-nil (written s));
  pending_is = refl;
  room = omega arith;
  len_is = refl;
}

-- A put function that has room appends.
pub Puts-Appends :
    (ret : ℕ) (vs : List ℕ) (s s' : Bstream) (r : ℕ)
    → IsValid s
    → length vs ≤ Bstream.empty s
    → Puts ret vs s (r, s')
    → Appends vs s s'
Puts-Appends ret vs s s' r v h (inl (room, _, v', w, p, l)) = record {
  valid = v';
  written_is = w;
  pending_is = p;
  room = omega (
    arith,
    length-pending s' v',
    length-pending s v,
    ap length p,
    length-drop (length vs) (pending s),
  );
  len_is = l;
}
Puts-Appends ret vs s s' r v h (inr (short, _, _)) = absurd (omega (arith, short, h))

nil_of_length : (xs : List ℕ) → length xs ≡ 0 → [] ≡ xs
nil_of_length [] h = refl
nil_of_length (x ∷ xs) h = absurd (omega arith)

write_value-Appends :
    (t : Tlv) (s : Bstream)
    → IsValid s
    → IsTlv t
    → t.len ≤ Bstream.empty s
    → Appends t.value s (if t.len == 0 then s else (Bstream.putraw s t.value t.len).1)
write_value-Appends t s v h f = elim (Bool-cases (t.len == 0)) [
  | inl none_left ↦ rw none_left (
      subst (λ vs. Appends vs s s) (nil_of_length t.value (h.sized ∙ (==_iff t.len 0).0 none_left))
        (Appends-nil s v))
  | inr some_left ↦
      rw (some_left, ← h.sized)
        (Puts-Appends _ t.value s _ _ v (omega (arith, h.sized))
          (putraw-Puts s t.value v h.bounded))
]

-- A 16-bit number is appended where two bytes fit.
pub put16-Appends :
    (s : Bstream) (x : ℕ)
    → IsValid s
    → 2 ≤ Bstream.empty s
    → Appends (Word.put16 x) s (Bstream.put16 s x).1
put16-Appends s x v h = Puts-Appends 2 _ s _ _ v (omega (arith, length-put16 x)) (put16-Puts s x v)

write_loop-Appends :
    (l : List Tlv) (s : Bstream)
    → IsValid s
    → IsChain l
    → sizetlvchain l ≤ Bstream.empty s
    → Appends (encode l) s (write_loop s l)
unfolding write_loop sizetlvchain
write_loop-Appends [] s v h f = Appends-nil s v
write_loop-Appends (t ∷ l) s v h f =
    let a = put16-Appends s t.type v (omega arith) in
    let b =
      put16-Appends (Bstream.put16 s t.type).1 t.len a.valid
        (omega (arith, a.room, length-put16 t.type)) in
    let c =
      write_value-Appends t _ b.valid h.0
        (omega (arith, a.room, length-put16 t.type, b.room, length-put16 t.len)) in
    let triple = Appends-trans a (Appends-trans b c) in
    Appends-trans triple (
      write_loop-Appends l _ triple.valid h.1 (omega (arith, triple.room, length-encode_tlv t h.0)))

-- On a valid stream aim_writetlvchain appends the bytes of a well-formed chain and returns 1, if all
-- of them fit; otherwise it returns 0 and writes nothing.
pub writetlvchain_lem :
    (s : Bstream) (l : List Tlv)
    → IsValid s
    → IsChain l
    → ((sizetlvchain l ≤ Bstream.empty s)
        × ((writetlvchain s l).0 ≡ 1)
        × Appends (encode l) s (writetlvchain s l).1)
      ⊎ ((Bstream.empty s < sizetlvchain l) × (writetlvchain s l ≡ (0, s)))
unfolding writetlvchain
writetlvchain_lem s l v h = elim (Bool-cases (ltb (Bstream.empty s) (sizetlvchain l))) [
  | inl short ↦ rw short (inr (ltb→lt _ _ short, refl))
  | inr fits ↦
      rw fits
        (inl (ltb_false→le _ _ fits, refl, write_loop-Appends l s v h (ltb_false→le _ _ fits)))
]
