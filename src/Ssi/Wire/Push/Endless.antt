-- ===== src/Ssi/Wire/Push/Endless.antt =====
-- ssi.c: the loops of parseadd, parsemod and parsedel do not end on a message that has a single byte
-- left, since aimbs_get16 then takes nothing.
use irssi_icq.Base.{
  List, Option, ℕ, ◌≡◌, ◌∙◌, ◌>>=◌, some, none, ltb, suc, zero, [], true, refl, ap, arith, lt→ltb,
  inl, inr, Option-cases, if_elim,
}
use native.Mathlib.Nat.{add-zero}
use irssi_icq.Bstream
use irssi_icq.Bstream.{Bstream}
use irssi_icq.Tlv.{Tlv, readtlvchain_len, read_len_loop}
use irssi_icq.Ssi.Sync.{Store}
use irssi_icq.Ssi.Edit.{add_local}
use irssi_icq.Ssi.Wire.{read_name, read_item, add_read}
use irssi_icq.Ssi.Wire.Push.{parseadd, parsemod, parsedel, replace, remove, skip, read_numbers}

bind_assoc {ℓ κ μ} :
    {A : Type ℓ} {B : Type κ} {C : Type μ} (o : Option A) (f : A → Option B) (g : B → Option C)
    → (o >>= λ x. f x >>= g) ≡ (o >>= f >>= g)
bind_assoc none f g = refl
bind_assoc (some a) f g = refl

module _ (bs : Bstream) (one : Bstream.empty bs ≡ 1) where
  get16_short : Bstream.get16 bs ≡ (0, bs)
  get16_short =
      unfold Bstream.get16 in
      rw (lt→ltb (Bstream.empty bs) 2 (omega (arith, one)), Bstream.get16) refl

  more_left : ltb 0 (Bstream.empty bs) ≡ true
  more_left = lt→ltb 0 (Bstream.empty bs) (omega (arith, one))

  advance_none : (Bstream.advance bs 0).1 ≡ bs
  advance_none =
      unfold Bstream.advance in
      if_elim (λ (r : ℕ × Bstream). r.1 ≡ bs) (ltb (Bstream.empty bs) 0) (0, bs)
        (0, Bstream.moved bs 0) (λ _. refl) (λ _. rw add-zero refl)

  skip_short : skip bs ≡ bs
  skip_short =
      let e : (Bstream.advance (Bstream.get16 bs).1 (Bstream.get16 bs).0).1 ≡ bs =
        ap (λ r. (Bstream.advance r.1 r.0).1) get16_short ∙ advance_none in
      unfold skip in e

  abbrev numbers_of : Bstream → ℕ × ℕ × Bstream
  numbers_of b =
      let (gid, bs1) = Bstream.get16 b in
      let (bid, bs2) = Bstream.get16 bs1 in
      let (type, bs3) = Bstream.get16 bs2 in (gid, bid, skip bs3)

  read_numbers_short : read_numbers bs ≡ (0, 0, bs)
  read_numbers_short =
      let e : numbers_of (skip bs) ≡ (0, 0, bs) =
        ap numbers_of skip_short
        ∙ rw get16_short (rw get16_short (rw get16_short (rw skip_short refl))) in
      unfold read_numbers in e

  chain_short : (fuel : ℕ) → readtlvchain_len fuel bs 0 ≡ some ([], bs)
  chain_short zero = unfold readtlvchain_len in rw (more_left, read_len_loop) refl
  chain_short (suc fuel) = unfold readtlvchain_len in rw (more_left, read_len_loop) refl

  read_name_short : read_name bs ≡ (none, bs)
  read_name_short = unfold read_name in rw get16_short refl

  -- The part of read_item behind the name.
  abbrev item_of :
      ℕ → Option (List ℕ) × Bstream → Option (Option (List ℕ) × ℕ × ℕ × ℕ × List Tlv × Bstream)
  item_of fuel r =
      let (name, bs1) = r in
      let (gid, bs2) = Bstream.get16 bs1 in
      let (bid, bs3) = Bstream.get16 bs2 in
      let (type, bs4) = Bstream.get16 bs3 in
      let (len, bs5) = Bstream.get16 bs4 in
      readtlvchain_len fuel bs5 len >>= λ (chain, bs6). some (name, gid, bid, type, chain, bs6)

  read_item_short : (fuel : ℕ) → read_item fuel bs ≡ some (none, 0, 0, 0, [], bs)
  read_item_short fuel =
      let e : item_of fuel (read_name bs) ≡ some (none, 0, 0, 0, [], bs) =
        ap (item_of fuel) read_name_short
        ∙ rw get16_short
            (rw get16_short (rw get16_short (rw get16_short (rw (chain_short fuel) refl)))) in
      unfold read_item in e

  parsedel_round :
      (rounds : ℕ) (s : Store)
      → parsedel (suc rounds) bs s
        ≡ parsedel rounds (read_numbers bs).2 (record s {
          local = remove s.local (read_numbers bs).0 (read_numbers bs).1;
          official = remove s.official (read_numbers bs).0 (read_numbers bs).1;
        })
  parsedel_round rounds s = unfold parsedel in rw (more_left, parsedel) refl

  parsedel_short : (rounds : ℕ) (s : Store) → parsedel rounds bs s ≡ none
  parsedel_short zero s = unfold parsedel in rw more_left refl
  parsedel_short (suc rounds) s =
      parsedel_round rounds s
      ∙ ap
          (λ r.
            parsedel rounds r.2
              (record s { local = remove s.local r.0 r.1; official = remove s.official r.0 r.1 }))
          read_numbers_short
      ∙ parsedel_short rounds
          (record s { local = remove s.local 0 0; official = remove s.official 0 0 })

  parsemod_round :
      (rounds fuel : ℕ) (s : Store)
      → parsemod (suc rounds) fuel bs s
        ≡ parsemod rounds fuel bs (record s {
          local = replace s.local none 0 0 0 [];
          official = replace s.official none 0 0 0 [];
        })
  parsemod_round rounds fuel s =
      unfold parsemod in rw (more_left, parsemod) (rw (read_item_short fuel, parsemod) refl)

  parsemod_short : (rounds fuel : ℕ) (s : Store) → parsemod rounds fuel bs s ≡ none
  parsemod_short zero fuel s = unfold parsemod in rw more_left refl
  parsemod_short (suc rounds) fuel s =
      parsemod_round rounds fuel s
      ∙ parsemod_short rounds fuel (record s {
        local = replace s.local none 0 0 0 [];
        official = replace s.official none 0 0 0 [];
      })

  -- What a round of parseadd does where it has read nothing.
  abbrev both_added : Store → Option Store
  both_added s = do (new, s1) ← add_local s none 0 0 0 []; add_read s1 none 0 0 0 []

  parseadd_round :
      (rounds fuel : ℕ) (s : Store)
      → parseadd (suc rounds) fuel bs s ≡ (both_added s >>= λ s'. parseadd rounds fuel bs s')
  parseadd_round rounds fuel s =
      unfold parseadd in
      rw (more_left, parseadd)
        (rw (read_item_short fuel, parseadd)
          (bind_assoc (add_local s none 0 0 0 []) (λ x. add_read x.1 none 0 0 0 [])
            (λ s'. parseadd rounds fuel bs s')))

  parseadd_short : (rounds fuel : ℕ) (s : Store) → parseadd rounds fuel bs s ≡ none
  parseadd_short zero fuel s = unfold parseadd in rw more_left refl
  parseadd_short (suc rounds) fuel s = elim (Option-cases (both_added s)) [
    | inl e ↦ parseadd_round rounds fuel s ∙ ap (λ o. o >>= λ s'. parseadd rounds fuel bs s') e
    | inr (s', e) ↦
        parseadd_round rounds fuel s
        ∙ ap (λ o. o >>= λ s'. parseadd rounds fuel bs s') e
        ∙ parseadd_short rounds fuel s'
  ]

-- A message of another client's changes that has one byte left, which is no complete number: however
-- many rounds they are given, the loops of parseadd, parsemod and parsedel are not at their end.
pub push-diverges :
    (rounds fuel : ℕ) (bs : Bstream) (s : Store)
    → Bstream.empty bs ≡ 1
    → (parseadd rounds fuel bs s ≡ none)
      × (parsemod rounds fuel bs s ≡ none)
      × (parsedel rounds bs s ≡ none)
push-diverges rounds fuel bs s one = (
  parseadd_short bs one rounds fuel s,
  parsemod_short bs one rounds fuel s,
  parsedel_short bs one rounds s,
)
