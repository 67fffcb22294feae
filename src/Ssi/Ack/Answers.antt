-- ===== src/Ssi/Ack/Answers.antt =====
-- ssi.c: the codes of an acknowledgement, as parseack hands them out to the changes that wait.
use irssi_icq.Base.{
  List, ◌≡◌, ℕ, ◌++◌, [], ◌==◌, ◌∷◌, refl, ltb, true, false, arith, lt→ltb, length-append, ◌∙◌,
  append_assoc, ap, ◌<◌, ◌^◌,
}
use mathlib.Core.List.{map}
use irssi_icq.Word
use irssi_icq.Word.RoundTrip.{length-put16}
use irssi_icq.Bstream
use irssi_icq.Bstream.{Bstream}
use irssi_icq.Bstream.View.{IsValid, pending}
use irssi_icq.Tlv.Read.{empty_of}
use irssi_icq.Ssi.{Item}
use irssi_icq.Ssi.Sync.{Tmp, new_tmp}
use irssi_icq.Ssi.Ack.{read_acks, unsettled}
use irssi_icq.Ssi.Wire.Reading.{get16-written}

module _ (code : Item → ℕ) where
  -- A change with the code that the server answered.
  abbrev pub answered : ℕ → Item → Tmp
  answered action x = record (new_tmp action x) { ack = code x }

  -- The codes for a list of items, as the message has them.
  abbrev pub answers : List Item → List ℕ
  answers [] = []
  answers (x ∷ xs) = Word.put16 (code x) ++ answers xs

  pub read_acks-answers :
      ((x : Item) → code x < 2 ^ 16)
      → (action : ℕ) (xs : List Item) (bs : Bstream) (r : List ℕ) → IsValid bs
      → pending bs ≡ answers xs ++ r
      → read_acks bs (map (new_tmp action) xs) ≡ map (answered action) xs
  unfolding read_acks
  read_acks-answers small action [] bs r v e = refl
  read_acks-answers small action (x ∷ xs) bs r v e =
      let e' = e ∙ append_assoc (Word.put16 (code x)) (answers xs) r in
      let g = get16-written bs (code x) (answers xs ++ r) v (small x) e' in
      rw (more e', g.1, read_acks)
        (ap (◌∷◌ (answered action x)) (read_acks-answers small action xs _ r g.0 g.2))
    where
      more : pending bs ≡ Word.put16 (code x) ++ (answers xs ++ r) → ltb 0 (Bstream.empty bs) ≡ true
      more q = lt→ltb 0 _ (
          omega (
            arith,
            empty_of bs _ v q,
            length-append (Word.put16 (code x)) (answers xs ++ r),
            length-put16 (code x),
          ))

  -- A change with a code is not kept.
  pub unsettled-answered :
      ((x : Item) → (code x == 0xffff) ≡ false)
      → (action : ℕ) (xs : List Item) → unsettled (map (answered action) xs) ≡ []
  unfolding unsettled
  unsettled-answered settled action [] = refl
  unsettled-answered settled action (x ∷ xs) =
      rw (settled x, unsettled) (unsettled-answered settled action xs)

-- A change that the server has carried out.
abbrev pub carried_out : ℕ → Item → Tmp
carried_out action x = answered (λ y. 0) action x

-- An acknowledgement of success for each item.
abbrev pub successes : List Item → List ℕ
successes xs = answers (λ y. 0) xs

pub read_acks-successes :
    (action : ℕ) (xs : List Item) (bs : Bstream) (r : List ℕ)
    → IsValid bs
    → pending bs ≡ successes xs ++ r
    → read_acks bs (map (new_tmp action) xs) ≡ map (carried_out action) xs
read_acks-successes action xs bs r v e =
    read_acks-answers (λ y. 0) (λ y. omega arith) action xs bs r v e

pub unsettled-none : (action : ℕ) (xs : List Item) → unsettled (map (carried_out action) xs) ≡ []
unsettled-none action xs = unsettled-answered (λ y. 0) (λ y. refl) action xs
