-- ===== src/Ssi/Wire/Parse.antt =====
-- ssi.c: parsedata from its first byte to its last.
use irssi_icq.Base.{
  List, ℕ, ◌≡◌, ◌<◌, ◌∷◌, true, ◌++◌, ◌^◌, ◌+◌, [], All, ◌%◌, ap, length, arith, ◌≤◌, some, ◌∙◌,
  refl,
}
use irssi_icq.Word
use irssi_icq.Word.RoundTrip.{length-put32}
use irssi_icq.Bstream
use irssi_icq.Bstream.{Bstream}
use irssi_icq.Bstream.View.{IsValid, pending}
use irssi_icq.Bstream.Read.{Reads, take8, take32, get8-Reads, get32-Reads}
use irssi_icq.Ssi.{Item, ℕ, List}
use irssi_icq.Ssi.Items.{IsSorted}
use irssi_icq.Ssi.Sync.{Store}
use irssi_icq.Ssi.Wire.{copy_items, parsedata}
use irssi_icq.Ssi.Wire.Frame.{encode_items}
use irssi_icq.Ssi.Wire.Reading.{IsReadable, load, get16-written, parsedata_loop-written}
use irssi_icq.Ssi.Wire.Loading.{
  IsStored, loaded, copied, after, load_lem, copy_items_lem, loaded-IsStored, loaded-Above,
}

-- The message of a list: a version, how many items there are, the items, and a timestamp.
abbrev pub encode_data : ℕ → ℕ → List Item → ℕ → List ℕ
encode_data version n items t = version ∷ (Word.put16 n ++ (encode_items items ++ Word.put32 t))

-- The stored information once the message is read.
abbrev pub received : Store → ℕ → List Item → ℕ → Store
received s n items t = record s {
  received_data = true;
  numitems = (s.numitems + n) % 2 ^ 16;
  official = loaded s.next items;
  local = copied (after s.next items) (loaded s.next items);
  timestamp = t;
  next = after (after s.next items) (loaded s.next items);
}

take32-put32 : (t : ℕ) → t < 2 ^ 32 → take32 (Word.put32 t) ≡ (t, [])
unfolding Word.put32
take32-put32 t h = ap {B = ℕ × List ℕ} (λ x. (x, [])) (omega arith)

-- parsedata on the message of a sorted list, the last of its kind, for a session that holds no lists:
-- with enough rounds for the items and for the triples of each it comes to its end. The official
-- list then holds the items in their order, the triples of each reversed, the local list a copy of
-- it, and the count, the timestamp and the mark that data was received are set. The items have
-- numbers below 65535, names that are C strings and not empty, and well-formed chains.
pub parsedata-encode :
    (s : Store) (bs : Bstream) (items : List Item) (version n t rounds fuel flags : ℕ)
    → IsValid bs
    → pending bs ≡ encode_data version n items t
    → n < 2 ^ 16
    → t < 2 ^ 32
    → All (IsReadable fuel) items
    → All IsStored items
    → IsSorted items
    → length items ≤ rounds
    → s.official ≡ []
    → s.local ≡ []
    → flags % 2 ≡ 0
    → parsedata rounds fuel flags bs s ≡ some (received s n items t)
unfolding parsedata
parsedata-encode s bs items version n t rounds fuel flags v e hn ht hr hs so hl o l hf =
    let g : Reads take8 bs (Bstream.get8 bs) = get8-Reads bs v in
    let p1 = g.2 ∙ ap (λ x. (take8 x).1) e in
    let c = get16-written (Bstream.get8 bs).1 n _ g.0 hn p1 in
    let (bs3, loop, v3, p3) =
      parsedata_loop-written items rounds fuel _ (Word.put32 t) c.0 hr
        (omega (arith, length-put32 t)) hl c.2 in
    let q : Reads take32 bs3 (Bstream.get32 bs3) = get32-Reads bs3 v3 in
    let stamp = q.1 ∙ ap (λ x. (take32 x).0) p3 ∙ ap (λ p. p.0) (take32-put32 t ht) in
    rw (c.1) (rw (loop counted, read, stamp, hf) (rw (copy) refl))
  where
    counted : Store
    counted = record s { numitems = (s.numitems + n) % 2 ^ 16 }

    filled : Store
    filled = record counted { official = loaded s.next items; next = after s.next items }

    read : load counted items ≡ some filled
    read =
        load_lem items counted 0 hs (rw (o) tt) so
        ∙ ap
            (λ x.
              some
                (record counted { official = x ++ loaded s.next items; next = after s.next items }))
            o

    copy :
        copy_items (record filled { timestamp = t }) (loaded s.next items)
        ≡ some (record filled {
          timestamp = t;
          local = copied (after s.next items) (loaded s.next items);
          next = after (after s.next items) (loaded s.next items);
        })
    copy =
        copy_items_lem (loaded s.next items) (record filled { timestamp = t }) 0
          (loaded-IsStored s.next items hs) (rw (l) tt) (loaded-Above 0 s.next items so)
        ∙ ap
            (λ x. some (record filled {
              timestamp = t;
              local = x ++ copied (after s.next items) (loaded s.next items);
              next = after (after s.next items) (loaded s.next items);
            }))
            l
