-- ===== src/Ssi/Wire/Reading.antt =====
-- ssi.c: what the loop of parsedata reads from the bytes of items.
use irssi_icq.Base.{
  ℕ, Option, List, ◌<◌, ◌≡◌, some, ◌++◌, length, ◌^◌, ◌∷◌, ◌≤◌, none, [], ap, ◌∙◌, arith, refl,
  ◌==◌, length-append, le→ltb_false, take-length-append, drop-length-append, reverse, false,
  append_assoc, ◌>>=◌, All, ltb, true, lt→ltb, suc, zero,
}
use irssi_icq.Word
use irssi_icq.Bstream
use irssi_icq.Bstream.{Bstream}
use irssi_icq.Bstream.View.{IsValid, pending, pending-moved, moved-IsValid}
use irssi_icq.Bstream.Read.{Reads, take16, get16-Reads}
use irssi_icq.Util.{before}
use irssi_icq.Util.Names.{IsString}
use irssi_icq.Tlv.{sizetlvchain, counttlvchain}
use irssi_icq.Tlv.Format.{encode, take16-put16}
use irssi_icq.Tlv.Read.{empty_of}
use irssi_icq.Tlv.Limits.{readtlvchain_len-encode}
use irssi_icq.Ssi.{Item, Option, ℕ, List}
use irssi_icq.Ssi.Sync.{Store}
use irssi_icq.Ssi.Wire.{name_len, read_name, read_item, add_read, parsedata_loop}
use irssi_icq.Ssi.Wire.Frame.{name_bytes, encode_item, IsWritable, encode_items, length-encode_item}

-- A name that can be told from no name, and that ends where its bytes do.
abbrev pub IsReadableName : Option (List ℕ) → Type 0
IsReadableName none = Unit {0}
IsReadableName (some []) = ⊥
IsReadableName (some (c ∷ name)) = IsString (c ∷ name)

-- An item that its bytes determine, and whose chain `fuel` rounds can read.
pub record IsReadable (fuel : ℕ) (item : Item) : Type 0 where
  pub writable : IsWritable item
  pub name_fits : name_len item.name < 2 ^ 16
  pub named : IsReadableName item.name
  pub gid_fits : item.gid < 2 ^ 16
  pub bid_fits : item.bid < 2 ^ 16
  pub type_fits : item.type < 2 ^ 16
  pub chain_fits : sizetlvchain item.tlvs < 2 ^ 16
  pub rounds : counttlvchain item.tlvs ≤ fuel

pub get16-written :
    (s : Bstream) (x : ℕ) (r : List ℕ)
    → IsValid s
    → x < 2 ^ 16
    → pending s ≡ Word.put16 x ++ r
    → IsValid (Bstream.get16 s).1 × ((Bstream.get16 s).0 ≡ x) × (pending (Bstream.get16 s).1 ≡ r)
get16-written s x r v h e =
    let g : Reads take16 s (Bstream.get16 s) = get16-Reads s v in
    let t : take16 (pending s) ≡ (x, r) = ap take16 e ∙ take16-put16 x r h in
    (g.0, g.1 ∙ ap (λ p. p.0) t, g.2 ∙ ap (λ p. p.1) t)

before-IsString : (name : List ℕ) → IsString name → before (name ++ (0 ∷ [])) 0 ≡ name
unfolding before
before-IsString [] h = refl
before-IsString (c ∷ name) h = ground (arith, before-IsString name h.1, h.0)

pub getstr-written :
    (s : Bstream) (name r : List ℕ)
    → IsValid s
    → pending s ≡ name ++ r
    → (Bstream.getstr s (length name) ≡ (some (name ++ (0 ∷ [])), Bstream.moved s (length name)))
      × IsValid (Bstream.moved s (length name))
      × (pending (Bstream.moved s (length name)) ≡ r)
unfolding Bstream.getstr
getstr-written s name r v e = (
  rw
      (
        le→ltb_false (Bstream.empty s) (length name) room,
        Bstream.getrawbuf,
        le→ltb_false (length name) (length name) (omega arith),
      )
      (rw e (rw (take-length-append) refl)),
  moved-IsValid s (length name) v room,
  pending-moved s (length name) ∙ rw e (drop-length-append name r),
)
  where
    room : length name ≤ Bstream.empty s
    room = omega (arith, empty_of s _ v e, length-append name r)

read_name-written :
    (s : Bstream) (name : Option (List ℕ)) (r : List ℕ)
    → IsValid s
    → IsReadableName name
    → name_len name < 2 ^ 16
    → pending s ≡ Word.put16 (name_len name) ++ (name_bytes name ++ r)
    → ((read_name s).0 ≡ name) × IsValid (read_name s).1 × (pending (read_name s).1 ≡ r)
unfolding read_name
read_name-written s none r v h f e = let g = get16-written s 0 r v f e in rw (g.1) (refl, g.0, g.2)
read_name-written s (some []) r v h f e = absurd h
read_name-written s (some (c ∷ name)) r v h f e =
    let g = get16-written s (length (c ∷ name)) ((c ∷ name) ++ r) v f e in
    let q = getstr-written (Bstream.get16 s).1 (c ∷ name) r g.0 g.2 in
    rw (g.1, some_bytes) (rw (q.0) (ap some (before-IsString (c ∷ name) h), q.1, q.2))
  where
    some_bytes : (length (c ∷ name) == 0) ≡ false
    some_bytes = ground arith

-- The bytes of an item with what follows them, one field behind the other.
abbrev fields : Item → List ℕ → List ℕ
fields item r =
    Word.put16 (name_len item.name)
    ++ (name_bytes item.name
        ++ (Word.put16 item.gid
            ++ (Word.put16 item.bid
                ++ (Word.put16 item.type
                    ++ (Word.put16 (sizetlvchain item.tlvs) ++ (encode item.tlvs ++ r))))))

encode_item-fields : (item : Item) (r : List ℕ) → encode_item item ++ r ≡ fields item r
encode_item-fields item r =
    rw (append_assoc, append_assoc, append_assoc, append_assoc, append_assoc, append_assoc) refl

-- One item is read back, its triples in the reverse order.
read_item-written :
    (fuel : ℕ) (s : Bstream) (item : Item) (r : List ℕ)
    → IsValid s
    → IsReadable fuel item
    → pending s ≡ encode_item item ++ r
    → (s' : Bstream) × (read_item fuel s
        ≡ some (item.name, item.gid, item.bid, item.type, reverse item.tlvs, s'))
      × IsValid s'
      × (pending s' ≡ r)
unfolding read_item
read_item-written fuel s item r v h e =
    let n = read_name-written s item.name _ v h.named h.name_fits (e ∙ encode_item-fields item r) in
    let g = get16-written _ item.gid _ n.1 h.gid_fits n.2 in
    let b = get16-written _ item.bid _ g.0 h.bid_fits g.2 in
    let t = get16-written _ item.type _ b.0 h.type_fits b.2 in
    let z = get16-written _ (sizetlvchain item.tlvs) _ t.0 h.chain_fits t.2 in
    let (s', got, v', p) =
      readtlvchain_len-encode _ item.tlvs r fuel z.0 h.writable.1 z.2 h.rounds h.chain_fits in
    (s', rw (n.0, g.1, b.1, t.1, z.1) (rw (got) refl), v', p)

-- The items added one after the other to the official list, with their triples reversed.
abbrev pub load : Store → List Item → Option Store
load s [] = some s
load s (item ∷ rest) =
    add_read s item.name item.gid item.bid item.type (reverse item.tlvs) >>= λ s'. load s' rest

bind_both :
    {A B C : Type 0} (o : Option A) (g : A → Option B) (h : B → Option C) (k : A → Option C)
    → ((a : A) → k a ≡ (g a >>= h))
    → (o >>= k) ≡ ((o >>= g) >>= h)
bind_both none g h k e = refl
bind_both (some a) g h k e = e a

more_items :
    (bs : Bstream) (fuel : ℕ) (item : Item) (r : List ℕ)
    → IsValid bs
    → IsReadable fuel item
    → pending bs ≡ encode_item item ++ r
    → ltb 4 (Bstream.empty bs) ≡ true
more_items bs fuel item r v h e = lt→ltb 4 _ (
    omega (
      arith,
      empty_of bs _ v e,
      length-append (encode_item item) r,
      length-encode_item item h.writable,
    ))

-- The loop of parsedata on the bytes of readable items and at most four more: with a round for each
-- item it comes to its end, adds the items one after the other, and leaves the rest of the bytes.
pub parsedata_loop-written :
    (items : List Item) (rounds fuel : ℕ) (bs : Bstream) (r : List ℕ)
    → IsValid bs
    → All (IsReadable fuel) items
    → length r ≤ 4
    → length items ≤ rounds
    → pending bs ≡ encode_items items ++ r
    → (bs' : Bstream) × ((s : Store)
        → parsedata_loop rounds fuel bs s ≡ (load s items >>= λ s'. some (bs', s')))
      × IsValid bs'
      × (pending bs' ≡ r)
parsedata_loop-written [] rounds fuel bs r v h f g e = (bs, ended rounds, v, e)
  where
    over : ltb 4 (Bstream.empty bs) ≡ false
    over = le→ltb_false 4 _ (omega (arith, empty_of bs _ v e, f))

    ended : (n : ℕ) (s : Store) → parsedata_loop n fuel bs s ≡ some (bs, s)
    ended zero s = unfold parsedata_loop in rw (over, parsedata_loop) refl
    ended (suc n) s = unfold parsedata_loop in rw (over, parsedata_loop) refl
parsedata_loop-written (item ∷ rest) zero fuel bs r v h f g e = absurd (omega arith)
parsedata_loop-written (item ∷ rest) (suc rounds) fuel bs r v h f g e =
    let e' = e ∙ append_assoc (encode_item item) (encode_items rest) r in
    let (b1, got, v1, p1) = read_item-written fuel bs item _ v h.0 e' in
    let (bs', loop, v', p') =
      parsedata_loop-written rest rounds fuel b1 r v1 h.1 f (omega arith) p1 in
    (
      bs',
      λ s.
          round e' got s
          ∙ bind_both (add_read s item.name item.gid item.bid item.type (reverse item.tlvs))
              (λ s'. load s' rest) (λ s'. some (bs', s')) (λ s'. parsedata_loop rounds fuel b1 s')
              loop,
      v',
      p',
    )
  where
    round :
        {b1 : Bstream}
        → pending bs ≡ encode_item item ++ (encode_items rest ++ r)
        → read_item fuel bs ≡ some (item.name, item.gid, item.bid, item.type, reverse item.tlvs, b1)
        → (s : Store)
        → parsedata_loop (suc rounds) fuel bs s ≡ (
            add_read s item.name item.gid item.bid item.type (reverse item.tlvs) >>= λ s'.
            parsedata_loop rounds fuel b1 s')
    round e' got s =
        unfold parsedata_loop in
        rw (more_items bs fuel item _ v h.0 e', parsedata_loop) (rw (got) refl)
