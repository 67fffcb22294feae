-- ===== src/Ssi/Wire/Loading.antt =====
-- ssi.c: parsedata on the bytes of a sorted list.
use irssi_icq.Base.{
  List, ◌<◌, ℕ, ◌≡◌, All, Option, true, ◌++◌, false, some, ◌∙◌, not, ◌∷◌, ◌==◌, [], le→ltb_false,
  lt→ltb, ◌&&◌, arith, ap, none, refl, ◌≤◌, append-nil, reverse, ◌+◌, reverse-cons, append_assoc,
  ◌>>=◌, All-append,
}
use irssi_icq.Tlv.{Tlv}
use irssi_icq.Tlv.Format.{IsTlv, IsChain}
use irssi_icq.Tlv.Edit.{tlvlist_copy_lem}
use irssi_icq.Ssi.{
  Item, group, precedes, insert, insert_after, pick_gid, pick_bid, itemlist_add, ℕ, List,
}
use irssi_icq.Ssi.Items.{key, IsNumbered, Above, precedes-key}
use irssi_icq.Ssi.Sync.{Store}
use irssi_icq.Ssi.Edit.{add_local}
use irssi_icq.Ssi.Wire.{add_read, copy_items}
use irssi_icq.Ssi.Wire.Reading.{load}

-- An item that asks for no number, with a well-formed chain.
abbrev pub IsStored : Item → Type 0
IsStored item = (item.gid < 0xffff) × (item.bid < 0xffff) × IsChain item.tlvs

-- Items whose numbers come before `n`.
abbrev Earlier : ℕ → List Item → Type 0
Earlier n = All (λ c. IsNumbered c × (key c < n))

module _ (new cur : Item) (c : IsNumbered cur) (n : IsNumbered new) (h : key cur < key new) where
  precedes_of : precedes cur new ≡ true
  precedes_of = precedes-key cur new c n ∙ lt→ltb _ _ h

  follows_of : precedes new cur ≡ false
  follows_of = precedes-key new cur n c ∙ le→ltb_false _ _ (omega (arith, h))

insert_after-last :
    (new : Item) (l : List Item)
    → IsNumbered new
    → Earlier (key new) l
    → insert_after new l ≡ l ++ (new ∷ [])
unfolding insert_after
insert_after-last new [] n h = refl
insert_after-last new (cur ∷ rest) n h =
    rw (precedes_of new cur h.0.0 n h.0.1, insert_after)
      (ap (◌∷◌ cur) (insert_after-last new rest n h.1))

insert-last :
    (new : Item) (l : List Item)
    → IsNumbered new
    → Earlier (key new) l
    → insert new l ≡ l ++ (new ∷ [])
unfolding insert
insert-last new [] n h = refl
insert-last new (cur ∷ rest) n h =
    rw (follows_of new cur h.0.0 n h.0.1, insert) (ap (◌∷◌ cur) (insert_after-last new rest n h.1))

pub pick_gid-below :
    (l : List Item) (name : Option (List ℕ)) (gid type : ℕ)
    → gid < 0xffff
    → pick_gid l name gid type ≡ some gid
unfolding pick_gid
pick_gid-below l none gid type h = refl
pick_gid-below l (some name) gid type h = rw (asks, pick_gid) refl
  where
    asks : (type == group && gid == 0xffff) ≡ false
    asks = ground (arith, h)

pub pick_bid-below :
    (l : List Item) (gid bid type : ℕ) → bid < 0xffff → pick_bid l gid bid type ≡ some bid
unfolding pick_bid
pick_bid-below l gid bid type h = rw (asks, pick_bid) refl
  where
    asks : (not (type == group) && bid == 0xffff) ≡ false
    asks = ground (arith, h)

-- An item whose numbers come after all others goes to the end.
add-last :
    (addr : ℕ) (l : List Item) (item : Item)
    → IsStored item
    → Earlier (key item) l
    → itemlist_add addr l item.name item.gid item.bid item.type item.tlvs
      ≡ some (record item { addr = addr }, l ++ (record item { addr = addr } ∷ []))
unfolding itemlist_add
add-last addr l item (g, b, c) h =
    rw (pick_gid-below l item.name item.gid item.type g, itemlist_add)
      (rw (pick_bid-below l item.gid item.bid item.type b, tlvlist_copy_lem item.tlvs c)
        (ap (λ x. some (record item { addr = addr }, x))
          (insert-last (record item { addr = addr }) l (omega (arith, g), omega (arith, b)) h)))

-- The items of the official list after reading, and of its copy: addresses from `n` on.
abbrev pub loaded : ℕ → List Item → List Item
loaded n [] = []
loaded n (item ∷ rest) = record item { addr = n; tlvs = reverse item.tlvs } ∷ loaded (n + 1) rest

abbrev pub copied : ℕ → List Item → List Item
copied n [] = []
copied n (item ∷ rest) = record item { addr = n } ∷ copied (n + 1) rest

-- The address behind those of a list of items.
abbrev pub after : ℕ → List Item → ℕ
after n [] = n
after n (item ∷ rest) = after (n + 1) rest

Earlier-snoc :
    (m n : ℕ) (l : List Item) (item : Item)
    → IsNumbered item
    → key item < n
    → m ≤ key item
    → Earlier m l
    → Earlier n (l ++ (item ∷ []))
Earlier-snoc m n [] item h k b e = ((h, k), tt)
Earlier-snoc m n (cur ∷ l) item h k b e =
    ((e.0.0, omega (arith, e.0.1, k, b)), Earlier-snoc m n l item h k b e.1)

Earlier-mono : (m n : ℕ) (l : List Item) → m ≤ n → Earlier m l → Earlier n l
Earlier-mono m n [] h e = tt
Earlier-mono m n (cur ∷ l) h e = ((e.0.0, omega (arith, e.0.1, h)), Earlier-mono m n l h e.1)

-- The chains as they come out of the reading.
abbrev turned : Item → Item
turned item = record item { tlvs = reverse item.tlvs }

IsChain-reverse : (l : List Tlv) → IsChain l → IsChain (reverse l)
IsChain-reverse [] h = tt
IsChain-reverse (t ∷ l) h =
    rw (reverse-cons) (All-append IsTlv (reverse l) (t ∷ []) (IsChain-reverse l h.1) (h.0, tt))

pub load_lem :
    (items : List Item) (s : Store) (n : ℕ)
    → All IsStored items
    → Earlier n s.official
    → Above n items
    → load s items
      ≡ some (record s { official = s.official ++ loaded s.next items; next = after s.next items })
load_lem [] s n h e a = rw (append-nil) refl
load_lem (item ∷ rest) s n h e a =
    ap (λ o. o >>= λ s'. load s' rest) added
    ∙ load_lem rest s1 (key item + 1) h.1
        (Earlier-snoc n (key item + 1) s.official new a.0 (omega arith) a.1 e) a.2
    ∙ ap (λ l. some (record s { official = l; next = after (s.next + 1) rest }))
        (append_assoc s.official (new ∷ []) _)
  where
    new : Item
    new = record item { addr = s.next; tlvs = reverse item.tlvs }

    s1 : Store
    s1 = record s { official = s.official ++ (new ∷ []); next = s.next + 1 }

    added : add_read s item.name item.gid item.bid item.type (reverse item.tlvs) ≡ some s1
    added =
        unfold add_read in
        rw
          (
            add-last s.next s.official (turned item) (h.0.0, h.0.1, IsChain-reverse item.tlvs h.0.2)
                (Earlier-mono n (key item) s.official a.1 e),
            add_read,
          )
          refl

pub copy_items_lem :
    (items : List Item) (s : Store) (n : ℕ)
    → All IsStored items
    → Earlier n s.local
    → Above n items
    → copy_items s items
      ≡ some (record s { local = s.local ++ copied s.next items; next = after s.next items })
unfolding copy_items
copy_items_lem [] s n h e a = rw (append-nil) refl
copy_items_lem (item ∷ rest) s n h e a = rw (added) (
    copy_items_lem rest s1 (key item + 1) h.1
      (Earlier-snoc n (key item + 1) s.local new a.0 (omega arith) a.1 e) a.2
    ∙ ap (λ l. some (record s { local = l; next = after (s.next + 1) rest }))
        (append_assoc s.local (new ∷ []) _))
  where
    new : Item
    new = record item { addr = s.next }

    s1 : Store
    s1 = record s { local = s.local ++ (new ∷ []); next = s.next + 1 }

    added : add_local s item.name item.gid item.bid item.type item.tlvs ≡ some (new, s1)
    added =
        unfold add_local in
        rw (add-last s.next s.local item h.0 (Earlier-mono n (key item) s.local a.1 e), add_local)
          refl

pub loaded-IsStored :
    (n : ℕ) (items : List Item) → All IsStored items → All IsStored (loaded n items)
loaded-IsStored n [] h = tt
loaded-IsStored n (item ∷ rest) h =
    ((h.0.0, h.0.1, IsChain-reverse item.tlvs h.0.2), loaded-IsStored (n + 1) rest h.1)

pub loaded-Above : (m n : ℕ) (items : List Item) → Above m items → Above m (loaded n items)
loaded-Above m n [] h = tt
loaded-Above m n (item ∷ rest) h = (h.0, h.1, loaded-Above (key item + 1) (n + 1) rest h.2)
