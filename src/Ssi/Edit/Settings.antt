-- ===== src/Ssi/Edit/Settings.antt =====
-- ssi.c: a setting that is stored is the one that is found.
use irssi_icq.Base.{
  Bool, List, ◌≡◌, true, none, some, [], ◌==◌, refl, false, inl, sym, ◌∙◌, inr, arith, ap, ℕ, ◌&&◌,
  length, ◌+◌, ◌<◌, ◌^◌, ◌>>=◌, Option-cases, ◌%◌,
}
use irssi_icq.Word
use irssi_icq.Tlv.{Tlv, addtlvtochain8, addtlvtochain32, gettlv}
use irssi_icq.Tlv.Format.{IsChain}
use irssi_icq.Ssi.{Item, group, pdinfo, presenceprefs, finditem, first, insert, pick_bid, Bool}
use irssi_icq.Ssi.Numbers.{pick_bid_free}
use irssi_icq.Ssi.Items.{add_picked}
use irssi_icq.Ssi.Sync.{Store, deref}
use irssi_icq.Ssi.Sync.Plan.{Resolves}
use irssi_icq.Ssi.Edit.First.{first-insert, first_holds, first-set_tlvs, first-All}
use irssi_icq.Ssi.Edit.{
  synced, set_tlvs, add_local, put_setting, setpermdeny, setpresence, getpermdeny, getpresence,
}

-- The item that holds a setting, once the store is `s1`.
abbrev Holds : ℕ → List Tlv → Store → Type 0
Holds type chain s1 = (c : Item) × (finditem s1.local none none type ≡ some c) × (c.tlvs ≡ chain)

abbrev is_setting : ℕ → Item → Bool
is_setting type cur = cur.type == type && elim cur.name [ none ↦ true | some name ↦ false ]

finditem-is_setting :
    (l : List Item) (type : ℕ) → finditem l none none type ≡ first (is_setting type) l
unfolding finditem
finditem-is_setting l type = refl

-- A setting is written to the item that holds it, or to a new item, before the lists are synchronised.
put_setting-Holds :
    (mem : ℕ → List ℕ) (s : Store) (type : ℕ) (chain : List Tlv)
    → (type == group) ≡ false
    → length s.local + 1 < 2 ^ 16
    → Resolves s.local s.local
    → IsChain chain
    → (s1 : Store) × (put_setting mem s type chain ≡ synced mem s1) × Holds type chain s1
put_setting-Holds mem s type chain g n d c = elim (Option-cases (finditem s.local none none type)) [
  | inl missing ↦
      let (b, picked, _, _) = pick_bid_free s.local 0 type g n in
      let e = sym (finditem-is_setting s.local type) ∙ missing in
      (
        record s { local = insert (new b) s.local; next = s.next + 1 },
        opened_none missing ∙ ap (λ o. o >>= λ (tmp, s1). synced mem s1) (added_new b picked),
        (
          new b,
          finditem-is_setting (insert (new b) s.local) type
              ∙ first-insert (is_setting type) (new b) s.local e (ground arith),
          refl,
        ),
      )
  | inr (tmp, found) ↦
      let e = sym (finditem-is_setting s.local type) ∙ found in
      (
        record s { local = set_tlvs s.local tmp.addr chain },
        opened_some tmp found,
        (
          record tmp { tlvs = chain },
          finditem-is_setting (set_tlvs s.local tmp.addr chain) type
              ∙ first-set_tlvs (is_setting type) s.local tmp chain
                  (first_holds (is_setting type) s.local tmp e) e
                  (first-All (is_setting type) (λ x. deref s.local x.addr ≡ some x) s.local tmp d
                    e),
          refl,
        ),
      )
]
  where
    new : ℕ → Item
    new b = record { addr = s.next; name = none; gid = 0; bid = b; type = type; tlvs = chain }

    added_new :
        (b : ℕ)
        → pick_bid s.local 0 0xFFFF type ≡ some b
        → add_local s none 0 0xFFFF type chain
          ≡ some (new b, record s { local = insert (new b) s.local; next = s.next + 1 })
    added_new b e =
        unfold add_local in
        rw (add_picked s.next s.local none 0 0xFFFF type b chain g e c, add_local) refl

    opened_none :
        finditem s.local none none type ≡ none
        → put_setting mem s type chain
          ≡ (add_local s none 0 0xFFFF type chain >>= λ (tmp, s1). synced mem s1)
    opened_none e = unfold put_setting in rw (e, put_setting) refl

    opened_some :
        (tmp : Item)
        → finditem s.local none none type ≡ some tmp
        → put_setting mem s type chain
          ≡ synced mem (record s { local = set_tlvs s.local tmp.addr chain })
    opened_some tmp e = unfold put_setting in rw (e, put_setting) refl

abbrev permdeny_chain : ℕ → ℕ → List Tlv
permdeny_chain permdeny vismask =
    (addtlvtochain32 (addtlvtochain8 [] 0x00ca permdeny).1 0x00cb vismask).1

abbrev presence_chain : ℕ → List Tlv
presence_chain presence = (addtlvtochain32 [] 0x00c9 presence).1

getpermdeny_of :
    (l : List Item) (c : Item) (permdeny vismask : ℕ)
    → finditem l none none pdinfo ≡ some c
    → c.tlvs ≡ permdeny_chain permdeny vismask
    → getpermdeny l ≡ permdeny % 2 ^ 8
unfolding getpermdeny gettlv addtlvtochain32 addtlvtochain8 Word.put8 Word.put32 Word.get8
getpermdeny_of l c permdeny vismask f q = rw (f, getpermdeny) (rw (q) (omega arith))

getpresence_of :
    (l : List Item) (c : Item) (presence : ℕ)
    → finditem l none none presenceprefs ≡ some c
    → c.tlvs ≡ presence_chain presence
    → getpresence l ≡ presence % 2 ^ 32
unfolding getpresence gettlv addtlvtochain32 Word.put32 Word.get32
getpresence_of l c presence f q = rw (f, getpresence) (rw (q) (omega arith))

permdeny-IsChain : (permdeny vismask : ℕ) → IsChain (permdeny_chain permdeny vismask)
unfolding addtlvtochain32 addtlvtochain8 Word.put8 Word.put32
permdeny-IsChain permdeny vismask = (
  record { type_fits = omega arith; len_fits = omega arith; sized = refl; bounded = omega arith },
  (
    record { type_fits = omega arith; len_fits = omega arith; sized = refl; bounded = omega arith },
    tt,
  ),
)

presence-IsChain : (presence : ℕ) → IsChain (presence_chain presence)
unfolding addtlvtochain32 Word.put32
presence-IsChain presence = (
  record { type_fits = omega arith; len_fits = omega arith; sized = refl; bounded = omega arith },
  tt,
)

-- With fewer than 65535 local items, each found at its own address, aim_ssi_setpermdeny and
-- aim_ssi_setpresence store their number, reduced to 8 and 32 bits, in a local list in which
-- aim_ssi_getpermdeny and aim_ssi_getpresence find it, and then synchronise the lists.
pub settings_lem :
    (mem : ℕ → List ℕ) (s : Store) (permdeny vismask presence : ℕ)
    → length s.local + 1 < 2 ^ 16
    → Resolves s.local s.local
    → ((s1 : Store) × (setpermdeny mem s permdeny vismask ≡ synced mem s1)
        × (getpermdeny s1.local ≡ permdeny % 2 ^ 8))
      × ((s1 : Store) × (setpresence mem s presence ≡ synced mem s1)
          × (getpresence s1.local ≡ presence % 2 ^ 32))
unfolding setpermdeny setpresence
settings_lem mem s permdeny vismask presence n d =
    let (s1, e1, (c1, f1, q1)) =
      put_setting-Holds mem s pdinfo (permdeny_chain permdeny vismask) refl n d
        (permdeny-IsChain permdeny vismask) in
    let (s2, e2, (c2, f2, q2)) =
      put_setting-Holds mem s presenceprefs (presence_chain presence) refl n d
        (presence-IsChain presence) in
    (
      (s1, e1, getpermdeny_of s1.local c1 permdeny vismask f1 q1),
      (s2, e2, getpresence_of s2.local c2 presence f2 q2),
    )
