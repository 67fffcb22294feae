-- ===== src/Ssi/Items.antt =====
-- ssi.c: the item lists are in ascending numerical order, and adding items keeps them so.
use irssi_icq.Base.{
  ℕ, [], ◌∷◌, ◌≡◌, refl, ◌*◌, ltb, List, ◌<◌, ◌≢◌, ◌≤◌, arith, ◌^◌, none, false, true, ◌+◌, ◌==◌,
  if◌then◌else◌, Bool-cases, ◌&&◌, inl, ltb→lt, some, sym, ◌∙◌, inr, ltb_false→le, le→ltb_false,
  Option, lt→ltb, length,
}
use irssi_icq.Tlv.{Tlv}
use irssi_icq.Tlv.Format.{IsChain}
use irssi_icq.Tlv.Edit.{tlvlist_copy_lem}
use irssi_icq.Ssi.Numbers.{pick_bid_free}
use irssi_icq.Ssi.{
  Item, group, itemlist_find, precedes, insert_after, insert, itemlist_add, pick_gid, pick_bid,
  bid_taken,
}

-- The order of the lists, as one number.
abbrev pub key : Item → ℕ
key item = item.gid * 2 ^ 16 + item.bid

abbrev pub IsNumbered : Item → Type 0
IsNumbered item = (item.gid < 2 ^ 16) × (item.bid < 2 ^ 16)

-- Numbers that ascend strictly from `n` on.
abbrev pub Above : ℕ → List Item → Type 0
Above n [] = Unit {0}
Above n (cur ∷ rest) = IsNumbered cur × (n ≤ key cur) × Above (key cur + 1) rest

abbrev pub IsSorted : List Item → Type 0
IsSorted = Above 0

pub precedes-key : (a b : Item) → IsNumbered a → IsNumbered b → precedes a b ≡ ltb (key a) (key b)
unfolding precedes
precedes-key a b h k = ground arith

-- No item has the numbers of `new`.
abbrev pub IsFresh : Item → List Item → Type 0
IsFresh new list = itemlist_find list new.gid new.bid ≡ none

IsFresh-key :
    (new cur : Item) (rest : List Item)
    → IsNumbered new
    → IsNumbered cur
    → IsFresh new (cur ∷ rest)
    → (key new ≢ key cur) × IsFresh new rest
unfolding itemlist_find
IsFresh-key new cur rest h k f = ground arith

module _ (new cur : Item) (rest : List Item) where
  insert_after_past :
      precedes cur new ≡ true → insert_after new (cur ∷ rest) ≡ cur ∷ insert_after new rest
  insert_after_past e = unfold insert_after in rw (e, insert_after) refl

  insert_after_here : precedes cur new ≡ false → insert_after new (cur ∷ rest) ≡ new ∷ cur ∷ rest
  insert_after_here e = unfold insert_after in rw (e, insert_after) refl

insert_after-Above :
    (new : Item) (l : List Item) (n : ℕ)
    → IsNumbered new
    → n ≤ key new
    → IsFresh new l
    → Above n l
    → Above n (insert_after new l)
insert_after-Above new [] n h b f a = unfold insert_after in (h, b, tt)
insert_after-Above new (cur ∷ rest) n h b f a =
    let apart = IsFresh-key new cur rest h a.0 f in
    let order = precedes-key cur new a.0 h in
    elim (Bool-cases (precedes cur new)) [
      | inl past ↦ rw (insert_after_past new cur rest past) (
        a.0,
        a.1,
        insert_after-Above new rest (key cur + 1) h
            (omega (arith, ltb→lt (key cur) (key new) (sym order ∙ past))) apart.1 a.2,
      )
      | inr stop ↦ rw (insert_after_here new cur rest stop) (
        h,
        b,
        (a.0, omega (arith, ltb_false→le (key cur) (key new) (sym order ∙ stop), apart.0), a.2),
      )
    ]

-- On a sorted list without the numbers of the new item the test at the head of the list is the loop's.
insert-insert_after :
    (new : Item) (l : List Item) (n : ℕ)
    → IsNumbered new
    → IsFresh new l
    → Above n l
    → insert new l ≡ insert_after new l
insert-insert_after new [] n h f a = unfold insert insert_after in refl
insert-insert_after new (cur ∷ rest) n h f a =
    let apart = IsFresh-key new cur rest h a.0 f in
    let order = precedes-key cur new a.0 h in
    let back = precedes-key new cur h a.0 in
    elim (Bool-cases (precedes new cur)) [
      | inl front ↦ rw (insert_front front) (
          sym (
            insert_after_here new cur rest (
              order
              ∙ le→ltb_false (key cur) (key new)
                  (omega (arith, ltb→lt (key new) (key cur) (sym back ∙ front))))))
      | inr later ↦ rw (insert_later later) (
          sym (
            insert_after_past new cur rest (
              order
              ∙ lt→ltb (key cur) (key new)
                  (omega (arith, apart.0, ltb_false→le (key new) (key cur) (sym back ∙ later))))))
    ]
  where
    insert_front : precedes new cur ≡ true → insert new (cur ∷ rest) ≡ new ∷ cur ∷ rest
    insert_front e = unfold insert in rw (e, insert) refl

    insert_later : precedes new cur ≡ false → insert new (cur ∷ rest) ≡ cur ∷ insert_after new rest
    insert_later e = unfold insert in rw (e, insert) refl

find-insert_after :
    (new : Item) (l : List Item) (g b : ℕ)
    → IsFresh new l
    → itemlist_find (insert_after new l) g b
      ≡ (if new.gid == g && new.bid == b then some new else itemlist_find l g b)
unfolding itemlist_find insert_after
find-insert_after new [] g b f = refl
find-insert_after new (cur ∷ rest) g b f = ground (arith, find-insert_after new rest g b)

-- What an addition gives: the numbers, name, type and triples of the new item, a sorted list, and that
-- looking for numbers finds the new item under its own and otherwise what was found before.
pub record Adds (list : List Item) (name : Option (List ℕ)) (gid type : ℕ) (chain : List Tlv)
    (o : Option (Item × List Item)) : Type 0 where
  pub new : Item
  pub list' : List Item
  pub result : o ≡ some (new, list')
  pub gid_is : new.gid ≡ gid
  pub name_is : new.name ≡ name
  pub type_is : new.type ≡ type
  pub tlvs_is : new.tlvs ≡ chain
  pub numbered : IsNumbered new
  pub fresh : IsFresh new list
  pub sorted : IsSorted list'
  pub find_is :
      (g b : ℕ)
      → itemlist_find list' g b
        ≡ (if new.gid == g && new.bid == b then some new else itemlist_find list g b)

find_of_bid_taken :
    (list : List Item) (g b : ℕ) → bid_taken list g b ≡ false → itemlist_find list g b ≡ none
unfolding itemlist_find bid_taken
find_of_bid_taken [] g b h = refl
find_of_bid_taken (cur ∷ rest) g b h = ground (arith, find_of_bid_taken rest g b)

pick_gid_given :
    (list : List Item) (name : Option (List ℕ)) (gid type : ℕ)
    → (type == group) ≡ false
    → pick_gid list name gid type ≡ some gid
pick_gid_given list none gid type k = unfold pick_gid in refl
pick_gid_given list (some n) gid type k = unfold pick_gid in rw (k, pick_gid) refl

pub add_picked :
    (addr : ℕ) (list : List Item) (name : Option (List ℕ)) (gid bid type b : ℕ) (chain : List Tlv)
    → (type == group) ≡ false
    → pick_bid list gid bid type ≡ some b
    → IsChain chain
    → let new : Item = record {
      addr = addr;
      name = name;
      gid = gid;
      bid = b;
      type = type;
      tlvs = chain;
    } in
      itemlist_add addr list name gid bid type chain ≡ some (new, insert new list)
add_picked addr list name gid bid type b chain k e c =
    unfold itemlist_add in
    rw (pick_gid_given list name gid type k, itemlist_add) (rw (e, tlvlist_copy_lem chain c) refl)

-- On a sorted list of fewer than 65535 items aim_ssi_itemlist_add comes to its end for an item that is
-- no group and asks for a buddy number: the number is one that no item of the group number has, the
-- list stays sorted, and looking for numbers finds the new item under its own, all others as before.
pub itemlist_add-Adds :
    (addr : ℕ) (list : List Item) (name : Option (List ℕ)) (gid type : ℕ) (chain : List Tlv)
    → (type == group) ≡ false
    → gid < 2 ^ 16
    → length list + 1 < 2 ^ 16
    → IsSorted list
    → IsChain chain
    → Adds list name gid type chain (itemlist_add addr list name gid 0xffff type chain)
itemlist_add-Adds addr list name gid type chain k hg hl s c =
    let (b, picked, free, small) = pick_bid_free list gid type k hl in
    let new : Item = record {
      addr = addr;
      name = name;
      gid = gid;
      bid = b;
      type = type;
      tlvs = chain;
    } in
    let fresh : IsFresh new list = find_of_bid_taken list gid b free in
    let same = insert-insert_after new list 0 (hg, small) fresh s in
    record {
      new = new;
      list' = insert new list;
      result = add_picked addr list name gid 0xffff type b chain k picked c;
      gid_is = refl;
      name_is = refl;
      type_is = refl;
      tlvs_is = refl;
      numbered = (hg, small);
      fresh = fresh;
      sorted = rw same (insert_after-Above new list 0 (hg, small) (omega arith) fresh s);
      find_is = λ g b'. rw same (find-insert_after new list g b' fresh);
    }
