-- ===== src/Ssi.antt =====
-- irssi-icq/src/protocols/oscar/ssi.c: the lists of server-stored items, the functions
-- aim_ssi_itemlist_* and those that read one item. An item carries its address, which stands for the
-- pointer to it; `list` is the items in the order of the `next` pointers, NULL the empty list, and a
-- name that is NULL is `none`. Group and buddy numbers are of the type fu16_t. `none` as the result
-- of aim_ssi_itemlist_add says that its search for a free number never ends.
pub mod Items
pub mod Deletion
pub mod Numbers
pub mod Sync
pub mod Edit
pub mod Ack
pub mod Wire
mod Examples
use irssi_icq.Base.{
  ℕ, zero, suc, ◌+◌, ◌%◌, ◌^◌, List, [], ◌∷◌, ◌++◌, Option, none, some, Bool, true, false, not,
  ◌&&◌, ◌||◌, ◌==◌, ltb, if◌then◌else◌, length, ◌>>=◌, take,
}
use irssi_icq.Word
use irssi_icq.Util.{sncmp}
use irssi_icq.Tlv.{Tlv, tlvlist_copy, tlvlist_cmp, addtlvtochain_raw, gettlv}

pub record Item : Type 0 where
  pub addr : ℕ
  pub name : Option (List ℕ)
  pub gid : ℕ
  pub bid : ℕ
  pub type : ℕ
  pub tlvs : List Tlv

abbrev pub buddy : ℕ
buddy = 0

abbrev pub group : ℕ
group = 1

abbrev pub permit : ℕ
permit = 2

abbrev pub deny : ℕ
deny = 3

abbrev pub pdinfo : ℕ
pdinfo = 4

abbrev pub presenceprefs : ℕ
presenceprefs = 5

abbrev pub iconinfo : ℕ
iconinfo = 0x0014

unfoldable pub itemlist_valid : List Item → ℕ → Bool
itemlist_valid [] item = false
itemlist_valid (cur ∷ rest) item = if cur.addr == item then true else itemlist_valid rest item

unfoldable pub itemlist_find : List Item → ℕ → ℕ → Option Item
itemlist_find [] gid bid = none
itemlist_find (cur ∷ rest) gid bid =
    if cur.gid == gid && cur.bid == bid then some cur else itemlist_find rest gid bid

-- `(cur->name) && !(aim_sncmp(cur->name, sn))`
unfoldable pub is_named : Item → List ℕ → Bool
is_named cur sn = elim cur.name [ none ↦ false | some name ↦ sncmp name sn == 0 ]

-- The loop over `curg`: is there a group of that number and name.
unfoldable pub has_group : List Item → ℕ → List ℕ → Bool
unfolding is_named
has_group [] gid gn = false
has_group (curg ∷ rest) gid gn =
    if curg.type == group && curg.gid == gid && is_named curg gn
    then true
    else has_group rest gid gn

-- The first item of which `test` holds.
unfoldable pub first : (Item → Bool) → List Item → Option Item
first test [] = none
first test (cur ∷ rest) = if test cur then some cur else first test rest

unfoldable pub finditem : List Item → Option (List ℕ) → Option (List ℕ) → ℕ → Option Item
unfolding first is_named has_group
finditem list (some gn) (some sn) type =
    first (λ cur. cur.type == type && is_named cur sn && has_group list cur.gid gn) list
finditem list (some gn) none type =
    first (λ cur. cur.type == type && cur.bid == 0 && is_named cur gn) list
finditem list none (some sn) type = first (λ cur. cur.type == type && is_named cur sn) list
finditem list none none type =
    first (λ cur. cur.type == type && elim cur.name [ none ↦ true | some name ↦ false ]) list

unfoldable pub itemlist_exists : List Item → List ℕ → Option Item
unfolding first is_named
itemlist_exists list sn = first (λ cur. cur.type == buddy && is_named cur sn) list

unfoldable pub findparentname : List Item → List ℕ → Option (List ℕ)
unfolding itemlist_exists itemlist_find
findparentname list sn = do
  cur ← itemlist_exists list sn
  curg ← itemlist_find list cur.gid 0
  curg.name

-- The inner loops of aim_ssi_itemlist_add: is the number taken.
unfoldable pub gid_taken : List Item → ℕ → Bool
gid_taken [] gid = false
gid_taken (cur ∷ rest) gid =
    if cur.type == group && cur.gid == gid then true else gid_taken rest gid

unfoldable pub bid_taken : List Item → ℕ → ℕ → Bool
bid_taken [] gid bid = false
bid_taken (cur ∷ rest) gid bid =
    if cur.bid == bid && cur.gid == gid then true else bid_taken rest gid bid

-- The `do` loops: from `id` on, the first number that is not taken.
unfoldable pub free_loop : ℕ → (ℕ → Bool) → ℕ → Option ℕ
free_loop zero taken id = none
free_loop (suc fuel) taken id = elim (taken id) [
  | true ↦ free_loop fuel taken ((id + 1) % 2 ^ 16)
  | false ↦ some id
]

-- The numbers of the new item. One round more than there are items is enough where these are fewer
-- than the numbers.
unfoldable pub pick_gid : List Item → Option (List ℕ) → ℕ → ℕ → Option ℕ
unfolding free_loop gid_taken
pick_gid list none gid type = some gid
pick_gid list (some name) gid type =
    if type == group && gid == 0xffff
    then free_loop (length list + 1) (gid_taken list) ((gid + 1) % 2 ^ 16)
    else some gid

unfoldable pub pick_bid : List Item → ℕ → ℕ → ℕ → Option ℕ
unfolding free_loop bid_taken
pick_bid list gid bid type =
    if not (type == group) && bid == 0xffff
    then free_loop (length list + 1) (bid_taken list gid) ((bid + 1) % 2 ^ 16)
    else some bid

-- `a` stands before `b` in the numerical order of the lists.
unfoldable pub precedes : Item → Item → Bool
precedes a b = ltb a.gid b.gid || (a.gid == b.gid && ltb a.bid b.bid)

-- The `for` loop: past all items that precede the new one.
unfoldable pub insert_after : Item → List Item → List Item
unfolding precedes
insert_after new [] = new ∷ []
insert_after new (cur ∷ rest) =
    if precedes cur new then cur ∷ insert_after new rest else new ∷ cur ∷ rest

unfoldable pub insert : Item → List Item → List Item
unfolding insert_after precedes
insert new [] = new ∷ []
insert new (cur ∷ rest) = if precedes new cur then new ∷ cur ∷ rest else cur ∷ insert_after new rest

-- The new item and the list that holds it. `addr` is what `malloc` returns.
unfoldable pub itemlist_add :
    ℕ → List Item → Option (List ℕ) → ℕ → ℕ → ℕ → List Tlv → Option (Item × List Item)
unfolding pick_gid pick_bid insert tlvlist_copy
itemlist_add addr list name gid bid type chain = do
  new_gid ← pick_gid list name gid type
  new_bid ← pick_bid list new_gid bid type
  let new : Item = record {
    addr = addr;
    name = name;
    gid = new_gid;
    bid = new_bid;
    type = type;
    tlvs = tlvlist_copy chain;
  }
  some (new, insert new list)

-- The item of that address is taken out.
unfoldable pub itemlist_del : List Item → ℕ → List Item
itemlist_del [] del = []
itemlist_del (cur ∷ rest) del = if cur.addr == del then rest else cur ∷ itemlist_del rest del
