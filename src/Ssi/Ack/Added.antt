-- ===== src/Ssi/Ack/Added.antt =====
-- ssi.c: parseack where the server has accepted the additions that aim_ssi_sync asked for.
use irssi_icq.Base.{
  List, ◌≡◌, ℕ, All, ◌++◌, Bool, [], some, ◌==◌, ◌∷◌, refl, ◌+◌, ◌&&◌, ◌||◌, false, true, arith,
  ◌∙◌, ap, ◌>>=◌, sym,
}
use mathlib.Core.List.{map}
use irssi_icq.Bstream.{Bstream}
use irssi_icq.Bstream.View.{IsValid, pending}
use irssi_icq.Tlv.Edit.{tlvlist_copy_lem}
use irssi_icq.Ssi.{Item, itemlist_find, itemlist_add, insert}
use irssi_icq.Ssi.Sync.{Store, new_tmp, action_add, deref}
use irssi_icq.Ssi.Sync.Plan.{Resolves, lacking}
use irssi_icq.Ssi.Ack.{
  read_acks, settle, settle_all, unsettled, confirm, add_official, parseack, resume, sync,
}
use irssi_icq.Ssi.Ack.Answers.{carried_out, successes, read_acks-successes, unsettled-none}
use irssi_icq.Ssi.Wire.Loading.{IsStored, after, pick_gid-below, pick_bid-below}
use irssi_icq.Ssi.Ack.Known.{
  knows, knows-cons, knows-insert, lacking-both, lacking-insert, Resolves-knows,
}

add_given :
    (addr : ℕ) (l : List Item) (x : Item)
    → IsStored x
    → itemlist_add addr l x.name x.gid x.bid x.type x.tlvs
      ≡ some (record x { addr = addr }, insert (record x { addr = addr }) l)
unfolding itemlist_add
add_given addr l x (g, b, c) =
    rw (pick_gid-below l x.name x.gid x.type g, itemlist_add)
      (rw (pick_bid-below l x.gid x.bid x.type b, tlvlist_copy_lem x.tlvs c) refl)

-- The official list with a copy of each item.
abbrev pub with_all : ℕ → List Item → List Item → List Item
with_all n [] l = l
with_all n (x ∷ xs) l = with_all (n + 1) xs (insert (record x { addr = n }) l)

settle-add :
    (s : Store) (x : Item)
    → deref s.local x.addr ≡ some x
    → IsStored x
    → settle s (carried_out action_add x)
      ≡ some (record s {
        official = insert (record x { addr = s.next }) s.official;
        next = s.next + 1;
      })
unfolding settle confirm add_official
settle-add s x d h = rw (d, settle) (rw (add_given s.next s.official x h) refl)

settle_all-adds :
    (xs : List Item) (s : Store)
    → Resolves s.local xs
    → All IsStored xs
    → settle_all s (map (carried_out action_add) xs)
      ≡ some (record s { official = with_all s.next xs s.official; next = after s.next xs })
unfolding settle_all
settle_all-adds [] s d h = refl
settle_all-adds (x ∷ xs) s d h =
    rw (settle-add s x d.0 h.0, settle_all)
      (settle_all-adds xs
        (record s { official = insert (record x { addr = s.next }) s.official; next = s.next + 1 })
        d.1 h.1)

-- The numbers of the list with the copies are its own and those of the items.
knows-with_all :
    (xs : List Item) (n : ℕ) (l : List Item) (g b : ℕ)
    → knows (with_all n xs l) g b ≡ (knows xs g b || knows l g b)
knows-with_all [] n l g b = unfold itemlist_find in refl
knows-with_all (x ∷ xs) n l g b =
    let new : Item = record x { addr = n } in
    knows-with_all xs (n + 1) (insert new l) g b
    ∙ ap (◌||◌ (knows xs g b)) (knows-insert new l g b)
    ∙ swap (x.gid == g && x.bid == b) (knows xs g b) (knows l g b)
    ∙ ap (λ t. t || knows l g b) (sym (knows-cons x xs g b))
  where
    swap : (p q r : Bool) → (q || (p || r)) ≡ ((p || q) || r)
    swap p q r = ground arith

lacking-with_all :
    (xs : List Item) (n : ℕ) (o l : List Item)
    → All (λ x. knows l x.gid x.bid ≡ true) xs
    → lacking (with_all n xs o) l ≡ lacking o l
lacking-with_all [] n o l h = refl
lacking-with_all (x ∷ xs) n o l (k, h) =
    lacking-with_all xs (n + 1) (insert (record x { addr = n }) o) l h
    ∙ lacking-insert (record x { addr = n }) l k o

-- The stored information once the additions of the items are in the official list.
abbrev pub added : Store → List Item → Store
added s xs = record s {
  official = with_all s.next xs s.official;
  next = after s.next xs;
  pending = [];
  waiting_for_ack = false;
}

-- While aim_ssi_sync waits for the additions of some items, an acknowledgement of success for each of
-- them makes parseack copy them, as they are in the local list by then, into the official list, forget
-- the additions, and call aim_ssi_sync. What is then left to add is what there was to add before, less
-- the items of the numbers that were asked for, and there is as much to delete as before. The lists
-- need not be those of the time of the request: they may have been edited while it waited. The items
-- asked for are in the local list still, ask for no number, and have well-formed chains.
pub parseack-added :
    (mem : ℕ → List ℕ) (s : Store) (xs : List Item) (bs : Bstream) (r : List ℕ)
    → s.pending ≡ map (new_tmp action_add) xs
    → Resolves s.local xs
    → All IsStored xs
    → IsValid bs
    → pending bs ≡ successes xs ++ r
    → (parseack mem s bs ≡ sync mem (added s xs))
      × (lacking (added s xs).local (added s xs).official ≡ lacking (lacking s.local s.official) xs)
      × (lacking (added s xs).official (added s xs).local ≡ lacking s.official s.local)
unfolding parseack resume
parseack-added mem s xs bs r p d h v e = (
  ap (λ ts. settle_all s ts >>= λ s'. resume mem s' (unsettled ts))
        (ap (read_acks bs) p ∙ read_acks-successes action_add xs bs r v e)
      ∙ ap (λ o. o >>= λ s'. resume mem s' (unsettled (map (carried_out action_add) xs)))
          (settle_all-adds xs s d h)
      ∙ ap
          (resume mem
            (record s { official = with_all s.next xs s.official; next = after s.next xs }))
          (unsettled-none action_add xs),
  lacking-both s.local xs s.official (with_all s.next xs s.official)
      (knows-with_all xs s.next s.official),
  lacking-with_all xs s.next s.official s.local (Resolves-knows s.local xs d),
)
