-- ===== src/Ssi/Ack/Modified.antt =====
-- ssi.c: parseack where the server has accepted a modification.
use irssi_icq.Base.{
  ℕ, List, ◌≡◌, ◌↔◌, ◌++◌, [], some, ◌==◌, ==_refl, ◌∷◌, refl, ◌&&◌, none, false, ◌∙◌, sym, ap,
  ◌>>=◌, Option, if_true,
}
use mathlib.Core.List.{map}
use irssi_icq.Bstream.{Bstream}
use irssi_icq.Bstream.View.{IsValid, pending}
use irssi_icq.Tlv.Format.{IsChain}
use irssi_icq.Ssi.{Item, itemlist_find}
use irssi_icq.Ssi.Sync.{Store, new_tmp, action_mod, deref, sync, itemlist_cmp}
use irssi_icq.Ssi.Sync.Agree.{IsMemory, IsName, SameName, itemlist_cmp_iff}
use irssi_icq.Ssi.Ack.{
  settle, settle_all, read_acks, unsettled, confirm, overwrite, parseack, resume,
}
use irssi_icq.Ssi.Ack.Answers.{carried_out, successes, read_acks-successes, unsettled-none}
use irssi_icq.Ssi.Ack.Overwrite.{
  copied, touched, found-numbers, find-overwrite, find-overwrite_other,
}
use irssi_icq.Ssi.Ack.Common.{IsDistinct, settle_step}

settle-mod :
    (s : Store) (x c : Item)
    → deref s.local x.addr ≡ some x
    → itemlist_find s.official x.gid x.bid ≡ some c
    → settle s (carried_out action_mod x)
      ≡ some (record s { official = overwrite s.official c.addr x })
unfolding settle confirm
settle-mod s x c d f = rw (d, settle) (rw (f, settle) refl)

settle_all-mod :
    (s : Store) (x c : Item)
    → deref s.local x.addr ≡ some x
    → itemlist_find s.official x.gid x.bid ≡ some c
    → settle_all s (map (carried_out action_mod) (x ∷ []))
      ≡ some (record s { official = overwrite s.official c.addr x })
settle_all-mod s x c d f =
    settle_step s _ (carried_out action_mod x) [] refl (settle-mod s x c d f)
    ∙ (unfold settle_all in refl)

SameName-refl : (a : Option (List ℕ)) → SameName a a
SameName-refl none = tt
SameName-refl (some a) = refl

-- The stored information once a modification is carried out.
abbrev pub modified : Store → Item → Item → Store
modified s x c = record s {
  official = overwrite s.official c.addr x;
  pending = [];
  waiting_for_ack = false;
}

-- While one modification of a local item waits, an acknowledgement of success makes parseack copy the name and the
-- triples of the item to the official one of its numbers, leave what is found for other numbers as it is, forget the
-- change, and call aim_ssi_sync. Then aim_ssi_itemlist_cmp finds no difference between the two exactly when their
-- types are equal: a difference of the types stays. The official items have different addresses, the names are C
-- strings and the chains well formed.
pub parseack-modified :
    (mem : ℕ → List ℕ) (s : Store) (bs : Bstream) (r : List ℕ) (x c : Item) (g b : ℕ)
    → s.pending ≡ new_tmp action_mod x ∷ []
    → deref s.local x.addr ≡ some x
    → itemlist_find s.official x.gid x.bid ≡ some c
    → IsDistinct s.official
    → IsMemory mem
    → IsChain x.tlvs
    → IsName x.name
    → IsValid bs
    → pending bs ≡ successes (x ∷ []) ++ r
    → ((x.gid == g && x.bid == b) ≡ false)
    → (parseack mem s bs ≡ sync mem (modified s x c))
      × (itemlist_find (modified s x c).official x.gid x.bid ≡ some (copied x c))
      × (itemlist_find (modified s x c).official g b ≡ itemlist_find s.official g b)
      × ((itemlist_cmp mem x (copied x c) ≡ 0) ↔ (x.type ≡ c.type))
unfolding parseack resume
parseack-modified mem s bs r x c g b p d f h mm chain name v e other =
    let n = found-numbers x.gid x.bid s.official c f in
    let cmp = itemlist_cmp_iff mem x (copied x c) mm chain chain name name in
    (
      ap (λ ts. settle_all s ts >>= λ s'. resume mem s' (unsettled ts))
            (ap (read_acks bs) p ∙ read_acks-successes action_mod (x ∷ []) bs r v e)
          ∙ ap (λ o. o >>= λ s'. resume mem s' (unsettled (map (carried_out action_mod) (x ∷ []))))
              (settle_all-mod s x c d f)
          ∙ ap (resume mem (record s { official = overwrite s.official c.addr x }))
              (unsettled-none action_mod (x ∷ [])),
      find-overwrite x.gid x.bid s.official c.addr x h
          ∙ ap (touched x.gid x.bid c.addr x) f
          ∙ ap some (if_true _ _ (==_refl c.addr)),
      find-overwrite_other s.official x c g b h f other,
      (λ q. (cmp.0 q).4, λ t. cmp.1 (refl, SameName-refl x.name, sym n.0, sym n.1, t)),
    )
