-- ===== src/Ssi/Ack/Deleted.antt =====
-- ssi.c: parseack where the server has accepted the deletions that aim_ssi_sync asked for.
use irssi_icq.Base.{
  List, ◌≡◌, ℕ, ◌++◌, [], some, refl, false, ◌∙◌, ap, ◌>>=◌, Option-cases, inl, sym, inr,
}
use mathlib.Core.List.{map}
use irssi_icq.Bstream.{Bstream}
use irssi_icq.Bstream.View.{IsValid, pending}
use irssi_icq.Ssi.{Item, itemlist_del}
use irssi_icq.Ssi.Sync.{Store, new_tmp, action_del, deref, sync}
use irssi_icq.Ssi.Sync.Plan.{lacking}
use irssi_icq.Ssi.Ack.{settle, settle_all, read_acks, unsettled, confirm, parseack, resume}
use irssi_icq.Ssi.Ack.Common.{IsDistinct, spared, settle_all-drops, itemlist_del-absent}
use irssi_icq.Ssi.Ack.Spared.{IsLacked, lacking-spared, spared-agree}
use irssi_icq.Ssi.Ack.Spared.{IsLacked, lacking-spared, spared-agree}
use irssi_icq.Ssi.Ack.Answers.{successes, carried_out, read_acks-successes, unsettled-none}

settle-del :
    (s : Store) (x : Item)
    → settle s (carried_out action_del x)
      ≡ some (record s { official = itemlist_del s.official x.addr })
unfolding settle confirm
settle-del s x = elim (Option-cases (deref s.official x.addr)) [
  | inl e ↦
      rw (e, settle)
        (ap (λ o. some (record s { official = o })) (sym (itemlist_del-absent s.official x.addr e)))
  | inr (c, e) ↦ rw (e, settle) refl
]

-- The stored information once the deletions of the items are carried out.
abbrev pub deleted : Store → List Item → Store
deleted s xs = record s { official = spared xs s.official; pending = []; waiting_for_ack = false }

-- While aim_ssi_sync waits for the deletions of some items, an acknowledgement of success for each of
-- them makes parseack take from the official list the items of the addresses asked for and no other,
-- forget the deletions, and call aim_ssi_sync. What is then left to delete is what there was to delete
-- before, without those items, and there is as much to add as before. The lists need not be those of
-- the time of the request: they may have been edited while it waited. The official items have different
-- addresses, and those asked for that are in the official list still are of numbers that the local list
-- lacks.
pub parseack-deleted :
    (mem : ℕ → List ℕ) (s : Store) (xs : List Item) (bs : Bstream) (r : List ℕ)
    → s.pending ≡ map (new_tmp action_del) xs
    → IsDistinct s.official
    → IsLacked xs s.official s.local
    → IsValid bs
    → pending bs ≡ successes xs ++ r
    → (parseack mem s bs ≡ sync mem (deleted s xs))
      × (lacking (deleted s xs).official (deleted s xs).local
          ≡ spared xs (lacking s.official s.local))
      × (lacking (deleted s xs).local (deleted s xs).official ≡ lacking s.local s.official)
unfolding parseack resume
parseack-deleted mem s xs bs r p d u v e = (
  ap (λ ts. settle_all s ts >>= λ s'. resume mem s' (unsettled ts))
        (ap (read_acks bs) p ∙ read_acks-successes action_del xs bs r v e)
      ∙ ap (λ o. o >>= λ s'. resume mem s' (unsettled (map (carried_out action_del) xs)))
          (settle_all-drops (carried_out action_del) (λ o. record s { official = o }) (λ x. refl)
            (λ o x. settle-del (record s { official = o }) x) xs s.official d)
      ∙ ap (resume mem (record s { official = spared xs s.official }))
          (unsettled-none action_del xs),
  lacking-spared xs s.official s.local,
  spared-agree xs s.official s.local u,
)
