-- ===== src/Ssi/Sync/Plan.antt =====
-- ssi.c: which request aim_ssi_sync sends, against a description of it.
use mathlib.Core.List.{map}
use irssi_icq.Base.{
  ℕ, [], ◌∷◌, ◌≡◌, refl, List, Option-cases, some, none, All, inl, if◌then◌else◌, ap, not, inr,
  ◌==◌, true, ◌∙◌, sym, false, Bool-cases, ◌++◌, arith,
}
use irssi_icq.Ssi.{Item, itemlist_find}
use irssi_icq.Ssi.Sync.{
  new_tmp, missing, modifications, deref, items_of, action_mod, itemlist_cmp, Request, Store, start,
  edit, modend, sync, action_add, send, action_del, edit_stop, or_else, work,
}

-- The items of a list whose numbers another list lacks.
abbrev pub lacking : List Item → List Item → List Item
lacking [] other = []
lacking (item ∷ rest) other = elim (itemlist_find other item.gid item.bid) [
  | none ↦ item ∷ lacking rest other
  | some _ ↦ lacking rest other
]

-- The items of a list that differ from the item of the same numbers in another.
abbrev pub changed : (ℕ → List ℕ) → List Item → List Item → List Item
changed mem [] other = []
changed mem (item ∷ rest) other = elim (itemlist_find other item.gid item.bid) [
  | none ↦ changed mem rest other
  | some cur2 ↦
      if not (itemlist_cmp mem item cur2 == 0)
      then item ∷ changed mem rest other
      else changed mem rest other
]

missing_lem :
    (action : ℕ) (l o : List Item) → missing action l o ≡ map (new_tmp action) (lacking l o)
unfolding missing
missing_lem action [] o = refl
missing_lem action (x ∷ l) o = elim (Option-cases (itemlist_find o x.gid x.bid)) [
  | inl e ↦
      rw (e, missing)
        (ap (◌∷◌ (new_tmp action x)) (missing_lem action l o)
          ∙ ap (map (new_tmp action)) (sym (lacking_here e)))
  | inr (c, e) ↦
      rw (e, missing) (missing_lem action l o ∙ ap (map (new_tmp action)) (sym (lacking_past c e)))
]
  where
    lacking_here : itemlist_find o x.gid x.bid ≡ none → lacking (x ∷ l) o ≡ x ∷ lacking l o
    lacking_here e = rw (e, lacking) refl

    lacking_past :
        (c : Item) → itemlist_find o x.gid x.bid ≡ some c → lacking (x ∷ l) o ≡ lacking l o
    lacking_past c e = rw (e, lacking) refl

modifications_lem :
    (mem : ℕ → List ℕ) (l o : List Item)
    → modifications mem l o ≡ map (new_tmp action_mod) (changed mem l o)
unfolding modifications
modifications_lem mem [] o = refl
modifications_lem mem (x ∷ l) o = elim (Option-cases (itemlist_find o x.gid x.bid)) [
  | inl e ↦
      rw (e, modifications)
        (modifications_lem mem l o ∙ ap (map (new_tmp action_mod)) (sym (changed_past e)))
  | inr (c, e) ↦ elim (Bool-cases (itemlist_cmp mem x c == 0)) [
    | inl same ↦
        rw (e, modifications)
          (rw same (
            modifications_lem mem l o
            ∙ ap (map (new_tmp action_mod)) (sym (changed_same c e same))))
    | inr other ↦
        rw (e, modifications)
          (rw other (
            ap (◌∷◌ (new_tmp action_mod x)) (modifications_lem mem l o)
            ∙ ap (map (new_tmp action_mod)) (sym (changed_here c e other))))
  ]
]
  where
    changed_past : itemlist_find o x.gid x.bid ≡ none → changed mem (x ∷ l) o ≡ changed mem l o
    changed_past e = rw (e, changed) refl

    changed_same :
        (c : Item)
        → itemlist_find o x.gid x.bid ≡ some c
        → (itemlist_cmp mem x c == 0) ≡ true
        → changed mem (x ∷ l) o ≡ changed mem l o
    changed_same c e q = rw (e, changed) (rw q refl)

    changed_here :
        (c : Item)
        → itemlist_find o x.gid x.bid ≡ some c
        → (itemlist_cmp mem x c == 0) ≡ false
        → changed mem (x ∷ l) o ≡ x ∷ changed mem l o
    changed_here c e q = rw (e, changed) (rw q refl)

-- Each pointer to an item of `l` leads to that item.
abbrev pub Resolves : List Item → List Item → Type 0
Resolves heap = All (λ item. deref heap item.addr ≡ some item)

items_of_lem :
    (heap : List Item) (action : ℕ) (l : List Item)
    → Resolves heap l
    → items_of heap (map (new_tmp action) l) ≡ some l
unfolding items_of
items_of_lem heap action [] h = refl
items_of_lem heap action (x ∷ l) h = rw (h.0, items_of) (rw (items_of_lem heap action l h.1) refl)

-- Additions before deletions before modifications; with nothing to do, the end of the editing.
abbrev pub plan : List Item → List Item → List Item → Request
plan (x ∷ added) deleted modified = edit action_add (x ∷ added)
plan [] (x ∷ deleted) modified = edit action_del (x ∷ deleted)
plan [] [] (x ∷ modified) = edit action_mod (x ∷ modified)
plan [] [] [] = edit_stop

abbrev pub planned : (ℕ → List ℕ) → Store → Request
planned mem s =
    plan (lacking s.local s.official) (lacking s.official s.local) (changed mem s.local s.official)

-- The state once a request is handed over.
abbrev pub requested : Store → Request → Store
requested s (edit action items) = record s {
  pending = map (new_tmp action) items;
  waiting_for_ack = true;
  sent = s.sent ++ (edit action items ∷ []);
}
requested s edit_stop = record s { pending = []; sent = s.sent ++ (edit_stop ∷ []) }

-- All pointers that a request can hold lead to their items.
abbrev pub IsLinked : Store → Type 0
IsLinked s = Resolves (s.local ++ s.official) s.local × Resolves (s.local ++ s.official) s.official

start_edit :
    (s : Store) (action : ℕ) (x : Item) (l : List Item)
    → s.connected ≡ true
    → Resolves (s.local ++ s.official) (x ∷ l)
    → start s (map (new_tmp action) (x ∷ l)) ≡ some (requested s (edit action (x ∷ l)))
unfolding start
start_edit s action x l c h = ground (arith, items_of_lem (s.local ++ s.official) action (x ∷ l) h)

start_stop : (s : Store) → s.connected ≡ true → start s [] ≡ some (requested s edit_stop)
unfolding start modend send
start_stop s c = ground arith

Resolves-lacking : (heap l o : List Item) → Resolves heap l → Resolves heap (lacking l o)
Resolves-lacking heap [] o h = tt
Resolves-lacking heap (x ∷ l) o h = elim (Option-cases (itemlist_find o x.gid x.bid)) [
  | inl e ↦ rw (e, lacking) (h.0, Resolves-lacking heap l o h.1)
  | inr (c, e) ↦ rw (e, lacking) (Resolves-lacking heap l o h.1)
]

Resolves-changed :
    (mem : ℕ → List ℕ) (heap l o : List Item) → Resolves heap l → Resolves heap (changed mem l o)
Resolves-changed mem heap [] o h = tt
Resolves-changed mem heap (x ∷ l) o h = elim (Option-cases (itemlist_find o x.gid x.bid)) [
  | inl e ↦ rw (e, changed) (Resolves-changed mem heap l o h.1)
  | inr (c, e) ↦ elim (Bool-cases (itemlist_cmp mem x c == 0)) [
    | inl same ↦ rw (e, changed) (rw same (Resolves-changed mem heap l o h.1))
    | inr other ↦ rw (e, changed) (rw other (h.0, Resolves-changed mem heap l o h.1))
  ]
]

start-plan :
    (s : Store) (a d m : List Item)
    → s.connected ≡ true
    → Resolves (s.local ++ s.official) a
    → Resolves (s.local ++ s.official) d
    → Resolves (s.local ++ s.official) m
    → start s (
        or_else
          (map (new_tmp action_add) a)
          (or_else (map (new_tmp action_del) d) (map (new_tmp action_mod) m)))
      ≡ some (requested s (plan a d m))
unfolding or_else
start-plan s (x ∷ a) d m c ha hd hm = start_edit s action_add x a c ha
start-plan s [] (x ∷ d) m c ha hd hm = start_edit s action_del x d c hd
start-plan s [] [] (x ∷ m) c ha hd hm = start_edit s action_mod x m c hm
start-plan s [] [] [] c ha hd hm = start_stop s c

work_lem :
    (mem : ℕ → List ℕ) (s : Store)
    → s.pending ≡ []
    → work mem s
      ≡ or_else (map (new_tmp action_add) (lacking s.local s.official)) (
          or_else
            (map (new_tmp action_del) (lacking s.official s.local))
            (map (new_tmp action_mod) (changed mem s.local s.official)))
work_lem mem s p =
    opened p
    ∙ rw
        (
          missing_lem action_add s.local s.official,
          missing_lem action_del s.official s.local,
          modifications_lem mem s.local s.official,
        )
        refl
  where
    opened :
        s.pending ≡ []
        → work mem s
          ≡ or_else (missing action_add s.local s.official) (
              or_else
                (missing action_del s.official s.local)
                (modifications mem s.local s.official))
    opened q = unfold work or_else in rw (q, work) refl

-- Where no acknowledgement is outstanding, aim_ssi_sync on a connection uses no freed item and sends
-- one request, the first that has something to say: the local items whose numbers the official list
-- lacks, to add; the official items whose numbers the local list lacks, to delete; the local items
-- that differ from the official item of their numbers, to modify; and otherwise the end of editing.
-- It then waits for an acknowledgement, except after the last of these, and changes neither list.
pub sync_lem :
    (mem : ℕ → List ℕ) (s : Store)
    → s.waiting_for_ack ≡ false
    → s.pending ≡ []
    → s.connected ≡ true
    → IsLinked s
    → sync mem s ≡ some (requested s (planned mem s))
sync_lem mem s w p c h =
    opened w
    ∙ ap (start s) (work_lem mem s p)
    ∙ start-plan s _ _ _ c (Resolves-lacking _ s.local s.official h.0)
        (Resolves-lacking _ s.official s.local h.1) (Resolves-changed mem _ s.local s.official h.0)
  where
    opened : s.waiting_for_ack ≡ false → sync mem s ≡ start s (work mem s)
    opened q = unfold sync in rw (q, sync) refl
