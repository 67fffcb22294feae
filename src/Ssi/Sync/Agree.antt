-- ===== src/Ssi/Sync/Agree.antt =====
-- ssi.c: what it means that aim_ssi_sync ends the editing, and that aim_ssi_itemlist_cmp returns 0.
use irssi_icq.Base.{
  ℕ, [], ◌∷◌, ◌≡◌, refl, Option, List, ◌↔◌, some, none, length, All, Option-cases, arith, inl, inr,
  false, ◌==◌, true, Bool-cases, ==_iff, ◌++◌, sym, ◌∙◌, ap,
}
use irssi_icq.Word.RoundTrip.{IsByte}
use irssi_icq.Util.Names.{IsString, normal, sncmp_iff}
use irssi_icq.Tlv.{Tlv, sizetlvchain}
use irssi_icq.Tlv.Format.{IsChain}
use irssi_icq.Tlv.Edit.{tlvlist_cmp_iff}
use irssi_icq.Ssi.{Item, itemlist_find}
use irssi_icq.Ssi.Sync.{Store, Request, edit_stop, edit, sync, itemlist_cmp, cmp_tlvs, cmp_name}
use irssi_icq.Ssi.Sync.Plan.{lacking, changed, planned, plan, requested, IsLinked, sync_lem}

-- What `malloc` returns: memory of the size asked for.
abbrev pub IsMemory : (ℕ → List ℕ) → Type 0
IsMemory mem = (n : ℕ) → (length (mem n) ≡ n) × All IsByte (mem n)

-- Names that are both NULL, or the same but for spaces and case.
abbrev pub SameName : Option (List ℕ) → Option (List ℕ) → Type 0
SameName none none = Unit {0}
SameName none (some b) = ⊥
SameName (some a) none = ⊥
SameName (some a) (some b) = normal a ≡ normal b

abbrev pub IsName : Option (List ℕ) → Type 0
IsName none = Unit {0}
IsName (some a) = IsString a

cmp_name_iff : (a b : Option (List ℕ)) → IsName a → IsName b → (cmp_name a b ≡ 0) ↔ SameName a b
unfolding cmp_name
cmp_name_iff none none h k = (λ _. tt, λ _. refl)
cmp_name_iff none (some b) h k = (λ e. absurd (omega (arith, e)), λ e. absurd e)
cmp_name_iff (some a) none h k = (λ e. absurd (omega (arith, e)), λ e. absurd e)
cmp_name_iff (some a) (some b) h k =
    (λ e. (sncmp_iff a b h k).0 (ground arith), λ e. rw ((sncmp_iff a b h k).1 e) refl)

cmp_tlvs_iff :
    (mem : ℕ → List ℕ) (l m : List Tlv)
    → IsMemory mem
    → IsChain l
    → IsChain m
    → (cmp_tlvs mem l m ≡ 0) ↔ (l ≡ m)
unfolding cmp_tlvs
cmp_tlvs_iff mem [] [] mm h k = (λ _. refl, λ _. refl)
cmp_tlvs_iff mem (x ∷ l) [] mm h k = (λ e. absurd (omega (arith, e)), λ e. cc)
cmp_tlvs_iff mem [] (y ∷ m) mm h k = (λ e. absurd (omega (arith, e)), λ e. cc)
cmp_tlvs_iff mem (x ∷ l) (y ∷ m) mm h k =
    let same =
      tlvlist_cmp_iff (mem (sizetlvchain (x ∷ l))) (mem (sizetlvchain (y ∷ m))) (x ∷ l) (y ∷ m) h k
        (mm _).1 (mm _).1 (mm _).0 (mm _).0 in
    (λ e. same.0 (ground arith), λ e. rw (same.1 e) refl)

cmp_parts :
    (mem : ℕ → List ℕ) (a b : Item)
    → (itemlist_cmp mem a b ≡ 0) ↔ (
        (cmp_tlvs mem a.tlvs b.tlvs ≡ 0)
        × (cmp_name a.name b.name ≡ 0)
        × (a.gid ≡ b.gid)
        × (a.bid ≡ b.bid)
        × (a.type ≡ b.type))
unfolding itemlist_cmp
cmp_parts mem a b = ground arith

-- On items with well-formed chains and C strings for names aim_ssi_itemlist_cmp returns 0 exactly when
-- the triples, the numbers and the types are equal, and the names are the same but for spaces and case.
pub itemlist_cmp_iff :
    (mem : ℕ → List ℕ) (a b : Item)
    → IsMemory mem
    → IsChain a.tlvs
    → IsChain b.tlvs
    → IsName a.name
    → IsName b.name
    → (itemlist_cmp mem a b ≡ 0) ↔ (
        (a.tlvs ≡ b.tlvs)
        × SameName a.name b.name
        × (a.gid ≡ b.gid)
        × (a.bid ≡ b.bid)
        × (a.type ≡ b.type))
itemlist_cmp_iff mem a b mm h k n p =
    let t = cmp_tlvs_iff mem a.tlvs b.tlvs mm h k in
    let q = cmp_name_iff a.name b.name n p in
    let parts = cmp_parts mem a b in
    (
      λ e. let (x, y, g, b', t') = parts.0 e in (t.0 x, q.0 y, g, b', t'),
      λ e. parts.1 (t.1 e.0, q.1 e.1, e.2, e.3, e.4),
    )

-- The two lists agree: each local item has an official one of its numbers that does not differ, and
-- each official item has a local one.
abbrev pub Agrees : (ℕ → List ℕ) → List Item → List Item → Type 0
Agrees mem local official =
    All
      (λ item.
        (c : Item) × (itemlist_find official item.gid item.bid ≡ some c)
        × (itemlist_cmp mem item c ≡ 0))
      local
    × All (λ item. (c : Item) × (itemlist_find local item.gid item.bid ≡ some c)) official

found_of_lacking :
    (l o : List Item)
    → lacking l o ≡ []
    → All (λ item. (c : Item) × (itemlist_find o item.gid item.bid ≡ some c)) l
found_of_lacking [] o e = tt
found_of_lacking (x ∷ l) o e = elim (Option-cases (itemlist_find o x.gid x.bid)) [
  | inl missing ↦ absurd (never missing)
  | inr (c, found) ↦ ((c, found), found_of_lacking l o (rw (found, lacking) at e))
]
  where
    never : itemlist_find o x.gid x.bid ≡ none → ⊥
    never m = let e' : x ∷ lacking l o ≡ [] = rw (m, lacking) at e in cc

agree_of_plan :
    (mem : ℕ → List ℕ) (l o : List Item)
    → lacking l o ≡ []
    → changed mem l o ≡ []
    → All
        (λ item.
          (c : Item) × (itemlist_find o item.gid item.bid ≡ some c) × (itemlist_cmp mem item c ≡ 0))
        l
agree_of_plan mem [] o e f = tt
agree_of_plan mem (x ∷ l) o e f = elim (Option-cases (itemlist_find o x.gid x.bid)) [
  | inl missing ↦ absurd (never missing)
  | inr (c, found) ↦ elim (Bool-cases (itemlist_cmp mem x c == 0)) [
    | inl same ↦ (
      (c, found, (==_iff (itemlist_cmp mem x c) 0).0 same),
      agree_of_plan mem l o (rw (found, lacking) at e) (rw same at (rw (found, changed) at f)),
    )
    | inr other ↦ absurd (differs c found other)
  ]
]
  where
    never : itemlist_find o x.gid x.bid ≡ none → ⊥
    never m = let e' : x ∷ lacking l o ≡ [] = rw (m, lacking) at e in cc

    differs :
        (c : Item) → itemlist_find o x.gid x.bid ≡ some c → (itemlist_cmp mem x c == 0) ≡ false → ⊥
    differs c m d = let f' : x ∷ changed mem l o ≡ [] = rw d at (rw (m, changed) at f) in cc

plan-edit_stop : (a d m : List Item) → plan a d m ≡ edit_stop → (a ≡ []) × (d ≡ []) × (m ≡ [])
plan-edit_stop (x ∷ a) d m e = absurd (cc)
plan-edit_stop [] (x ∷ d) m e = absurd (cc)
plan-edit_stop [] [] (x ∷ m) e = absurd (cc)
plan-edit_stop [] [] [] e = (refl, refl, refl)

idle_stop :
    (s : Store) (r : Request)
    → s.waiting_for_ack ≡ false
    → (requested s r).waiting_for_ack ≡ false
    → r ≡ edit_stop
idle_stop s (edit action items) w e = cc
idle_stop s edit_stop w e = refl

-- Where no acknowledgement was outstanding and aim_ssi_sync on a connection does not wait for one
-- either, it has ended the editing, and the two lists agree: nothing is left to add, to delete or to
-- modify.
pub sync-Agrees :
    (mem : ℕ → List ℕ) (s s' : Store)
    → s.waiting_for_ack ≡ false
    → s.pending ≡ []
    → s.connected ≡ true
    → IsLinked s
    → sync mem s ≡ some s'
    → s'.waiting_for_ack ≡ false
    → (s'.sent ≡ s.sent ++ (edit_stop ∷ [])) × Agrees mem s.local s.official
sync-Agrees mem s s' w p c h e w' =
    let same : requested s (planned mem s) ≡ s' = some-eq (sym (sync_lem mem s w p c h) ∙ e) in
    let stop : planned mem s ≡ edit_stop =
      idle_stop s (planned mem s) w (ap (λ x. x.waiting_for_ack) same ∙ w') in
    let (a, d, m) = plan-edit_stop _ _ _ stop in
    (
      ap (λ x. x.sent) (sym same) ∙ ap (λ r. (requested s r).sent) stop,
      (agree_of_plan mem s.local s.official a m, found_of_lacking s.official s.local d),
    )
  where
    some-eq : {x y : Store} → some x ≡ some y → x ≡ y
    some-eq q = cc
