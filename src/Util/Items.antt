-- ===== src/Util/Items.antt =====
-- util.c: the items of a string that are set apart by a delimiter.
use irssi_icq.Base.{
  ℕ, [], ◌∷◌, ◌≡◌, zero, suc, refl, Option, List, get_or, ◌<◌, if◌then◌else◌, ◌+◌, Bool-cases,
  length, ◌==◌, arith, some, inl, none, inr, ap, ◌∙◌, Option-cases, sym, subst, false,
}
use irssi_icq.Util.{after_one, strchr, itemcnt_loop, itemcnt, itemindex_loop, before, itemindex}

abbrev pub push : ℕ → List (List ℕ) → List (List ℕ)
push c [] = (c ∷ []) ∷ []
push c (item ∷ rest) = (c ∷ item) ∷ rest

-- The items: one more than there are delimiters.
abbrev pub items : List ℕ → ℕ → List (List ℕ)
items [] dl = [] ∷ []
items (c ∷ s) dl = if c == dl then [] ∷ items s dl else push c (items s dl)

length-push : (c : ℕ) (xs : List (List ℕ)) → 0 < length xs → length (push c xs) ≡ length xs
length-push c [] h = absurd (omega arith)
length-push c (x ∷ xs) h = refl

items-pos : (s : List ℕ) (dl : ℕ) → 0 < length (items s dl)
items-pos [] dl = omega arith
items-pos (c ∷ s) dl = ground (arith, items-pos s dl, length-push c (items s dl))

itemcnt_loop_lem : (s : List ℕ) (dl n : ℕ) → itemcnt_loop (n + 1) s dl ≡ n + length (items s dl)
unfolding itemcnt_loop
itemcnt_loop_lem [] dl n = omega arith
itemcnt_loop_lem (c ∷ s) dl n = ground (
  arith,
  items-pos s dl,
  length-push c (items s dl),
  itemcnt_loop_lem s dl n,
  itemcnt_loop_lem s dl (n + 1),
)

before_lem : (s : List ℕ) (dl : ℕ) → before s dl ≡ get_or (items s dl) 0 []
unfolding before
before_lem [] dl = refl
before_lem (c ∷ s) dl = elim (Bool-cases (c == dl)) [
  | inl e ↦ rw (e, before) refl
  | inr e ↦
      rw (e, before) (ap (◌∷◌ c) (before_lem s dl) ∙ head-push c (items s dl) (items-pos s dl))
]
  where
    head-push :
        (c : ℕ) (xs : List (List ℕ)) → 0 < length xs → c ∷ get_or xs 0 [] ≡ get_or (push c xs) 0 []
    head-push c [] h = absurd (omega arith)
    head-push c (x ∷ xs) h = refl

get_or-push : (c i : ℕ) (xs : List (List ℕ)) → get_or (push c xs) (suc i) [] ≡ get_or xs (suc i) []
get_or-push c i [] = refl
get_or-push c i (x ∷ xs) = refl

-- What stands behind the first item.
abbrev Follows : Option (List ℕ) → List ℕ → ℕ → ℕ → Type 0
Follows none s dl i = get_or (items s dl) (suc i) [] ≡ []
Follows (some next) s dl i =
    get_or (items s dl) (suc i) [] ≡ get_or (items (after_one next) dl) i []

Follows-push :
    (o : Option (List ℕ)) (c : ℕ) (s : List ℕ) (dl i : ℕ)
    → items (c ∷ s) dl ≡ push c (items s dl)
    → Follows o s dl i
    → Follows o (c ∷ s) dl i
Follows-push none c s dl i e f =
    ap (λ xs. get_or xs (suc i) []) e ∙ get_or-push c i (items s dl) ∙ f
Follows-push (some next) c s dl i e f =
    ap (λ xs. get_or xs (suc i) []) e ∙ get_or-push c i (items s dl) ∙ f

strchr-Follows : (s : List ℕ) (dl i : ℕ) → Follows (strchr s dl) s dl i
unfolding strchr
strchr-Follows [] dl i = refl
strchr-Follows (c ∷ s) dl i = elim (Bool-cases (c == dl)) [
  | inl e ↦ rw (e, strchr) (rw e refl)
  | inr e ↦ rw (e, strchr) (Follows-push (strchr s dl) c s dl i (rw e refl) (strchr-Follows s dl i))
]

-- The last two statements of aimutil_itemindex.
abbrev copied : ℕ × List ℕ → ℕ → List ℕ
copied (left, last) dl = if left == 0 then before last dl else []

itemindex_loop_lem :
    (index : ℕ) (s : List ℕ) (dl : ℕ)
    → copied (itemindex_loop index s dl) dl ≡ get_or (items s dl) index []
itemindex_loop_lem zero s dl = unfold itemindex_loop in before_lem s dl
itemindex_loop_lem (suc index) s dl = elim (Option-cases (strchr s dl)) [
  | inl missing ↦
      rw (one_short missing, not_zero)
        (sym (subst (λ o. Follows o s dl index) missing (strchr-Follows s dl index)))
  | inr (next, found) ↦ rw (one_on next found) (
      itemindex_loop_lem index (after_one next) dl
      ∙ sym (subst (λ o. Follows o s dl index) found (strchr-Follows s dl index)))
]
  where
    not_zero : (suc index == 0) ≡ false
    not_zero = ground arith

    one_short : strchr s dl ≡ none → itemindex_loop (suc index) s dl ≡ (suc index, s)
    one_short e = unfold itemindex_loop in rw (e, itemindex_loop) refl

    one_on :
        (next : List ℕ)
        → strchr s dl ≡ some next
        → itemindex_loop (suc index) s dl ≡ itemindex_loop index (after_one next) dl
    one_on next e = unfold itemindex_loop in rw (e, itemindex_loop) refl

-- aimutil_itemcnt counts the items of a string, and aimutil_itemindex returns the item at an index
-- from 0 on, or the empty string where there is none.
pub itemindex_lem :
    (s : List ℕ) (index dl : ℕ)
    → (itemcnt s dl ≡ length (items s dl)) × (itemindex s index dl ≡ get_or (items s dl) index [])
unfolding itemindex itemcnt
itemindex_lem s index dl = (itemcnt_loop_lem s dl 0 ∙ omega arith, itemindex_loop_lem index s dl)
