-- ===== src/Dispatch/Handlers.antt =====
-- rxhandlers.c: which handler of a connection answers.
use irssi_icq.Base.{
  ℕ, List, [], ◌∷◌, ◌++◌, Option, none, some, Bool, true, false, ◌==◌, ◌&&◌, if◌then◌else◌, ◌≡◌,
  ◌⊎◌, ◌↔◌, ◌∙◌, inl, inr, All, refl, ap, sym, subst, Bool-cases, arith, ==_iff, append-nil,
  append_assoc, if_true, if_false,
}
use irssi_icq.Flap.{Conn, Handler}
use irssi_icq.Dispatch.{
  addhandler, conn_addhandler, clone_loop, clonehandlers, find_handler, callhandler,
  special_default,
}

abbrev pub Matches : ℕ → ℕ → Handler → Type 0
Matches family type cur = (cur.family ≡ family) × (cur.type ≡ type)

abbrev pub Absent : ℕ → ℕ → List Handler → Type 0
Absent family type hs = All (λ cur. ¬ Matches family type cur) hs

-- The first entry for a family and a type has this handler.
abbrev pub IsFirst : ℕ → ℕ → List Handler → ℕ → Type 0
IsFirst family type hs h =
    (front : List Handler) × (cur : Handler) × (rest : List Handler) × (hs ≡ front ++ (cur ∷ rest))
    × Absent family type front
    × Matches family type cur
    × (cur.handler ≡ h)

-- The test of aim_callhandler.
test : (cur : Handler) (f t : ℕ) → Bool
test cur f t = cur.family == f && cur.type == t

matching : (a b c d : ℕ) → a ≡ b → c ≡ d → (a == b && c == d) ≡ true
matching a b c d e f = ground (arith, e, f)

matched : (a b c d : ℕ) → (a == b && c == d) ≡ true → (a ≡ b) × (c ≡ d)
matched a b c d e = (ground (arith, e), ground (arith, e))

unmatched : (a b c d : ℕ) → (a == b && c == d) ≡ false → ¬ ((a ≡ b) × (c ≡ d))
unmatched a b c d e (p, q) = let m : (a == b && c == d) ≡ true = matching a b c d p q in cc

other : (a b c d : ℕ) → ¬ ((a ≡ b) × (c ≡ d)) → (a == b && c == d) ≡ false
other a b c d h = elim (Bool-cases (a == b && c == d)) [
  | inl e ↦ absurd (h (matched a b c d e))
  | inr e ↦ e
]

find_handler-skip :
    (cur : Handler) (hs : List Handler) (f t : ℕ)
    → ¬ Matches f t cur
    → find_handler (cur ∷ hs) f t ≡ find_handler hs f t
find_handler-skip cur hs f t n = unfold find_handler in if_false _ _ (other _ _ _ _ n)

find_handler-here :
    (cur : Handler) (hs : List Handler) (f t : ℕ)
    → Matches f t cur
    → find_handler (cur ∷ hs) f t ≡ some cur.handler
find_handler-here cur hs f t (a, b) = unfold find_handler in if_true _ _ (matching _ _ _ _ a b)

find_handler-Absent : (hs : List Handler) (f t : ℕ) → Absent f t hs → find_handler hs f t ≡ none
find_handler-Absent [] f t a = unfold find_handler in refl
find_handler-Absent (cur ∷ hs) f t (n, a) =
    find_handler-skip cur hs f t n ∙ find_handler-Absent hs f t a

find_handler-append :
    (front hs : List Handler) (f t : ℕ)
    → Absent f t front
    → find_handler (front ++ hs) f t ≡ find_handler hs f t
find_handler-append [] hs f t a = refl
find_handler-append (cur ∷ front) hs f t (n, a) =
    find_handler-skip cur (front ++ hs) f t n ∙ find_handler-append front hs f t a

find_handler-IsFirst :
    (hs : List Handler) (f t h : ℕ) → IsFirst f t hs h → find_handler hs f t ≡ some h
find_handler-IsFirst hs f t h (front, cur, rest, e, a, m, g) =
    ap (λ l. find_handler l f t) e
    ∙ find_handler-append front (cur ∷ rest) f t a
    ∙ find_handler-here cur rest f t m
    ∙ ap some g

-- One of the two holds.
search_handler : (hs : List Handler) (f t : ℕ) → Absent f t hs ⊎ ((h : ℕ) × IsFirst f t hs h)
search_handler [] f t = inl tt
search_handler (cur ∷ hs) f t = elim (Bool-cases (cur.family == f && cur.type == t)) [
  | inl m ↦ inr (cur.handler, ([], cur, hs, refl, tt, matched _ _ _ _ m, refl))
  | inr n ↦ elim (search_handler hs f t) [
    | inl a ↦ inl (unmatched _ _ _ _ n, a)
    | inr (h, (front, c, rest, e, a, m, g)) ↦
        inr (h, (cur ∷ front, c, rest, ap (◌∷◌ cur) e, (unmatched _ _ _ _ n, a), m, g))
  ]
]

callhandler-found :
    (conn : Conn) (f t h : ℕ)
    → find_handler conn.handlerlist f t ≡ some h
    → callhandler conn f t ≡ some h
callhandler-found conn f t h e = unfold callhandler in rw (e, callhandler) refl

callhandler-default :
    (conn : Conn) (f t : ℕ)
    → find_handler conn.handlerlist f t ≡ none
    → callhandler conn f t
      ≡ (if t == special_default then none else find_handler conn.handlerlist f special_default)
callhandler-default conn f t e = unfold callhandler in rw (e, callhandler) refl

-- aim_callhandler answers with a handler exactly where it is that of the first entry for the
-- family and the type or, where there is no such entry, that of the first entry for the family and
-- the default type.
pub callhandler_iff :
    (conn : Conn) (family type h : ℕ)
    → (callhandler conn family type ≡ some h) ↔ (
        IsFirst family type conn.handlerlist h
        ⊎ (Absent family type conn.handlerlist × IsFirst family special_default conn.handlerlist h))
callhandler_iff conn f t h = (answered, answers)
  where
    defaulted :
        Absent f t conn.handlerlist
        → (if t == special_default then none else find_handler conn.handlerlist f special_default)
          ≡ find_handler conn.handlerlist f special_default
    defaulted a = elim (Bool-cases (t == special_default)) [
      | inl e ↦
          if_true _ _ e
          ∙ sym (find_handler-Absent conn.handlerlist f t a)
          ∙ ap (find_handler conn.handlerlist f) ((==_iff t special_default).0 e)
      | inr e ↦ if_false _ _ e
    ]

    answers :
        IsFirst f t conn.handlerlist h
          ⊎ (Absent f t conn.handlerlist × IsFirst f special_default conn.handlerlist h)
        → callhandler conn f t ≡ some h
    answers (inl first) =
        callhandler-found conn f t h (find_handler-IsFirst conn.handlerlist f t h first)
    answers (inr (a, first)) =
        callhandler-default conn f t (find_handler-Absent conn.handlerlist f t a)
        ∙ defaulted a
        ∙ find_handler-IsFirst conn.handlerlist f special_default h first

    same : {x : ℕ} {o : Option ℕ} → o ≡ some x → o ≡ some h → x ≡ h
    same e g = cc

    nothing : {o : Option ℕ} → o ≡ none → o ≡ some h → ⊥
    nothing e g = cc

    answered :
        callhandler conn f t ≡ some h
        → IsFirst f t conn.handlerlist h
          ⊎ (Absent f t conn.handlerlist × IsFirst f special_default conn.handlerlist h)
    answered e = elim (search_handler conn.handlerlist f t) [
      | inr (x, first) ↦ inl (
          subst (IsFirst f t conn.handlerlist)
            (same (callhandler-found conn f t x (find_handler-IsFirst conn.handlerlist f t x first))
              e)
            first)
      | inl a ↦ elim (search_handler conn.handlerlist f special_default) [
        | inr (x, first) ↦ inr (
          a,
          subst (IsFirst f special_default conn.handlerlist)
              (same
                (callhandler-default conn f t (find_handler-Absent conn.handlerlist f t a)
                  ∙ defaulted a
                  ∙ find_handler-IsFirst conn.handlerlist f special_default x first)
                e)
              first,
        )
        | inl b ↦ absurd (
            nothing
              (callhandler-default conn f t (find_handler-Absent conn.handlerlist f t a)
                ∙ defaulted a
                ∙ find_handler-Absent conn.handlerlist f special_default b)
              e)
      ]
    ]

addhandler_lem :
    (hs : List Handler) (f t h x : ℕ)
    → addhandler hs f t h x ≡ hs ++ (record { family = f; type = t; handler = h; flags = x } ∷ [])
unfolding addhandler
addhandler_lem [] f t h x = refl
addhandler_lem (cur ∷ hs) f t h x = ap (◌∷◌ cur) (addhandler_lem hs f t h x)

clone_loop_lem :
    (dest : Conn) (hs : List Handler) → (clone_loop dest hs).handlerlist ≡ dest.handlerlist ++ hs
unfolding clone_loop conn_addhandler
clone_loop_lem dest [] = sym (append-nil dest.handlerlist)
clone_loop_lem dest (cur ∷ hs) =
    clone_loop_lem (conn_addhandler dest cur.family cur.type cur.handler cur.flags) hs
    ∙ ap (λ l. l ++ hs) (addhandler_lem dest.handlerlist cur.family cur.type cur.handler cur.flags)
    ∙ append_assoc dest.handlerlist (cur ∷ []) hs

abbrev or_else : Option ℕ → Option ℕ → Option ℕ
or_else a b = elim a [ some handler ↦ some handler | none ↦ b ]

find_handler-both :
    (hs more : List Handler) (f t : ℕ)
    → find_handler (hs ++ more) f t ≡ or_else (find_handler hs f t) (find_handler more f t)
find_handler-both [] more f t =
    ap (λ o. or_else o (find_handler more f t)) (sym (find_handler-Absent [] f t tt))
find_handler-both (cur ∷ hs) more f t = elim (Bool-cases (cur.family == f && cur.type == t)) [
  | inl m ↦
      find_handler-here cur (hs ++ more) f t (matched _ _ _ _ m)
      ∙ ap (λ o. or_else o (find_handler more f t))
          (sym (find_handler-here cur hs f t (matched _ _ _ _ m)))
  | inr n ↦
      find_handler-skip cur (hs ++ more) f t (unmatched _ _ _ _ n)
      ∙ find_handler-both hs more f t
      ∙ ap (λ o. or_else o (find_handler more f t))
          (sym (find_handler-skip cur hs f t (unmatched _ _ _ _ n)))
]

-- After aim_clonehandlers an entry of the destination still answers first, and where it has none
-- for a family and a type, the source's does.
pub clonehandlers-find_handler :
    (dest src : Conn) (family type : ℕ)
    → find_handler (clonehandlers dest src).handlerlist family type
      ≡ elim (find_handler dest.handlerlist family type) [
        | some handler ↦ some handler
        | none ↦ find_handler src.handlerlist family type
      ]
unfolding clonehandlers
clonehandlers-find_handler dest src family type =
    ap (λ l. find_handler l family type) (clone_loop_lem dest src.handlerlist)
    ∙ find_handler-both dest.handlerlist src.handlerlist family type
