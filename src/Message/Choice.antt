-- ===== src/Message/Choice.antt =====
-- im.c: the part that incomingim_ch1_parsemsgs shows to clients without multipart messages.
use irssi_icq.Base.{
  ℕ, ◌≡◌, ◌≢◌, refl, ap, ◌==◌, ==_iff, List, [], ◌∷◌, ◌++◌, none, some, if◌then◌else◌, arith, All,
  ◌⊎◌, inl, inr, Bool-cases, ◌≤◌, ◌<◌, subst,
}
use irssi_icq.Message.{Section, find_part, Args, fill, choose, charsetpri}

-- ASCII first, then ISO-8859-1, then UNICODE; 3 for what nobody can read.
unfoldable pub rank : Section → ℕ
rank sec =
    if sec.charset == 0x0000
    then 0
    else if sec.charset == 0x0003
    then 1
    else if sec.charset == 0x0002
    then 2
    else 3

-- The first part of a charset.
abbrev IsFirst : ℕ → List Section → Section → Type 0
IsFirst charset parts sec =
    (before : List Section) × (after : List Section) × (parts ≡ before ++ (sec ∷ after))
    × (sec.charset ≡ charset)
    × All (λ (t : Section). t.charset ≢ charset) before

find_part-cases :
    (charset : ℕ) (parts : List Section)
    → ((find_part charset parts ≡ none) × All (λ (t : Section). t.charset ≢ charset) parts)
      ⊎ ((sec : Section) × (find_part charset parts ≡ some sec) × IsFirst charset parts sec)
unfolding find_part
find_part-cases charset [] = inl (refl, tt)
find_part-cases charset (t ∷ parts) = elim (Bool-cases (t.charset == charset)) [
  | inl e ↦ inr (t, ground (arith, e), ([], parts, refl, (==_iff t.charset charset).0 e, tt))
  | inr n ↦
      let other : t.charset ≢ charset = λ q. ground (arith, n, q) in
      elim (find_part-cases charset parts) [
        | inl (e, all) ↦ inl (ground (arith, n, e), (other, all))
        | inr (sec, e, (before, after, split, c, all)) ↦
            inr (sec, ground (arith, n, e), (t ∷ before, after, ap (◌∷◌ t) split, c, (other, all)))
      ]
]

module _ {A : Type 0} where
  All-mono {ℓ κ} :
      (P : A → Type ℓ) (Q : A → Type κ) (l : List A) → ((x : A) → P x → Q x) → All P l → All Q l
  All-mono P Q [] f h = tt
  All-mono P Q (x ∷ l) f h = (f x h.0, All-mono P Q l f h.1)

  All-both {ℓ κ} :
      (P : A → Type ℓ) (Q : A → Type κ) (l : List A) → All P l → All Q l → All (λ x. P x × Q x) l
  All-both P Q [] h k = tt
  All-both P Q (x ∷ l) h k = ((h.0, k.0), All-both P Q l h.1 k.1)

  All-front {ℓ} : (P : A → Type ℓ) (l m : List A) → All P (l ++ m) → All P l
  All-front P [] m h = tt
  All-front P (x ∷ l) m h = (h.0, All-front P l m h.1)

-- No part of the list has the charset.
abbrev Without : ℕ → List Section → Type 0
Without charset parts = All (λ (t : Section). t.charset ≢ charset) parts

module _ (t : Section) where
  rank-first : t.charset ≢ 0 → 1 ≤ rank t
  unfolding rank
  rank-first h = ground (arith, h)

  rank-second : (t.charset ≢ 0) × (t.charset ≢ 3) → 2 ≤ rank t
  unfolding rank
  rank-second h = ground (arith, h.0, h.1)

  rank-third : (t.charset ≢ 0) × ((t.charset ≢ 3) × (t.charset ≢ 2)) → rank t ≡ 3
  unfolding rank
  rank-third h = ground (arith, h.0, h.1.0, h.1.1)

  rank-charset :
      (t.charset ≡ 0 → rank t ≡ 0) × (t.charset ≡ 3 → rank t ≡ 1) × (t.charset ≡ 2 → rank t ≡ 2)
  unfolding rank
  rank-charset = (λ e. ground (arith, e), λ e. ground (arith, e), λ e. ground (arith, e))

-- The outcome where a part is shown: no part can be read better, and none before it as well.
abbrev pub Shows : List Section → Section → Args → Type 0
Shows parts sec o =
    ((before : List Section) × (after : List Section) × (parts ≡ before ++ (sec ∷ after))
      × All (λ t. rank sec < rank t) before)
    × (rank sec < 3)
    × All (λ t. rank sec ≤ rank t) parts
    × (o.msg ≡ sec.content)
    × (o.msglen ≡ sec.datalen)
    × (o.charset ≡ sec.charset)
    × (o.charsubset ≡ sec.charsubset)

-- The outcome where no part can be read.
abbrev pub ShowsNothing : List Section → Args → Type 0
ShowsNothing parts o =
    All (λ t. rank t ≡ 3) parts
    × (o.msg ≡ none)
    × (o.msglen ≡ 0)
    × (o.charset ≡ 0xffff)
    × (o.charsubset ≡ 0xffff)

-- A part of the rank `k`, where no part before it and no part at all has a lower one.
shown :
    (k : ℕ) (args : Args) (sec : Section) (before after : List Section)
    → k < 3
    → args.mpmsg.parts ≡ before ++ (sec ∷ after)
    → rank sec ≡ k
    → All (λ t. k ≤ rank t) args.mpmsg.parts
    → All (λ t. k < rank t) before
    → Shows args.mpmsg.parts sec (fill args sec)
unfolding fill
shown k args sec before after small split e low strict = (
  (before, after, split, All-mono _ _ before (λ t h. omega (arith, e, h)) strict),
  omega (arith, e, small),
  All-mono _ _ args.mpmsg.parts (λ t h. omega (arith, e, h)) low,
  refl,
  refl,
  refl,
  refl,
)

-- Where no part is ASCII or ISO-8859-1.
last :
    (args : Args)
    → find_part 0 args.mpmsg.parts ≡ none
    → find_part 3 args.mpmsg.parts ≡ none
    → Without 0 args.mpmsg.parts
    → Without 3 args.mpmsg.parts
    → ((sec : Section) × Shows args.mpmsg.parts sec (choose charsetpri args))
      ⊎ ShowsNothing args.mpmsg.parts (choose charsetpri args)
unfolding choose
last args e e' ascii latin =
    let parts = args.mpmsg.parts in
    elim (find_part-cases 2 parts) [
      | inr (sec, e'', (before, after, split, c, without)) ↦
          let a = All-front _ before (sec ∷ after) (subst (Without 0) split ascii) in
          let l = All-front _ before (sec ∷ after) (subst (Without 3) split latin) in
          let three = All-both _ _ before a (All-both _ _ before l without) in
          inl (
            sec,
            rw (e, e', e'', choose)
                (shown 2 args sec before after (omega arith) split ((rank-charset sec).2 c)
                  (All-mono _ _ parts rank-second (All-both _ _ parts ascii latin))
                  (All-mono _ _ before (λ t h. omega (arith, rank-third t h)) three)),
          )
      | inl (e'', unicode) ↦ inr (
          rw (e, e', e'', choose)
            (
              All-mono _ _ parts rank-third
                  (All-both _ _ parts ascii (All-both _ _ parts latin unicode)),
              refl,
              refl,
              refl,
              refl,
            ))
    ]

-- Of the parts of a message, incomingim_ch1_parsemsgs shows the first of the best charset: ASCII, else ISO-8859-1,
-- else UNICODE. Where there is none of these, it shows nothing, and sets the charset to 0xffff.
pub choose_lem :
    (args : Args)
    → ((sec : Section) × Shows args.mpmsg.parts sec (choose charsetpri args))
      ⊎ ShowsNothing args.mpmsg.parts (choose charsetpri args)
unfolding choose
choose_lem args =
    let parts = args.mpmsg.parts in
    elim (find_part-cases 0 parts) [
      | inr (sec, e, (before, after, split, c, without)) ↦ inl (
        sec,
        rw (e, choose)
            (shown 0 args sec before after (omega arith) split ((rank-charset sec).0 c)
              (All-mono (λ t. Unit {0}) _ parts (λ t h. omega arith) (all parts))
              (All-mono _ _ before rank-first without)),
      )
      | inl (e, ascii) ↦ elim (find_part-cases 3 parts) [
        | inr (sec, e', (before, after, split, c, without)) ↦
            let front = All-front _ before (sec ∷ after) (subst (Without 0) split ascii) in
            inl (
              sec,
              rw (e, e', choose)
                  (shown 1 args sec before after (omega arith) split ((rank-charset sec).1 c)
                    (All-mono _ _ parts rank-first ascii)
                    (All-mono _ _ before rank-second (All-both _ _ before front without))),
            )
        | inl (e', latin) ↦ last args e e' ascii latin
      ]
    ]
  where
    all : (l : List Section) → All (λ t. Unit {0}) l
    all [] = tt
    all (t ∷ l) = (tt, all l)
