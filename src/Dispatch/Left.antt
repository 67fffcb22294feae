-- ===== src/Dispatch/Left.antt =====
-- rxhandlers.c: which frames are in the queue after aim_rxdispatch.
use irssi_icq.Base.{
  ℕ, List, [], ◌∷◌, Option, none, some, Bool, true, false, ◌==◌, not, ◌≡◌, ◌≢◌, ◌⊎◌, inl, inr, All,
  refl, ap, subst, Bool-cases, arith, ==_iff, if_elim, if_true,
}
use irssi_icq.Bstream
use irssi_icq.Bstream.{Bstream}
use irssi_icq.Flap.{Conn, Frame, frametype_flap}
use irssi_icq.Flap.Queue.{purge}
use irssi_icq.Dispatch.{
  Module, Modsnac, mark, last_chance, negchan_middle, consumesnac, dispatch_flap, dispatch_one,
  dispatch_loop, rxdispatch,
}

-- A frame that may stay, for another call: on one of the two channels whose handler decides.
abbrev pub Stays : Frame → Type 0
Stays fr = (fr.hdrtype ≡ frametype_flap) × ((fr.type ≡ 1) ⊎ (fr.type ≡ 4))

-- A frame without a chain of triples to read.
abbrev pub Plain : Frame → Type 0
Plain fr = (fr.type ≢ 4) ⊎ (Bstream.empty fr.payload ≡ 0)

abbrev Settled : Frame → Type 0
Settled fr = ((fr.handled == 0) ≡ false) ⊎ Stays fr

-- A result that is missing only where `P` holds.
abbrev pub Out {ℓ} : {S : Type ℓ} → Type 0 → (S → Type 0) → Option S → Type ℓ
Out {S = S} P Q o = (P × (o ≡ none)) ⊎ ((r : S) × (o ≡ some r) × Q r)

module _ {World : Type 0} (conns : World → ℕ → Conn)
    (accept : Module → Modsnac → Bstream → World → ℕ × Bstream × World)
    (call : ℕ → Frame → World → ℕ × Bstream × World)
    (connerr : ℕ → Frame → ℕ → Option (List ℕ) → World → ℕ × Bstream × World)
    (modlist : List Module) where
  last_chance-handled :
      (r : Frame × World)
      → ((last_chance conns accept call connerr modlist r).0.handled == 0) ≡ false
  last_chance-handled (cur, w) = elim (Bool-cases (cur.handled == 0)) [
    | inl new ↦ unfold last_chance in rw (new, last_chance) refl
    | inr done ↦ unfold last_chance in rw (done, last_chance) done
  ]

  abbrev OneOut : Frame → Option (Frame × World) → Type 0
  OneOut cur = Out (¬ Plain cur) (λ r. Settled r.0)

  last_chance-OneOut :
      (cur : Frame) (r : Frame × World)
      → OneOut cur (some (last_chance conns accept call connerr modlist r))
  last_chance-OneOut cur r = inr (_, refl, inl (last_chance-handled r))

  channel_one :
      (cur : Frame) (r : ℕ × Bstream × World)
      → cur.hdrtype ≡ frametype_flap
      → cur.type ≡ 1
      → OneOut cur (some (mark conns accept call connerr cur r))
  channel_one cur r flap t = inr (_, refl, inr (flap, inl t))

  channel_four :
      (cur : Frame) (o : Option (ℕ × Bstream × World))
      → cur.hdrtype ≡ frametype_flap
      → cur.type ≡ 4
      → ((Bstream.empty cur.payload ≡ 0) → o ≢ none)
      → OneOut cur (elim o [ none ↦ none | some r ↦ some (mark conns accept call connerr cur r) ])
  channel_four cur none flap t h = inl (λ p. elim p [ inl n ↦ n t | inr e ↦ h e refl ], refl)
  channel_four cur (some r) flap t h = inr (_, refl, inr (flap, inr t))

  negchan_middle-empty :
      (cur : Frame) (w : World)
      → Bstream.empty cur.payload ≡ 0
      → negchan_middle conns accept call connerr modlist cur w ≢ none
  negchan_middle-empty cur w e f =
      let g : negchan_middle conns accept call connerr modlist cur w ≡ some (1, cur.payload, w) =
        (unfold negchan_middle in if_true _ _ (empty_test _ e)) in
      cc
    where
      empty_test : (n : ℕ) → n ≡ 0 → (n == 0) ≡ true
      empty_test n e = ground (arith, e)

  dispatch_flap-OneOut :
      (cur : Frame) (w : World)
      → cur.hdrtype ≡ frametype_flap
      → OneOut cur (dispatch_flap conns accept call connerr modlist cur w)
  unfolding dispatch_flap
  dispatch_flap-OneOut cur w flap =
      if_elim (OneOut cur) (cur.type == 1) _ _
        (λ one. channel_one cur _ flap ((==_iff cur.type 1).0 one))
        (λ _.
          if_elim (OneOut cur) (cur.type == 2) _ _
            (λ _.
              last_chance-OneOut cur (
                mark conns accept call connerr cur
                  (consumesnac conns accept modlist cur.payload w)))
            (λ _.
              if_elim (OneOut cur) (cur.type == 4) _ _
                (λ four.
                  channel_four cur _ flap ((==_iff cur.type 4).0 four) (negchan_middle-empty cur w))
                (λ _. last_chance-OneOut cur (cur, w))))

  dispatch_one-OneOut :
      (cur : Frame) (w : World) → OneOut cur (dispatch_one conns accept call connerr modlist cur w)
  unfolding dispatch_one
  dispatch_one-OneOut cur w =
      if_elim (OneOut cur) (not (cur.handled == 0)) _ _
        (λ done. inr (_, refl, inl (handled_of (cur.handled == 0) done)))
        (λ _.
          if_elim (OneOut cur) (cur.hdrtype == frametype_flap) _ _
            (λ flap. dispatch_flap-OneOut cur w ((==_iff cur.hdrtype frametype_flap).0 flap))
            (λ _. last_chance-OneOut cur (cur, w)))
    where
      handled_of : (b : Bool) → not b ≡ true → b ≡ false
      handled_of true h = cc
      handled_of false h = refl

  abbrev LoopOut : List Frame → Option (List Frame × World) → Type 0
  LoopOut frs = Out (¬ All Plain frs) (λ r. All Settled r.0)

  loop_more :
      (cur : Frame) (rest : List Frame) (cur' : Frame) (o : Option (List Frame × World))
      → Settled cur'
      → LoopOut rest o
      → LoopOut (cur ∷ rest) (elim o [ none ↦ none | some rs ↦ some (cur' ∷ rs.0, rs.1) ])
  loop_more cur rest cur' none ok (inl (p, e)) = inl (λ a. p a.1, refl)
  loop_more cur rest cur' none ok (inr (r, e, all)) = absurd (nothing e)
    where
      nothing : {r : List Frame × World} → Path (Option (List Frame × World)) none (some r) → ⊥
      nothing e = cc
  loop_more cur rest cur' (some r) ok (inl (p, e)) = absurd (something e)
    where
      something : {r : List Frame × World} → Path (Option (List Frame × World)) (some r) none → ⊥
      something e = cc
  loop_more cur rest cur' (some (l, w)) ok (inr ((l', w'), e, all)) =
      inr (_, refl, (ok, subst (All Settled) (same e) all))
    where
      same :
          {a b : List Frame} {v w : World}
          → Path (Option (List Frame × World)) (some (a, v)) (some (b, w))
          → b ≡ a
      same e = cc

  loop_step :
      (cur : Frame) (rest : List Frame) (o : Option (Frame × World))
      (next : World → Option (List Frame × World))
      → OneOut cur o
      → ((w : World) → LoopOut rest (next w))
      → LoopOut (cur ∷ rest) (elim o [
        | none ↦ none
        | some r ↦ elim (next r.1) [ none ↦ none | some rs ↦ some (r.0 ∷ rs.0, rs.1) ]
      ])
  loop_step cur rest none next (inl (p, e)) more = inl (λ a. p a.0, refl)
  loop_step cur rest none next (inr (r, e, ok)) more = absurd (nothing e)
    where
      nothing : {r : Frame × World} → Path (Option (Frame × World)) none (some r) → ⊥
      nothing e = cc
  loop_step cur rest (some r) next (inl (p, e)) more = absurd (something e)
    where
      something : {r : Frame × World} → Path (Option (Frame × World)) (some r) none → ⊥
      something e = cc
  loop_step cur rest (some (cur', w')) next (inr ((cur'', w''), e, ok)) more =
      loop_more cur rest cur' (next w') (subst Settled (same e) ok) (more w')
    where
      same :
          {a b : Frame} {v w : World}
          → Path (Option (Frame × World)) (some (a, v)) (some (b, w))
          → b ≡ a
      same e = cc

  dispatch_loop-LoopOut :
      (frs : List Frame) (w : World)
      → LoopOut frs (dispatch_loop conns accept call connerr modlist frs w)
  unfolding dispatch_loop
  dispatch_loop-LoopOut [] w = inr (_, refl, tt)
  dispatch_loop-LoopOut (cur ∷ rest) w =
      loop_step cur rest _ (dispatch_loop conns accept call connerr modlist rest)
        (dispatch_one-OneOut cur w) (dispatch_loop-LoopOut rest)

  purge-Stays : (frs : List Frame) → All Settled frs → All Stays (purge frs)
  unfolding purge
  purge-Stays [] ok = tt
  purge-Stays (cur ∷ rest) (one, more) =
      if_elim (All Stays) (not (cur.handled == 0)) _ _ (λ _. purge-Stays rest more)
        (λ new. (still one new, purge-Stays rest more))
    where
      clash : (b : Bool) → b ≡ false → not b ≡ false → ⊥
      clash true e f = cc
      clash false e f = cc

      still : Settled cur → not (cur.handled == 0) ≡ false → Stays cur
      still (inl done) new = absurd (clash (cur.handled == 0) done new)
      still (inr s) new = s

  -- For any handlers and modules, and any queue: aim_rxdispatch ends, and every frame still in the
  -- queue is one of a FLAP connection on channel 1 or 4; the frames of all other channels are gone. Only where
  -- a frame of the queue is on channel 4 and not empty may its chain of triples be one that
  -- negchan_middle does not read to an end.
  pub rxdispatch-Stays :
      (queue_incoming : List Frame) (w : World)
      → ((¬ All Plain queue_incoming)
          × (rxdispatch conns accept call connerr modlist queue_incoming w ≡ none))
        ⊎ ((r : List Frame × World) × (rxdispatch conns accept call connerr modlist queue_incoming w
              ≡ some r)
            × All Stays r.0)
  rxdispatch-Stays queue_incoming w = elim (dispatch_loop-LoopOut queue_incoming w) [
    | inl (p, e) ↦ inl (p, unfold rxdispatch in ap purged e)
    | inr (r, e, all) ↦
        inr ((purge r.0, r.1), (unfold rxdispatch in ap purged e), purge-Stays r.0 all)
  ]
    where
      purged : Option (List Frame × World) → Option (List Frame × World)
      purged none = none
      purged (some (frs, w')) = some (purge frs, w')
