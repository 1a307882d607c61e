-- ===== src/SharedChunks/Steps.antt =====
-- Each step of a processor keeps the chunks disjoint and below the frontier.
use multi_mlton.Prelude.{
  ℕ, ◌+◌, ◌-◌, ◌^◌, ◌≤◌, ◌<◌, ◌≡◌, ◌≢◌, inl, inr, refl, ◌==◌, ltb, leb, Option, some, none,
  Bool-cases, ==_iff, not_ltb→le, not_leb→lt, ltb→lt, if◌then◌else◌, arith,
}
use multi_mlton.Align.{add_size, sub_size}
use multi_mlton.CardMap.{Memory}
use multi_mlton.Gap.{bonus_slop, fill_gap}
use multi_mlton.SharedChunks.{
  Chunk, Attempt, satisfied, collect, exits, swap, start_chunk, propose, attempt, Phase, idle,
  asking, swapping, collecting, exited, System, put, after_attempt, advance, Step, asks, advances,
  allocates,
}
use multi_mlton.SharedChunks.Disjoint.{Disjoint, Proposed, PhaseOk, Laid, Laid-put}

-- What a pass of the loop computes.
module _ (acs end : ℕ) (acs_small : acs < 2 ^ 62) (end_small : end < 2 ^ 62) where
  abbrev AttemptOk : ℕ → Chunk → Attempt → Type 0
  AttemptOk old c satisfied = Unit
  AttemptOk old c (collect bytes) = Unit
  AttemptOk old c exits = Unit
  AttemptOk old c (swap bytes c' f mem) = Proposed end old c bytes c' f

  module _ (bytes old : ℕ) (c : Chunk) (mem : Memory) (chunk : c.frontier ≤ c.limit_plus_slop)
      (below : c.limit_plus_slop + bonus_slop ≤ old) (top : old ≤ end)
      (fits : bytes + bonus_slop ≤ end - old) (small : bytes < 2 ^ 62)
      (unsatisfied : c.limit_plus_slop < c.frontier + bytes) where
    start_chunk-Proposed : (o : Option (ℕ × Memory)) → AttemptOk old c (start_chunk bytes old o)
    unfolding start_chunk
    start_chunk-Proposed none = tt
    start_chunk-Proposed (some (filled, m)) =
        let far : add_size (add_size old bytes) 12 ≡ old + bytes + 12 = omega arith in
        let far' : sub_size (old + bytes + 12) 12 ≡ old + bytes = omega arith in
        rw (far, far')
          (record {
            grows = omega arith;
            top = omega arith;
            limit = refl;
            room = omega arith;
            small = small;
            from = inr refl;
          })

    propose-Proposed : AttemptOk old c (propose acs end bytes old c mem)
    unfolding propose
    propose-Proposed =
        let behind : add_size c.limit_plus_slop 12 ≡ c.limit_plus_slop + 12 = omega arith in
        let next : add_size (add_size c.frontier bytes) 12 ≡ c.frontier + bytes + 12 =
          omega arith in
        let next' : sub_size (c.frontier + bytes + 12) 12 ≡ c.frontier + bytes = omega arith in
        elim (Bool-cases (old == c.limit_plus_slop + 12)) [
          | inl y ↦
              rw (behind, next, next', y)
                (record {
                  grows = omega (arith, (==_iff old (c.limit_plus_slop + 12)).0 y);
                  top = omega arith;
                  limit = refl;
                  room = omega arith;
                  small = small;
                  from = inl ((==_iff old (c.limit_plus_slop + 12)).0 y, refl);
                })
          | inr m ↦
              rw (behind, m)
                (start_chunk-Proposed (fill_gap mem c.frontier (c.limit_plus_slop + 12)))
        ]

  attempt_ok :
      (requested old : ℕ) (c : Chunk) (mem : Memory)
      → c.frontier ≤ c.limit_plus_slop
      → c.limit_plus_slop + bonus_slop ≤ old
      → old ≤ end
      → requested < 2 ^ 62
      → AttemptOk old c (attempt acs end requested old c mem)
  unfolding attempt
  attempt_ok requested old c mem chunk below top small =
      let left : sub_size c.limit_plus_slop c.frontier ≡ c.limit_plus_slop - c.frontier =
        omega arith in
      let available : sub_size end old ≡ end - old = omega arith in
      elim (Bool-cases (leb requested (c.limit_plus_slop - c.frontier))) [
        | inl y ↦ rw (left, y) tt
        | inr unsatisfied ↦
            rw (left, unsatisfied, available)
              (at_least (if ltb requested acs then acs else requested) (raised requested acs)
                (raised_small requested acs small acs_small) (not_leb→lt _ _ unsatisfied))
      ]
    where
      raised : (a b : ℕ) → a ≤ (if ltb a b then b else a)
      raised a b = elim (Bool-cases (ltb a b)) [
        | inl y ↦ rw y (omega (arith, ltb→lt a b y))
        | inr n ↦ rw n (omega arith)
      ]

      raised_small : (a b : ℕ) → a < 2 ^ 62 → b < 2 ^ 62 → (if ltb a b then b else a) < 2 ^ 62
      raised_small a b la lb = elim (Bool-cases (ltb a b)) [ inl y ↦ rw y lb | inr n ↦ rw n la ]

      at_least :
          (bytes : ℕ)
          → requested ≤ bytes
          → bytes < 2 ^ 62
          → c.limit_plus_slop - c.frontier < requested
          → AttemptOk old c (
              if ltb (end - old) (add_size bytes bonus_slop)
              then collect (add_size bytes bonus_slop)
              else propose acs end bytes old c mem)
      at_least bytes more less gap =
          let sum : add_size bytes 12 ≡ bytes + 12 = omega arith in
          elim (Bool-cases (ltb (end - old) (bytes + 12))) [
            | inl y ↦ rw (sum, y) tt
            | inr n ↦
                rw (sum, n)
                  (propose-Proposed bytes old c mem chunk below top (not_ltb→le _ _ n) less
                    (omega arith))
          ]

  module _ (n : ℕ) (s : System) (k : ℕ) (l : Laid end n s) (lt : k < n) where
    -- Processor k keeps its chunk, and comes to another phase.
    Laid-phase :
        (x : Phase) (mem : Memory)
        → PhaseOk end s.frontier (s.procs k).chunk x
        → Laid end n (record {
          procs = put s.procs k (record { chunk = (s.procs k).chunk; phase = x });
          frontier = s.frontier;
          mem = mem;
        })
    Laid-phase x mem ok =
        Laid-put end n s k (record { chunk = (s.procs k).chunk; phase = x }) s.frontier mem l lt
          (omega arith) l.top
          (record { chunk = (l.inside k lt).chunk; below = (l.inside k lt).below; phase = ok })
          (λ j less differ. l.apart j k less lt differ)

    Laid-attempt :
        (a : Attempt)
        → AttemptOk s.frontier (s.procs k).chunk a
        → Laid end n (after_attempt acs end s k (s.procs k).chunk s.frontier a)
    unfolding after_attempt
    Laid-attempt satisfied ok = Laid-phase idle s.mem tt
    Laid-attempt (collect bytes) ok = Laid-phase (collecting bytes) s.mem tt
    Laid-attempt exits ok = Laid-phase exited s.mem tt
    Laid-attempt (swap bytes c' f m) ok =
        Laid-phase (swapping bytes c' f s.frontier) m (ok, omega arith)

    -- The chunk of a swap that succeeds.
    swapped_apart :
        (bytes : ℕ) (c' : Chunk) (f : ℕ)
        → Proposed end s.frontier (s.procs k).chunk bytes c' f
        → (j : ℕ) → j < n
        → j ≢ k
        → Disjoint (s.procs j).chunk c'
    swapped_apart bytes c' f p j less differ = elim (p.from) [
      | inr fresh ↦ inl (omega (arith, (l.inside j less).below))
      | inl (at, same) ↦ elim (l.apart j k less lt differ) [
        | inl before ↦ inl (omega (arith))
        | inr behind ↦ absurd (omega (arith, (l.inside j less).below, (l.inside j less).chunk))
      ]
    ]

    Laid-swap :
        (bytes : ℕ) (c' : Chunk) (f old : ℕ)
        → Proposed end old (s.procs k).chunk bytes c' f
        → s.frontier ≡ old
        → Laid end n (record {
          procs = put s.procs k (record { chunk = c'; phase = idle });
          frontier = f;
          mem = s.mem;
        })
    Laid-swap bytes c' f old p now =
        let p' : Proposed end s.frontier (s.procs k).chunk bytes c' f = rw now p in
        Laid-put end n s k (record { chunk = c'; phase = idle }) f s.mem l lt p'.grows p'.top
          (record { chunk = omega (arith, p'.room); below = omega (arith, p'.limit); phase = tt })
          (swapped_apart bytes c' f p')

    Laid-advance :
        (x : Phase)
        → PhaseOk end s.frontier (s.procs k).chunk x
        → Laid end n (advance acs end s k (s.procs k).chunk x)
    unfolding advance
    Laid-advance idle ok = l
    Laid-advance (collecting bytes) ok = l
    Laid-advance exited ok = l
    Laid-advance (asking bytes) ok =
        Laid-attempt (attempt acs end bytes s.frontier (s.procs k).chunk s.mem) (
          attempt_ok bytes s.frontier (s.procs k).chunk s.mem (l.inside k lt).chunk
            (l.inside k lt).below l.top ok)
    Laid-advance (swapping bytes c' f old) ok = elim (Bool-cases (s.frontier == old)) [
      | inl y ↦ rw y (Laid-swap bytes c' f old ok.0 ((==_iff s.frontier old).0 y))
      | inr m ↦ rw m (Laid-phase (asking bytes) s.mem ok.0.small)
    ]

    Laid-allocates :
        (bytes : ℕ)
        → (s.procs k).chunk.frontier + bytes ≤ (s.procs k).chunk.limit_plus_slop
        → Laid end n (record {
          procs = put s.procs k (record {
            chunk = record ((s.procs k).chunk) { frontier = (s.procs k).chunk.frontier + bytes };
            phase = idle;
          });
          frontier = s.frontier;
          mem = s.mem;
        })
    Laid-allocates bytes room =
        Laid-put end n s k
          (record {
            chunk = record ((s.procs k).chunk) { frontier = (s.procs k).chunk.frontier + bytes };
            phase = idle;
          })
          s.frontier s.mem l lt (omega arith) l.top
          (record { chunk = room; below = (l.inside k lt).below; phase = tt })
          (λ j less differ. elim (l.apart j k less lt differ) [
            | inl before ↦ inl (omega arith)
            | inr behind ↦ inr behind
          ])

  pub Laid-Step : (n : ℕ) {s s' : System} → Laid end n s → Step acs end n s s' → Laid end n s'
  Laid-Step n l (asks {s} k bytes lt e small) = Laid-phase n s k l lt (asking bytes) s.mem small
  Laid-Step n l (advances {s} k lt) =
      Laid-advance n s k l lt (s.procs k).phase (l.inside k lt).phase
  Laid-Step n l (allocates {s} k bytes lt e room) = Laid-allocates n s k l lt bytes room
