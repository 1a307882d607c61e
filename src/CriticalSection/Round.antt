-- ===== src/CriticalSection/Round.antt =====
-- From the last arrival through the turns of all processors to the reset of the shared variables.
use multi_mlton.Prelude.{
  ℕ, suc, ◌<◌, ◌≡◌, ◌≢◌, ◌⊎◌, inl, inr, refl, sym, ap, ◌∙◌, subst, true, false, Option, none, some,
  ◌==◌, arith, dec_lt, Bool-cases,
}
use multi_mlton.CriticalSection.{
  Barrier, opening, waiting, inside, closing, reopening, leaving, is_ticket, own_step, System, step,
  Reach, start, later,
}
use multi_mlton.CriticalSection.Tally.{tally_none}
use multi_mlton.CriticalSection.Stage.{
  Stage, gather, full, serve, shut, reset, IsGathering, behind, arrived, is_waiting, moved, step_to,
  still, stays_waiting, stays_leaving, gather-step, init-Stage,
}

-- A processor that is leaving, or not at its turn, waits while the ticket stands at t.
held_back :
    (n i t : ℕ) (s : System)
    → s.barrier.critical_ticket ≡ some t
    → (s.phases i ≡ leaving) ⊎ ((s.phases i ≡ waiting) × (t ≢ i))
    → Stage n s
    → Stage n (step n i s)
held_back n i t s tick (inl e) st =
    subst (Stage n) (sym (step_to n i s e (stays_leaving n i s.barrier tick))) (still s i n e st)
held_back n i t s tick (inr (e, ne)) st =
    subst (Stage n) (sym (step_to n i s e (stays_waiting n i s.barrier (shut_out s.barrier tick))))
      (still s i n e st)
  where
    shut_out : (b : Barrier) → b.critical_ticket ≡ some t → is_ticket b.critical_ticket i ≡ false
    shut_out b q = ap (λ (u : Option ℕ). is_ticket u i) q ∙ ground arith

full-step :
    (n i o : ℕ) (s : System)
    → i < n
    → o < n
    → s.barrier.critical_ticket ≡ none
    → s.barrier.critical_count ≡ n
    → s.phases o ≡ opening
    → ((j : ℕ) → j < n → j ≢ o → s.phases j ≡ waiting)
    → Stage n (step n i s)
unfolding own_step
full-step n i o s lt lo free count e others = elim (Bool-cases (i == o)) [
  | inl same ↦
      (let at : i ≡ o = ground (arith, same) in
        let opened = record (s.barrier) { critical_ticket = some 0 } in
        let all : (j : ℕ) → j < n → (moved s i waiting opened).phases j ≡ waiting =
          λ j jn. ground (arith, others j jn) in
        subst (Stage n) (sym (step_to n i s (ap s.phases at ∙ e) refl)) (
          serve 0 (omega arith) refl count (inl (all 0 (omega arith)))
            (λ j low. absurd (omega arith)) (λ j high jn. all j jn)))
  | inr other ↦
      (let ne : i ≢ o = ground (arith, other) in
        let mine : s.phases i ≡ waiting = others i lt ne in
        subst (Stage n)
          (sym (
            step_to n i s mine
              (stays_waiting n i s.barrier (ap (λ (u : Option ℕ). is_ticket u i) free))))
          (still s i n mine (full o lo free count e others)))
]

-- The step of the processor that the ticket names: into its critical section, or out of it.
serve_own :
    (n t : ℕ) (s : System)
    → t < n
    → s.barrier.critical_ticket ≡ some t
    → s.barrier.critical_count ≡ n
    → (s.phases t ≡ waiting) ⊎ (s.phases t ≡ inside)
    → ((j : ℕ) → j < t → s.phases j ≡ leaving)
    → ((j : ℕ) → t < j → j < n → s.phases j ≡ waiting)
    → Stage n (step n t s)
unfolding own_step
serve_own n t s lt tick count (inl e) before after = subst (Stage n) (sym (step_to n t s e turn)) (
    serve t lt tick count (inr (ground arith)) (λ j low. ground (arith, before j low))
      (λ j high jn. ground (arith, after j high jn)))
  where
    turn : own_step n t waiting s.barrier ≡ (inside, s.barrier)
    turn = ground arith
serve_own n t s lt tick count (inr e) before after = elim (Bool-cases (suc t == n)) [
  | inl last ↦
      (let whole : suc t ≡ n = ground (arith, last) in
        subst (Stage n) (sym (step_to n t s e (finish last))) (
          shut t whole (ap some whole) count (ground arith)
            (λ j low. ground (arith, before j low))))
  | inr more ↦
      (let room : suc t < n = ground (arith, more) in
        subst (Stage n) (sym (step_to n t s e (go_on more))) (
          serve (suc t) room refl count (inl (ground (arith, after (suc t))))
            (λ j low. ground (arith, before j)) (λ j high jn. ground (arith, after j))))
]
  where
    advanced : Barrier
    advanced = record (s.barrier) { critical_ticket = some (suc t) }

    finish : (suc t == n) ≡ true → own_step n t inside s.barrier ≡ (closing, advanced)
    finish last = ground arith

    go_on : (suc t == n) ≡ false → own_step n t inside s.barrier ≡ (leaving, advanced)
    go_on more = ground arith

serve-step :
    (n i t : ℕ) (s : System)
    → i < n
    → t < n
    → s.barrier.critical_ticket ≡ some t
    → s.barrier.critical_count ≡ n
    → (s.phases t ≡ waiting) ⊎ (s.phases t ≡ inside)
    → ((j : ℕ) → j < t → s.phases j ≡ leaving)
    → ((j : ℕ) → t < j → j < n → s.phases j ≡ waiting)
    → Stage n (step n i s)
serve-step n i t s li lt tick count turn before after = elim (dec_lt i t) [
  | yes low ↦ held_back n i t s tick (inl (before i low)) st
  | no high ↦ elim (dec_lt t i) [
    | yes above ↦ held_back n i t s tick (inr (after i above li, λ e. omega arith)) st
    | no below ↦
        (let same : t ≡ i = omega arith in
          subst (λ (k : ℕ). Stage n (step n k s)) same
            (serve_own n t s lt tick count turn before after))
  ]
]
  where
    st : Stage n s
    st = serve t lt tick count turn before after

shut-step :
    (n i l : ℕ) (s : System)
    → i < n
    → suc l ≡ n
    → s.barrier.critical_ticket ≡ some n
    → s.barrier.critical_count ≡ n
    → s.phases l ≡ closing
    → ((j : ℕ) → j < l → s.phases j ≡ leaving)
    → Stage n (step n i s)
unfolding own_step
shut-step n i l s li last tick count e before = elim (dec_lt i l) [
  | yes low ↦ held_back n i n s tick (inl (before i low)) (shut l last tick count e before)
  | no high ↦
      (let same : l ≡ i = omega arith in
        subst (λ (k : ℕ). Stage n (step n k s)) same
          (subst (Stage n) (sym (step_to n l s e refl))
            (reset l last tick refl (ground arith) (λ j low. ground (arith, before j)))))
]

reset-step :
    (n i l : ℕ) (s : System)
    → i < n
    → suc l ≡ n
    → s.barrier.critical_ticket ≡ some n
    → s.barrier.critical_count ≡ 0
    → s.phases l ≡ reopening
    → ((j : ℕ) → j < l → s.phases j ≡ leaving)
    → Stage n (step n i s)
unfolding own_step
reset-step n i l s li last tick count e before = elim (dec_lt i l) [
  | yes low ↦ held_back n i n s tick (inl (before i low)) (reset l last tick count e before)
  | no high ↦
      (let same : l ≡ i = omega arith in
        subst (λ (k : ℕ). Stage n (step n k s)) same
          (subst (Stage n) (sym (step_to n l s e refl)) (
            gather refl
              (count ∙ sym (tally_none (arrived after) n (λ j jn. ap is_waiting (all j jn))))
              (omega arith) (λ j jn. subst IsGathering (sym (all j jn)) behind))))
]
  where
    after : System
    after = moved s l leaving (record (s.barrier) { critical_ticket = none })

    all : (j : ℕ) → j < n → after.phases j ≡ leaving
    all j jn = ground (arith, before j)

-- Each step of each processor leads from a stage of the round to a stage.
pub step-Stage : (n i : ℕ) {s : System} → i < n → Stage n s → Stage n (step n i s)
step-Stage n i {s} lt (gather free count few all) = gather-step n i s lt free count few all
step-Stage n i {s} lt (full o lo free count e others) = full-step n i o s lt lo free count e others
step-Stage n i {s} lt (serve t l tick count turn before after) =
    serve-step n i t s lt l tick count turn before after
step-Stage n i {s} lt (shut l last tick count e before) =
    shut-step n i l s lt last tick count e before
step-Stage n i {s} lt (reset l last tick count e before) =
    reset-step n i l s lt last tick count e before

-- In every reachable state of one or more processors the shared variables and the phases are those
-- of a stage of the round: the processors gather, the last one opens, each is served in the order
-- of its number, and the last one resets the ticket and the count.
pub Reach-Stage : (n : ℕ) {s : System} → 0 < n → Reach n s → Stage n s
Reach-Stage n pos start = init-Stage n pos
Reach-Stage n pos (later r i lt) = step-Stage n i lt (Reach-Stage n pos r)
