-- ===== src/CriticalSection/Progress.antt =====
-- No processor that waits at the barrier is locked out: some run of the others and of itself leads
-- it into its critical section.
use multi_mlton.Prelude.{
  ℕ, zero, suc, ◌+◌, ◌-◌, ◌≤◌, ◌<◌, ◌≡◌, ◌≢◌, ◌⊎◌, inl, inr, refl, sym, ap, subst, true, false,
  some, List, [], ◌∷◌, arith, dec_lt, ◌==◌, if◌then◌else◌,
}
use multi_mlton.CriticalSection.{
  Barrier, Phase, outside, opening, waiting, inside, leaving, own_step, System, step, Reach,
}
use multi_mlton.CriticalSection.Tally.{tally_missing}
use multi_mlton.CriticalSection.Stage.{
  Stage, gather, full, serve, shut, reset, IsGathering, out, in_line, behind, arrived, is_waiting,
  moved, step_to, goes_out,
}
use multi_mlton.CriticalSection.Round.{Reach-Stage, step-Stage}
use multi_mlton.CriticalSection.Safety.{last_or_before}

-- The steps of the processors of a list, one after another.
abbrev pub run : ℕ → List ℕ → System → System
run n [] s = s
run n (i ∷ is) s = run n is (step n i s)

abbrev pub AllBelow : ℕ → List ℕ → Type 0
AllBelow n [] = Unit {0}
AllBelow n (i ∷ is) = (i < n) × AllBelow n is

-- Some steps lead processor k into its critical section.
abbrev pub CanEnter : ℕ → ℕ → System → Type 0
CanEnter n k s = (is : List ℕ) × AllBelow n is × ((run n is s).phases k ≡ inside)

one_more : (n k i : ℕ) (s : System) → i < n → CanEnter n k (step n i s) → CanEnter n k s
one_more n k i s lt (is, below, e) = (i ∷ is, (lt, below), e)

-- The ticket is at t, and nobody from t on has been served.
record Turn (n t : ℕ) (s : System) : Type 0 where
  ticket : s.barrier.critical_ticket ≡ some t
  rest : (j : ℕ) → t ≤ j → j < n → s.phases j ≡ waiting

own_enter :
    (n t : ℕ) (b : Barrier) → b.critical_ticket ≡ some t → own_step n t waiting b ≡ (inside, b)
unfolding own_step
own_enter n t b e = ground arith

own_finish :
    (n t : ℕ) (b : Barrier)
    → b.critical_ticket ≡ some t
    → suc t < n
    → own_step n t inside b ≡ (leaving, record b { critical_ticket = some (suc t) })
unfolding own_step
own_finish n t b e lt = ground arith

-- Processor t comes out, and the next one has its turn.
pass_on :
    (n t : ℕ) (s : System)
    → suc t < n
    → s.barrier.critical_ticket ≡ some t
    → s.phases t ≡ inside
    → ((j : ℕ) → t < j → j < n → s.phases j ≡ waiting)
    → Turn n (suc t) (step n t s)
pass_on n t s lt tick e after =
    subst (Turn n (suc t)) (sym (step_to n t s e (own_finish n t s.barrier tick lt)))
      (record { ticket = refl; rest = λ j low jn. ground (arith, after j) })

-- The turns pass from t to t + d.
turns : (d n t : ℕ) (s : System) → t + d < n → Turn n t s → CanEnter n (t + d) s
turns zero n t s lt turn =
    let same : t + 0 ≡ t = omega arith in
    subst (λ (k : ℕ). CanEnter n k s) (sym same)
      (
        t ∷ [],
        (omega arith, tt),
        subst (λ (u : System). u.phases t ≡ inside) (sym enters) (ground arith),
      )
  where
    enters : step n t s ≡ moved s t inside s.barrier
    enters =
        step_to n t s (turn.rest t (omega arith) (omega arith))
          (own_enter n t s.barrier turn.ticket)
turns (suc d) n t s lt turn =
    let same : suc t + d ≡ t + suc d = omega arith in
    subst (λ (k : ℕ). CanEnter n k s) same
      (one_more n (suc t + d) t s (omega arith) (
        one_more n (suc t + d) t (step n t s) (omega arith)
          (turns d n (suc t) (step n t (step n t s)) (omega arith) next)))
  where
    enters : step n t s ≡ moved s t inside s.barrier
    enters =
        step_to n t s (turn.rest t (omega arith) (omega arith))
          (own_enter n t s.barrier turn.ticket)

    next : Turn n (suc t) (step n t (step n t s))
    next =
        subst (λ (u : System). Turn n (suc t) (step n t u)) (sym enters)
          (pass_on n t (moved s t inside s.barrier) (omega arith) turn.ticket (ground arith)
            (λ j low jn. ground (arith, turn.rest j)))

turns_to : (n t k : ℕ) (s : System) → t ≤ k → k < n → Turn n t s → CanEnter n k s
turns_to n t k s le lt turn =
    let same : t + (k - t) ≡ k = omega arith in
    subst (λ (j : ℕ). CanEnter n j s) same (turns (k - t) n t s (omega arith) turn)

from_serve :
    (n k t : ℕ) (s : System)
    → k < n
    → s.phases k ≡ waiting
    → t < n
    → s.barrier.critical_ticket ≡ some t
    → (s.phases t ≡ waiting) ⊎ (s.phases t ≡ inside)
    → ((j : ℕ) → j < t → s.phases j ≡ leaving)
    → ((j : ℕ) → t < j → j < n → s.phases j ≡ waiting)
    → CanEnter n k s
from_serve n k t s lt w l tick (inl e) before after = elim (dec_lt k t) [
  | yes low ↦ (let out = before k low in cc)
  | no high ↦
      turns_to n t k s (omega arith) lt (record { ticket = tick; rest = λ j le jn. from j le jn })
]
  where
    from : (j : ℕ) → t ≤ j → j < n → s.phases j ≡ waiting
    from j le jn = elim (dec_lt t j) [
      | yes above ↦ after j above jn
      | no same ↦ (let at : t ≡ j = omega arith in subst (λ (i : ℕ). s.phases i ≡ waiting) at e)
    ]
from_serve n k t s lt w l tick (inr e) before after = elim (dec_lt t k) [
  | yes above ↦ one_more n k t s l (
      turns_to n (suc t) k (step n t s) (omega arith) lt (pass_on n t s (omega arith) tick e after))
  | no low ↦ elim (dec_lt k t) [
    | yes below ↦ (let out = before k below in cc)
    | no same ↦
        (let at : t ≡ k = omega arith in
          let twice : s.phases k ≡ inside = subst (λ (i : ℕ). s.phases i ≡ inside) at e in cc)
  ]
]

own_open :
    (n o : ℕ) (b : Barrier)
    → own_step n o opening b ≡ (waiting, record b { critical_ticket = some 0 })
unfolding own_step
own_open n o b = refl

from_full :
    (n k o : ℕ) (s : System)
    → k < n
    → o < n
    → s.phases o ≡ opening
    → ((j : ℕ) → j < n → j ≢ o → s.phases j ≡ waiting)
    → CanEnter n k s
from_full n k o s lt l e others =
    one_more n k o s l (turns_to n 0 k (step n o s) (omega arith) lt fresh)
  where
    fresh : Turn n 0 (step n o s)
    fresh =
        subst (Turn n 0) (sym (step_to n o s e (own_open n o s.barrier)))
          (record { ticket = refl; rest = λ j le jn. ground (arith, others j) })

own_arrive :
    (n j : ℕ) (b : Barrier)
    → (q : Phase) × (own_step n j outside b
        ≡ (q, record b { critical_count = suc b.critical_count }))
unfolding own_step
own_arrive n j b = (if suc b.critical_count == n then opening else waiting, refl)

-- A processor outside arrives, k goes on waiting, and `enter` goes on from there.
arrive_then :
    (fuel n k j : ℕ) (s : System)
    → ((u : System)
        → Stage n u
        → u.phases k ≡ waiting
        → n ≤ u.barrier.critical_count + fuel
        → CanEnter n k u)
    → j < n
    → Stage n s
    → s.phases k ≡ waiting
    → s.phases j ≡ outside
    → n ≤ s.barrier.critical_count + suc fuel
    → CanEnter n k s
arrive_then fuel n k j s enter jn st w e bound = one_more n k j s jn (
    enter (step n j s) (step-Stage n j jn st)
      (subst (λ (u : System). u.phases k ≡ waiting) (sym lands) (ground arith))
      (subst (λ (u : System). n ≤ u.barrier.critical_count + fuel) (sym lands) (omega arith)))
  where
    lands :
        step n j s
        ≡ moved s j
            (own_arrive n j s.barrier).0
            (record (s.barrier) { critical_count = suc s.barrier.critical_count })
    lands = step_to n j s e (own_arrive n j s.barrier).1

enter :
    (fuel n k : ℕ)
    → k < n
    → (s : System) → Stage n s
    → s.phases k ≡ waiting
    → n ≤ s.barrier.critical_count + fuel
    → CanEnter n k s
enter fuel n k lt s (full o l free count e others) w bound = from_full n k o s lt l e others
enter fuel n k lt s (serve t l tick count turn before after) w bound =
    from_serve n k t s lt w l tick turn before after
enter fuel n k lt s (shut l last tick count e before) w bound = absurd (
    last_or_before (λ j. s.phases j ≢ waiting) n l k last lt (λ q. cc)
      (λ j low q. (let out = before j low in cc)) w)
enter fuel n k lt s (reset l last tick count e before) w bound = absurd (
    last_or_before (λ j. s.phases j ≢ waiting) n l k last lt (λ q. cc)
      (λ j low q. (let out = before j low in cc)) w)
enter zero n k lt s (gather free count few all) w bound = absurd (omega arith)
enter (suc fuel) n k lt s (gather free count few all) w bound =
    let (j, jn, missing) = tally_missing (arrived s) n (omega (arith, count)) in
    by_phase (enter fuel n k lt) j jn missing (all j jn) refl
  where
    by_phase :
        ((u : System)
          → Stage n u
          → u.phases k ≡ waiting
          → n ≤ u.barrier.critical_count + fuel
          → CanEnter n k u)
        → (j : ℕ) → j < n
        → arrived s j ≡ false
        → {p : Phase} → IsGathering p
        → s.phases j ≡ p
        → CanEnter n k s
    by_phase rec j jn missing out e =
        arrive_then fuel n k j s rec jn (gather free count few all) w e bound
    by_phase rec j jn missing in_line e = (let here : arrived s j ≡ true = ap is_waiting e in cc)
    by_phase rec j jn missing behind e = one_more n k j s jn (
        arrive_then fuel n k j (step n j s) rec jn (step-Stage n j jn (gather free count few all))
          (subst (λ (u : System). u.phases k ≡ waiting) (sym lands) (ground arith))
          (subst (λ (u : System). u.phases j ≡ outside) (sym lands) (ground arith))
          (subst (λ (u : System). n ≤ u.barrier.critical_count + suc fuel) (sym lands) bound))
      where
        lands : step n j s ≡ moved s j outside s.barrier
        lands = step_to n j s e (goes_out n j s.barrier free)

-- From every reachable state of n processors in which processor k waits at the barrier, some
-- sequence of steps of the processors leads k into its critical section.
pub waiting_can_enter :
    (n k : ℕ) {s : System} → Reach n s → k < n → s.phases k ≡ waiting → CanEnter n k s
waiting_can_enter n k {s} r lt w = enter n n k lt s (Reach-Stage n (omega arith) r) w (omega arith)
