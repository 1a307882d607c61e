-- ===== src/CriticalSection/Stage.antt =====
-- The stages of a round: which phases the processors can be in while the shared variables stand so.
use multi_mlton.Prelude.{
  ℕ, suc, ◌<◌, ◌≡◌, ◌≢◌, ◌⊎◌, inl, inr, refl, sym, ap, ◌∙◌, subst, Bool, true, false, Option, none,
  some, ◌==◌, if◌then◌else◌, arith, Bool-cases,
}
use mathlib.Core.Path.{fun_ext}
use multi_mlton.CriticalSection.{
  Barrier, Phase, outside, opening, waiting, inside, closing, reopening, leaving, is_ticket,
  own_step, System, step, init,
}
use multi_mlton.CriticalSection.Tally.{tally, tally_full, tally_none, tally_same, tally_more}

-- The phases that Proc_criticalCount counts while processors arrive.
abbrev pub is_waiting : Phase → Bool
is_waiting waiting = true
is_waiting p = false

abbrev pub arrived : System → ℕ → Bool
arrived s j = is_waiting (s.phases j)

-- The phases of a processor while others are still to arrive.
pub data IsGathering : Phase → Type 0 where
  out : IsGathering outside
  in_line : IsGathering waiting
  behind : IsGathering leaving

pub data Stage (n : ℕ) (s : System) : Type 0 where
  gather :
      s.barrier.critical_ticket ≡ none
      → s.barrier.critical_count ≡ tally (arrived s) n
      → s.barrier.critical_count < n
      → ((j : ℕ) → j < n → IsGathering (s.phases j))
      → Stage n s
  full :
      (i : ℕ)
      → i < n
      → s.barrier.critical_ticket ≡ none
      → s.barrier.critical_count ≡ n
      → s.phases i ≡ opening
      → ((j : ℕ) → j < n → j ≢ i → s.phases j ≡ waiting)
      → Stage n s
  serve :
      (t : ℕ)
      → t < n
      → s.barrier.critical_ticket ≡ some t
      → s.barrier.critical_count ≡ n
      → (s.phases t ≡ waiting) ⊎ (s.phases t ≡ inside)
      → ((j : ℕ) → j < t → s.phases j ≡ leaving)
      → ((j : ℕ) → t < j → j < n → s.phases j ≡ waiting)
      → Stage n s
  shut :
      (l : ℕ)
      → suc l ≡ n
      → s.barrier.critical_ticket ≡ some n
      → s.barrier.critical_count ≡ n
      → s.phases l ≡ closing
      → ((j : ℕ) → j < l → s.phases j ≡ leaving)
      → Stage n s
  reset :
      (l : ℕ)
      → suc l ≡ n
      → s.barrier.critical_ticket ≡ some n
      → s.barrier.critical_count ≡ 0
      → s.phases l ≡ reopening
      → ((j : ℕ) → j < l → s.phases j ≡ leaving)
      → Stage n s

pub init-Stage : (n : ℕ) → 0 < n → Stage n init
init-Stage n pos = gather refl (sym (tally_none (arrived init) n (λ j lt. refl))) pos (λ j lt. out)

abbrev pub moved : System → ℕ → Phase → Barrier → System
moved s i p b = record { barrier = b; phases = λ j. if i == j then p else s.phases j }

step_at :
    (n i : ℕ) (s : System) {p : Phase}
    → s.phases i ≡ p
    → step n i s ≡ moved s i (own_step n i p s.barrier).0 (own_step n i p s.barrier).1
unfolding step
step_at n i s {p} e =
    ap (λ (q : Phase). moved s i (own_step n i q s.barrier).0 (own_step n i q s.barrier).1) e

pub here_moved : (s : System) (i : ℕ) (p : Phase) (b : Barrier) → (moved s i p b).phases i ≡ p
here_moved s i p b = ground arith

pub there_moved :
    (s : System) (i j : ℕ) (p : Phase) (b : Barrier) → j ≢ i → (moved s i p b).phases j ≡ s.phases j
there_moved s i j p b ne = ground arith

-- A processor that makes no change.
pub still :
    (s : System) (i n : ℕ) {p : Phase}
    → s.phases i ≡ p
    → Stage n s
    → Stage n (moved s i p s.barrier)
still s i n {p} e st = subst (Stage n) same st
  where
    phases_same : (j : ℕ) → s.phases j ≡ (if i == j then p else s.phases j)
    phases_same j = ground arith

    same : s ≡ moved s i p s.barrier
    same = ap (λ (f : ℕ → Phase). record { barrier = s.barrier; phases = f }) (fun_ext phases_same)

-- The state after a step of which the outcome is known.
pub step_to :
    (n i : ℕ) (s : System) {p q : Phase} {b : Barrier}
    → s.phases i ≡ p
    → own_step n i p s.barrier ≡ (q, b)
    → step n i s ≡ moved s i q b
step_to n i s e f = step_at n i s e ∙ ap (λ (r : Phase × Barrier). moved s i r.0 r.1) f

pub stays_waiting :
    (n i : ℕ) (b : Barrier)
    → is_ticket b.critical_ticket i ≡ false
    → own_step n i waiting b ≡ (waiting, b)
unfolding own_step
stays_waiting n i b e = rw e refl

pub goes_out :
    (n i : ℕ) (b : Barrier) → b.critical_ticket ≡ none → own_step n i leaving b ≡ (outside, b)
unfolding own_step
goes_out n i b e = ground arith

pub stays_leaving :
    (n i : ℕ) (b : Barrier) {t : ℕ}
    → b.critical_ticket ≡ some t
    → own_step n i leaving b ≡ (leaving, b)
unfolding own_step
stays_leaving n i b e = ground arith

waiting_of_true : (p : Phase) → is_waiting p ≡ true → p ≡ waiting
waiting_of_true outside e = cc
waiting_of_true opening e = cc
waiting_of_true waiting e = refl
waiting_of_true inside e = cc
waiting_of_true closing e = cc
waiting_of_true reopening e = cc
waiting_of_true leaving e = cc

IsGathering-moved :
    (s : System) (i n : ℕ) (p : Phase) (b : Barrier)
    → IsGathering p
    → ((j : ℕ) → j < n → IsGathering (s.phases j))
    → (j : ℕ) → j < n
    → IsGathering ((moved s i p b).phases j)
IsGathering-moved s i n p b g all j lt = elim (Bool-cases (i == j)) [
  | inl same ↦ rw same g
  | inr other ↦ rw other (all j lt)
]

-- With the last arrival all the others are waiting.
others_waiting :
    (s : System) (n i : ℕ)
    → i < n
    → s.phases i ≡ outside
    → suc (tally (arrived s) n) ≡ n
    → (j : ℕ) → j < n
    → j ≢ i
    → s.phases j ≡ waiting
others_waiting s n i lt e all j jn ne =
    waiting_of_true (s.phases j) (ground (arith, tally_full with_i n j (count ∙ all) jn))
  where
    with_i : ℕ → Bool
    with_i j = if i == j then true else arrived s j

    count : tally with_i n ≡ suc (tally (arrived s) n)
    count =
        tally_more (arrived s) with_i n i lt (ap is_waiting e) (ground arith) (λ j ne. ground arith)

arrive_Stage :
    (n i : ℕ) (s : System)
    → i < n
    → s.phases i ≡ outside
    → s.barrier.critical_ticket ≡ none
    → s.barrier.critical_count ≡ tally (arrived s) n
    → s.barrier.critical_count < n
    → ((j : ℕ) → j < n → IsGathering (s.phases j))
    → Stage n (step n i s)
unfolding own_step
arrive_Stage n i s lt e free count few all = elim (Bool-cases (suc s.barrier.critical_count == n)) [
  | inl last ↦
      rw (step_at n i s e, last)
        (full i lt free (ground (arith, last)) (ground arith) (λ j jn ne.
          ground (arith, others_waiting s n i lt e (ground (arith, last, count)) j jn ne)))
  | inr more ↦
      rw (step_at n i s e, more)
        (gather free (ap suc count ∙ sym with_i) (ground (arith, more, few))
          (IsGathering-moved s i n waiting bumped in_line all))
]
  where
    bumped : Barrier
    bumped = record (s.barrier) { critical_count = suc s.barrier.critical_count }

    with_i : tally (arrived (moved s i waiting bumped)) n ≡ suc (tally (arrived s) n)
    with_i =
        tally_more (arrived s) (arrived (moved s i waiting bumped)) n i lt (ap is_waiting e)
          (ground arith) (λ j ne. ground arith)

pub gather-step :
    (n i : ℕ) (s : System)
    → i < n
    → s.barrier.critical_ticket ≡ none
    → s.barrier.critical_count ≡ tally (arrived s) n
    → s.barrier.critical_count < n
    → ((j : ℕ) → j < n → IsGathering (s.phases j))
    → Stage n (step n i s)
unfolding own_step
gather-step n i s lt free count few all = by_phase (all i lt) refl
  where
    gone :
        (b : Barrier)
        → s.phases i ≡ leaving
        → tally (arrived (moved s i outside b)) n ≡ tally (arrived s) n
    gone b e = tally_same (arrived (moved s i outside b)) (arrived s) n (λ j jn. ground arith)

    by_phase : {p : Phase} → IsGathering p → s.phases i ≡ p → Stage n (step n i s)
    by_phase out e = arrive_Stage n i s lt e free count few all
    by_phase in_line e =
        subst (Stage n)
          (sym (
            step_to n i s e
              (stays_waiting n i s.barrier (ap (λ (t : Option ℕ). is_ticket t i) free))))
          (still s i n e (gather free count few all))
    by_phase behind e = subst (Stage n) (sym (step_to n i s e (goes_out n i s.barrier free))) (
        gather free (count ∙ sym (gone s.barrier e)) few
          (IsGathering-moved s i n outside s.barrier out all))
