-- ===== src/Sleep/Wakeups.antt =====
-- No wake-up is lost: what a processor that sleeps has not been told of is still to come.
use multi_mlton.Prelude.{
  ℕ, suc, ◌≤◌, ◌<◌, ◌≡◌, ◌≢◌, refl, sym, ap, ◌∙◌, Bool, true, false, ◌||◌, none, some, ◌==◌,
  if◌then◌else◌, Bool-cases, arith, inl, inr,
}
use multi_mlton.Sleep.{
  SleepPhase, awake, asleep, signalled, Waiter, wait, resume, signal, wake_up_thread, System,
  with_waiter, Step, sleeps, resumes, wakes, arrives, wakes_next, leaves, Reach, start, later,
}

-- The waking loop has yet to come to processor p.
abbrev pub ToBeWoken : ℕ → System → Type 0
ToBeWoken p s = (i : ℕ) × (s.next_wake ≡ some i) × (i ≤ p)

-- What holds of a processor that sleeps.
pub record IsInformed (p : ℕ) (s : System) : Type 0 where
  pub no_data : (s.waiters p).data_in_mutator_q ≡ false
  pub section : s.in_section ≡ true → ToBeWoken p s

abbrev pub Informed : ℕ → System → Type 0
Informed p s = (s.waiters p).phase ≡ asleep → IsInformed p s

here_waiter :
    (s : System) (i p : ℕ) (w : Waiter) → (p == i) ≡ true → (with_waiter s i w).waiters p ≡ w
here_waiter s i p w e = rw e refl

there_waiter :
    (s : System) (i p : ℕ) (w : Waiter)
    → (p == i) ≡ false
    → (with_waiter s i w).waiters p ≡ s.waiters p
there_waiter s i p w e = rw e refl

-- A step of processor i that leaves the shared variables.
Informed-other :
    (s : System) (i p : ℕ) (w : Waiter)
    → Informed p s
    → (w.phase ≡ asleep → (w.data_in_mutator_q ≡ false) × (s.in_section ≡ true → ToBeWoken p s))
    → Informed p (with_waiter s i w)
Informed-other s i p w before own asleep_now = elim (Bool-cases (p == i)) [
  | inl here ↦
      (let at = here_waiter s i p w here in
        let (free, told) = own (sym (ap (λ (x : Waiter). x.phase) at) ∙ asleep_now) in
        record { no_data = ap (λ (x : Waiter). x.data_in_mutator_q) at ∙ free; section = told })
  | inr there ↦
      (let at = there_waiter s i p w there in
        let old = before (sym (ap (λ (x : Waiter). x.phase) at) ∙ asleep_now) in
        record {
          no_data = ap (λ (x : Waiter). x.data_in_mutator_q) at ∙ old.no_data;
          section = old.section;
        })
]

awake_not_asleep : awake ≢ asleep
awake_not_asleep e = cc

neither : (a b : Bool) → (a || b) ≡ false → (a ≡ false) × (b ≡ false)
neither true b e = absurd (cc)
neither false b e = (refl, e)

wait_asleep :
    (in_section : Bool) (w : Waiter)
    → w.phase ≡ awake
    → (wait in_section w).phase ≡ asleep
    → (in_section ≡ false) × ((wait in_section w).data_in_mutator_q ≡ false)
unfolding wait
wait_asleep in_section w e asleep_now = elim (Bool-cases (in_section || w.data_in_mutator_q)) [
  | inl stays ↦
      (let same : (wait in_section w).phase ≡ w.phase = rw (wait, stays) refl in
        absurd (awake_not_asleep (sym e ∙ sym same ∙ asleep_now)))
  | inr goes ↦
      (let (out, free) = neither in_section w.data_in_mutator_q goes in (out, rw (wait, goes) free))
]

signal_not_asleep : (p : SleepPhase) → signal p ≢ asleep
signal_not_asleep awake e = cc
signal_not_asleep asleep e = cc
signal_not_asleep signalled e = cc

abbrev woken_next : ℕ → ℕ → System → System
woken_next n i s = record s { next_wake = if suc i == n then none else some (suc i) }

still_to_come :
    (n i p : ℕ) (s : System)
    → p < n
    → s.next_wake ≡ some i
    → (p == i) ≡ false
    → ToBeWoken p s
    → (j : ℕ) × ((if suc i == n then none else some (suc i)) ≡ some j) × (j ≤ p)
still_to_come n i p s lt e there (j, e', le) =
    let same : i ≡ j = some_inj (sym e ∙ e') in
    let past : suc i ≤ p = ground (arith, same, le) in
    let more : (suc i == n) ≡ false = ground arith in (suc i, rw more refl, past)
  where
    some_inj : {a b : ℕ} → some a ≡ some b → a ≡ b
    some_inj q = cc

Step-Informed : (n p : ℕ) {s t : System} → p < n → Step n s t → Informed p s → Informed p t
unfolding resume wake_up_thread
Step-Informed n p {s} lt (sleeps i e) before = Informed-other s i p _ before (λ a.
    (let (out, free) = wait_asleep s.in_section (s.waiters i) e a in (free, λ x. absurd (cc))))
Step-Informed n p {s} lt (resumes i up) before = Informed-other s i p _ before (λ a. absurd (cc))
Step-Informed n p {s} lt (wakes i d) before =
    Informed-other s i p _ before (λ a. absurd (signal_not_asleep (s.waiters i).phase a))
Step-Informed n p {s} lt (arrives out) before =
    λ a. record { no_data = (before a).no_data; section = λ x. (0, refl, omega arith) }
Step-Informed n p {s} lt (wakes_next i e) before = elim (Bool-cases (p == i)) [
  | inl here ↦ λ a. absurd (
      signal_not_asleep (s.waiters i).phase (
        sym (
          ap (λ (x : Waiter). x.phase)
            (here_waiter (woken_next n i s) i p (wake_up_thread 0 (s.waiters i)) here))
        ∙ a))
  | inr there ↦ λ a.
      (let at = there_waiter (woken_next n i s) i p (wake_up_thread 0 (s.waiters i)) there in
        let old = before (sym (ap (λ (x : Waiter). x.phase) at) ∙ a) in
        record {
          no_data = ap (λ (x : Waiter). x.data_in_mutator_q) at ∙ old.no_data;
          section = λ x. still_to_come n i p s lt e there (old.section x);
        })
]
Step-Informed n p {s} lt (leaves idle) before =
    λ a. record { no_data = (before a).no_data; section = λ (x : false ≡ true). absurd (cc) }

-- In every reachable state of n processors that sleep in Parallel_wait, are woken by
-- Parallel_wakeUpThread or return without a signal, a processor below n that sleeps has no data
-- waiting in dataInMutatorQ, and while a critical section is under way the loop of the first
-- processor to arrive has yet to come to it.
pub no_lost_wake_up :
    (n p : ℕ) {s : System} → Reach n s → p < n → (s.waiters p).phase ≡ asleep → IsInformed p s
no_lost_wake_up n p start lt e = absurd (cc)
no_lost_wake_up n p (later r step) lt e = Step-Informed n p lt step (no_lost_wake_up n p r lt) e
