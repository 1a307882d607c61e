-- ===== src/Sleep.antt =====
-- runtime/gc/parallel.c: Parallel_wait and Parallel_wakeUpThread, by which processors sleep and are
-- woken, and the loop of Proc_beginCriticalSection that wakes them (runtime/gc/processor.c). Both
-- functions hold the mutex of the processor, which only pthread_cond_wait gives up, so each is one
-- step before it and one after it. Masking of the signal is left out.
pub mod Wakeups
mod Tests
use multi_mlton.Prelude.{
  ℕ, suc, ◌<◌, ◌+◌, ◌≡◌, ◌≢◌, Bool, true, false, ◌||◌, Option, none, some, ◌==◌, if◌then◌else◌,
}

-- In Parallel_wait: outside pthread_cond_wait, in it, or in it after pthread_cond_signal.
pub data SleepPhase : Type 0 where
  awake : SleepPhase
  asleep : SleepPhase
  signalled : SleepPhase

-- A processor, with its entry of dataInMutatorQ.
pub record Waiter : Type 0 where
  pub phase : SleepPhase
  pub data_in_mutator_q : Bool

-- Parallel_wait up to pthread_cond_wait; `in_section` is Proc_threadInSection.
unfoldable pub wait : Bool → Waiter → Waiter
wait in_section w =
    if in_section || w.data_in_mutator_q
    then record w { data_in_mutator_q = false }
    else record w { phase = asleep }

-- Parallel_wait after it: pthread_cond_wait has returned.
unfoldable pub resume : Waiter → Waiter
resume w = record { phase = awake; data_in_mutator_q = false }

abbrev pub signal : SleepPhase → SleepPhase
signal awake = awake
signal asleep = signalled
signal signalled = signalled

-- Parallel_wakeUpThread
unfoldable pub wake_up_thread : ℕ → Waiter → Waiter
wake_up_thread data_in w = record {
  phase = signal w.phase;
  data_in_mutator_q = if data_in == 1 then true else w.data_in_mutator_q;
}

-- `in_section` is Proc_criticalCount > 0; `next_wake` is the variable i of the waking loop, while the
-- first processor to arrive runs it.
pub record System : Type 0 where
  pub in_section : Bool
  pub next_wake : Option ℕ
  pub waiters : ℕ → Waiter

abbrev pub with_waiter : System → ℕ → Waiter → System
with_waiter s i w = record s { waiters = λ j. if j == i then w else s.waiters j }

-- As Parallel_initResources leaves it.
abbrev pub init : System
init = record {
  in_section = false;
  next_wake = none;
  waiters = λ _. record { phase = awake; data_in_mutator_q = true };
}

-- The steps of n processors. pthread_cond_wait may return without a signal.
pub data Step (n : ℕ) : System → System → Type 0 where
  sleeps :
      {s : System} (i : ℕ)
      → (s.waiters i).phase ≡ awake
      → Step n s (with_waiter s i (wait s.in_section (s.waiters i)))
  resumes :
      {s : System} (i : ℕ)
      → (s.waiters i).phase ≢ awake
      → Step n s (with_waiter s i (resume (s.waiters i)))
  wakes :
      {s : System} (i data_in : ℕ)
      → Step n s (with_waiter s i (wake_up_thread data_in (s.waiters i)))
  arrives :
      {s : System}
      → s.in_section ≡ false
      → Step n s (record s { in_section = true; next_wake = some 0 })
  wakes_next :
      {s : System} (i : ℕ)
      → s.next_wake ≡ some i
      → Step n s (
          with_waiter
            (record s { next_wake = if suc i == n then none else some (suc i) })
            i
            (wake_up_thread 0 (s.waiters i)))
  leaves : {s : System} → s.next_wake ≡ none → Step n s (record s { in_section = false })

pub data Reach (n : ℕ) : System → Type 0 where
  start : Reach n init
  later : {s t : System} → Reach n s → Step n s t → Reach n t
