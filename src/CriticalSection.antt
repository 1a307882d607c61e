-- ===== src/CriticalSection.antt =====
-- runtime/gc/processor.c: Proc_beginCriticalSection and Proc_endCriticalSection, the barrier that
-- stops all processors and lets each of them into its critical section in turn. The functions are
-- cut at each access to the two shared variables, Proc_criticalCount and Proc_criticalTicket, whose
-- value -1 is `none`. Timing, the synchronization counter and the waking of processors asleep are
-- left out: they do not touch the shared variables. n is `s->numberOfProcs`.
pub mod Tally
pub mod Stage
pub mod Round
pub mod Safety
pub mod Progress
mod Tests
use multi_mlton.Prelude.{
  ℕ, suc, ◌<◌, ◌+◌, ◌≡◌, Bool, true, false, Option, none, some, ◌==◌, ltb, if◌then◌else◌,
}

pub record Barrier : Type 0 where
  pub critical_count : ℕ
  pub critical_ticket : Option ℕ

-- Where a processor stands: running the mutator; the last to arrive, before it sets the ticket to 0;
-- in the loop that waits for its number; in the critical section; the last to finish, before it
-- resets the count, and before it resets the ticket; in the loop that waits for the reset.
pub data Phase : Type 0 where
  outside : Phase
  opening : Phase
  waiting : Phase
  inside : Phase
  closing : Phase
  reopening : Phase
  leaving : Phase

abbrev pub is_ticket : Option ℕ → ℕ → Bool
is_ticket none self = false
is_ticket (some t) self = t == self

-- `__sync_add_and_fetch (&Proc_criticalTicket, 1)`, from -1 to 0 too.
abbrev pub next_ticket : Option ℕ → ℕ
next_ticket none = 0
next_ticket (some t) = suc t

-- One access of Proc_beginCriticalSection by processor `self`.
unfoldable pub begin_step : ℕ → ℕ → Phase → Barrier → Phase × Barrier
begin_step n self outside b =
    let p = suc b.critical_count in
    (if p == n then opening else waiting, record b { critical_count = p })
begin_step n self opening b = (waiting, record b { critical_ticket = some 0 })
begin_step n self waiting b = (if is_ticket b.critical_ticket self then inside else waiting, b)
begin_step n self p b = (p, b)

-- One access of Proc_endCriticalSection.
unfoldable pub end_step : ℕ → Phase → Barrier → Phase × Barrier
end_step n inside b =
    let p = next_ticket b.critical_ticket in
    (if p == n then closing else leaving, record b { critical_ticket = some p })
end_step n closing b = (reopening, record b { critical_count = 0 })
end_step n reopening b = (leaving, record b { critical_ticket = none })
end_step n leaving b = elim (b.critical_ticket) [ none ↦ (outside, b) | some t ↦ (leaving, b) ]
end_step n p b = (p, b)

-- Proc_threadInSection and Proc_executingInSection
unfoldable pub thread_in_section : Barrier → Bool
thread_in_section b = ltb 0 b.critical_count

unfoldable pub executing_in_section : Barrier → Bool
executing_in_section b = elim (b.critical_ticket) [ none ↦ false | some t ↦ true ]

-- The branches that both functions take before all processors are initialized.
unfoldable pub begin_uninitialized : Barrier → Barrier
begin_uninitialized b = record b { critical_count = 1 }

unfoldable pub end_uninitialized : Barrier → Barrier
end_uninitialized b = record b { critical_count = 0 }

pub record System : Type 0 where
  pub barrier : Barrier
  pub phases : ℕ → Phase

-- A processor goes on with the function that it is in; outside both it calls the first.
unfoldable pub own_step : ℕ → ℕ → Phase → Barrier → Phase × Barrier
unfolding begin_step end_step
own_step n self outside b = begin_step n self outside b
own_step n self opening b = begin_step n self opening b
own_step n self waiting b = begin_step n self waiting b
own_step n self inside b = end_step n inside b
own_step n self closing b = end_step n closing b
own_step n self reopening b = end_step n reopening b
own_step n self leaving b = end_step n leaving b

unfoldable pub step : ℕ → ℕ → System → System
unfolding own_step
step n i s =
    let r = own_step n i (s.phases i) s.barrier in
    record { barrier = r.1; phases = λ j. if i == j then r.0 else s.phases j }

-- As Proc_signalInitialization leaves the shared variables.
abbrev pub init : System
init = record {
  barrier = record { critical_count = 0; critical_ticket = none };
  phases = λ _. outside;
}

-- The states of n processors, each making its steps at any time.
pub data Reach (n : ℕ) : System → Type 0 where
  start : Reach n init
  later : {s : System} → Reach n s → (i : ℕ) → i < n → Reach n (step n i s)
