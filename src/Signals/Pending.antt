-- ===== src/Signals/Pending.antt =====
-- Signals that are delivered on any thread, between any two accesses of the mutator: a pending signal
-- stops the mutator at its next limit check outside atomic sections.
use multi_mlton.Prelude.{
  ℕ, ◌+◌, ◌-◌, ◌^◌, ◌<◌, ◌≡◌, ◌≢◌, ◌⊎◌, inl, inr, refl, Bool, true, false, ◌&&◌, ◌==◌,
  if◌then◌else◌, arith,
}
use multi_mlton.Align.{sub_size}
use multi_mlton.Signals.{
  SignalState, heap_limit_slop, count_up, count_down, restore_limit, stop_if_pending, mark_pending,
  stop, start_signal_handler, finish_signal_handler,
  switch_to_signal_handler_thread_if_non_atomic_and_signal_pending, send_gc_signal,
}

-- Where the thread of the processor is: outside beginAtomic and endAtomic, or in one of them, behind
-- the change of the counter.
pub data Phase : Type 0 where
  outside : Phase
  beginning : Phase
  ending : Phase

-- The state of a processor, where its thread is, and how many runs of GC_handler, on any threads,
-- have marked its signal and not yet tested the counter, or are about to clear the limit.
pub record Race : Type 0 where
  pub state : SignalState
  pub phase : Phase
  pub marked : ℕ
  pub stopping : ℕ

-- The test of the limit and its change in restore_limit are one step, and so are the test of the
-- pending signal and the change of the limit in stop_if_pending: between the two only a handler can
-- write the limit, and it writes 0, which comes to the same as writing it before or behind. A bare
-- `atomicState--` leaves an atomic section that lies in another one, as in GC_switchToThread; what
-- those of threadlet.c leave is not said here.
pub data Step : Race → Race → Type 0 where
  counts_up :
      {r : Race}
      → r.phase ≡ outside
      → r.state.atomic_state + 1 < 2 ^ 32
      → Step r (record r { state = count_up r.state; phase = beginning })
  restores :
      {r : Race}
      → r.phase ≡ beginning
      → Step r (record r { state = restore_limit r.state; phase = outside })
  counts_down :
      {r : Race}
      → r.phase ≡ outside
      → 0 < r.state.atomic_state
      → Step r (record r { state = count_down r.state; phase = ending })
  stops :
      {r : Race}
      → r.phase ≡ ending
      → Step r (record r { state = stop_if_pending r.state; phase = outside })
  drops :
      {r : Race}
      → r.phase ≡ outside
      → 1 < r.state.atomic_state
      → r.state.atomic_state < 2 ^ 32
      → Step r (record r { state = count_down r.state })
  marks :
      {r : Race} (signum : ℕ)
      → Step r (record r { state = mark_pending signum r.state; marked = r.marked + 1 })
  tests :
      {r : Race}
      → 0 < r.marked
      → Step r (record r {
        marked = r.marked - 1;
        stopping = if r.state.atomic_state == 0 then r.stopping + 1 else r.stopping;
      })
  clears :
      {r : Race}
      → 0 < r.stopping
      → Step r (record r { state = stop r.state; stopping = r.stopping - 1 })
  collected :
      {r : Race}
      → r.phase ≡ outside
      → 0 < r.state.atomic_state
      → Step r (record r { state = send_gc_signal r.state })
  switched :
      {r : Race}
      → r.phase ≡ outside
      → Step r (record r {
        state = switch_to_signal_handler_thread_if_non_atomic_and_signal_pending r.state;
      })
  finished :
      {r : Race} → r.phase ≡ outside → Step r (record r { state = finish_signal_handler r.state })
  resized :
      {r : Race} (limit_plus_slop : ℕ)
      → r.phase ≡ outside
      → 0 < r.state.atomic_state
      → Step r (record r {
        state = record (r.state) {
          limit_plus_slop = limit_plus_slop;
          limit = sub_size limit_plus_slop heap_limit_slop;
        };
      })

-- A state in which no signal is pending, and no handler is under way.
pub record Started (r : Race) : Type 0 where
  pub between : r.phase ≡ outside
  pub quiet : r.state.signal_is_pending ≡ false
  pub unmarked : r.marked ≡ 0
  pub unstopped : r.stopping ≡ 0

pub data Reach : Race → Type 0 where
  start : {r : Race} → Started r → Reach r
  next : {r r' : Race} → Reach r → Step r r' → Reach r'

-- Outside atomic sections, a pending signal has cleared the limit, or someone is about to see to it.
pub record Stops (r : Race) : Type 0 where
  pub pending :
      r.state.atomic_state ≡ 0
      → r.state.signal_is_pending ≡ true
      → (r.state.limit ≡ 0) ⊎ ((r.phase ≡ ending) ⊎ (0 < r.marked + r.stopping))
  pub entered : r.phase ≡ beginning → r.state.atomic_state ≢ 0

stop_lem :
    (a limit : ℕ) (pending : Bool)
    → a ≡ 0
    → pending ≡ true
    → (if 0 == a && pending then 0 else limit) ≡ 0
stop_lem a limit pending z p = rw (z, p) refl

Stops-send_gc_signal :
    (r : Race)
    → r.phase ≡ outside
    → 0 < r.state.atomic_state
    → Stops (record r { state = send_gc_signal r.state })
unfolding send_gc_signal
Stops-send_gc_signal r o low = ground arith

Stops-switch :
    (r : Race)
    → r.phase ≡ outside
    → Stops r
    → Stops (record r {
      state = switch_to_signal_handler_thread_if_non_atomic_and_signal_pending r.state;
    })
unfolding switch_to_signal_handler_thread_if_non_atomic_and_signal_pending start_signal_handler
Stops-switch r o i = ground arith

Stops-tests :
    (r : Race)
    → Stops r
    → 0 < r.marked
    → Stops (record r {
      marked = r.marked - 1;
      stopping = if r.state.atomic_state == 0 then r.stopping + 1 else r.stopping;
    })
Stops-tests r i low = record {
  pending = λ z p. inr (inr (rw z (omega arith)));
  entered = i.entered;
}

Stops-Step : {r r' : Race} → Step r r' → Stops r → Stops r'
unfolding count_up count_down restore_limit stop_if_pending mark_pending finish_signal_handler
Stops-Step {r} (counts_up o lt) i = record {
  pending = λ z p. absurd (omega arith);
  entered = λ e z. absurd (omega arith);
}
Stops-Step {r} (restores b) i = record {
  pending = λ z p. absurd (i.entered b z);
  entered = λ e. absurd (cc);
}
Stops-Step {r} (counts_down o low) i = record {
  pending = λ z p. inr (inl refl);
  entered = λ e. absurd (cc);
}
Stops-Step {r} (stops e) i = record {
  pending = λ z p. inl (stop_lem r.state.atomic_state r.state.limit r.state.signal_is_pending z p);
  entered = λ e. absurd (cc);
}
Stops-Step {r} (drops o low lt) i = record {
  pending = λ z p. absurd (omega arith);
  entered = λ e. absurd (cc);
}
Stops-Step {r} (marks signum) i = record {
  pending = λ z p. inr (inr (omega arith));
  entered = i.entered;
}
Stops-Step {r} (tests low) i = Stops-tests r i low
Stops-Step {r} (clears low) i = record { pending = λ z p. inl refl; entered = i.entered }
Stops-Step {r} (collected o low) i = Stops-send_gc_signal r o low
Stops-Step {r} (switched o) i = Stops-switch r o i
Stops-Step {r} (finished o) i = record { pending = i.pending; entered = i.entered }
Stops-Step {r} (resized l o low) i = record {
  pending = λ z p. absurd (omega arith);
  entered = i.entered;
}

Reach-Stops : {r : Race} → Reach r → Stops r
Reach-Stops (start b) = record {
  pending = λ z p. absurd (cc (b.quiet, p));
  entered = λ e. absurd (cc (b.between, e));
}
Reach-Stops (next s t) = Stops-Step t (Reach-Stops s)

-- In every state that a processor reaches from one without a pending signal, by the accesses of
-- beginAtomic and endAtomic, the steps of the collector and of the signal handler's thread, and
-- runs of GC_handler on any threads in between, if a bare decrement of the counter only leaves a
-- section inside another: when no run of GC_handler is under way and the processor is outside
-- beginAtomic, endAtomic and atomic sections, a pending signal has set the limit to 0.
pub pending_signal_stops :
    (r : Race)
    → Reach r
    → r.phase ≡ outside
    → r.marked ≡ 0
    → r.stopping ≡ 0
    → r.state.atomic_state ≡ 0
    → r.state.signal_is_pending ≡ true
    → r.state.limit ≡ 0
pending_signal_stops r reach o m s z p = elim ((Reach-Stops reach).pending z p) [
  | inl stopped ↦ stopped
  | inr (inl e) ↦ absurd (cc)
  | inr (inr low) ↦ absurd (omega arith)
]
