-- ===== src/Signals.antt =====
-- runtime/gc/handler.c and atomic.c: signals, the counter of atomic sections, and the limit that makes
-- the mutator stop, on the states of the processors. Signal sets are lists, and atomic_state is a
-- `uint32_t`. Of the switch to the handler's thread, only the change of the current thread is here.
-- A failed assertion has no counterpart.
pub mod Pending
mod Tests
use multi_mlton.Prelude.{
  ℕ, ◌+◌, ◌-◌, ◌%◌, ◌^◌, Bool, true, false, not, ◌&&◌, ◌==◌, if◌then◌else◌, List, [], ◌∷◌,
}
use multi_mlton.Align.{sub_size}
use multi_mlton.Objptr.{bogus_objptr}

-- The fields of a processor's GC state, with those of `s->signalsInfo`.
pub record SignalState : Type 0 where
  pub atomic_state : ℕ
  pub signal_is_pending : Bool
  pub am_in_signal_handler : Bool
  pub saved_thread : ℕ
  pub current_thread : ℕ
  pub signals_handled : List ℕ
  pub signals_pending : List ℕ
  pub limit : ℕ
  pub limit_plus_slop : ℕ
  pub signal_handler_thread : ℕ
  pub gc_signal_handled : Bool
  pub gc_signal_pending : Bool

abbrev pub heap_limit_slop : ℕ
heap_limit_slop = 512

-- `s->atomicState++` and `s->atomicState--`
unfoldable pub count_up : SignalState → SignalState
count_up s = record s { atomic_state = (s.atomic_state + 1) % 2 ^ 32 }

unfoldable pub count_down : SignalState → SignalState
count_down s = record s { atomic_state = (s.atomic_state + (2 ^ 32 - 1)) % 2 ^ 32 }

-- What beginAtomic and endAtomic do behind that.
unfoldable pub restore_limit : SignalState → SignalState
restore_limit s = record s {
  limit = if 0 == s.limit then sub_size s.limit_plus_slop heap_limit_slop else s.limit;
}

unfoldable pub stop_if_pending : SignalState → SignalState
stop_if_pending s = record s {
  limit = if 0 == s.atomic_state && s.signal_is_pending then 0 else s.limit;
}

unfoldable pub begin_atomic : SignalState → SignalState
unfolding count_up restore_limit
begin_atomic s = restore_limit (count_up s)

unfoldable pub end_atomic : SignalState → SignalState
unfolding count_down stop_if_pending
end_atomic s = stop_if_pending (count_down s)

-- sigismember and sigaddset
unfoldable pub sigismember : List ℕ → ℕ → Bool
sigismember [] signum = false
sigismember (n ∷ set) signum = if n == signum then true else sigismember set signum

unfoldable pub sigaddset : List ℕ → ℕ → List ℕ
unfolding sigismember
sigaddset set signum = if sigismember set signum then set else signum ∷ set

unfoldable pub start_signal_handler : SignalState → SignalState
start_signal_handler s = record s {
  signal_is_pending = false;
  am_in_signal_handler = true;
  saved_thread = s.current_thread;
  atomic_state = 2;
}

unfoldable pub finish_signal_handler : SignalState → SignalState
finish_signal_handler s = record s { am_in_signal_handler = false }

-- The body of the loop of GC_handler, for a processor that is registered for the signal: it marks
-- the signal as pending, and stops the mutator if that is in no atomic section.
unfoldable pub mark_pending : ℕ → SignalState → SignalState
unfolding sigaddset
mark_pending signum s = record s {
  signal_is_pending = true;
  signals_pending = sigaddset s.signals_pending signum;
}

abbrev pub stop : SignalState → SignalState
stop s = record s { limit = 0 }

unfoldable pub deliver : ℕ → SignalState → SignalState
unfolding mark_pending
deliver signum s = let s' = mark_pending signum s in if s'.atomic_state == 0 then stop s' else s'

-- GC_handler: the first registered processor gets the signal, and the loop is left.
unfoldable pub handler : List SignalState → ℕ → List SignalState
unfolding sigismember deliver
handler [] signum = []
handler (s ∷ procs) signum =
    if sigismember s.signals_handled signum
    then deliver signum s ∷ procs
    else s ∷ handler procs signum

-- switchToSignalHandlerThreadIfNonAtomicAndSignalPending
unfoldable pub switch_to_signal_handler_thread_if_non_atomic_and_signal_pending :
    SignalState → SignalState
unfolding start_signal_handler
switch_to_signal_handler_thread_if_non_atomic_and_signal_pending s =
    if s.atomic_state == 1 && s.signal_is_pending
    then record (start_signal_handler s) { current_thread = s.signal_handler_thread }
    else s

-- `Send a GC signal', at the end of performGC and of fixForwardingPointers.
unfoldable pub send_gc_signal : SignalState → SignalState
send_gc_signal s =
    if s.gc_signal_handled && not (s.signal_handler_thread == bogus_objptr)
    then record s {
      gc_signal_pending = true;
      signal_is_pending = if not s.am_in_signal_handler then true else s.signal_is_pending;
    }
    else s
