-- ===== src/Signals/Tests.antt =====
-- Signal 14 is for the second of two processors.
use multi_mlton.Prelude.{◌≡◌, refl, false, true, [], ◌∷◌, arith}
use multi_mlton.Signals.{
  SignalState, handler, begin_atomic, end_atomic, deliver, count_up, count_down, restore_limit,
  stop_if_pending, mark_pending, stop,
}
use multi_mlton.Signals.Pending.{
  Race, outside, Started, Reach, start, next, counts_up, restores, counts_down, stops, marks, tests,
  clears, pending_signal_stops,
}

abbrev idle : SignalState
idle = record {
  atomic_state = 0;
  signal_is_pending = false;
  am_in_signal_handler = false;
  saved_thread = 1;
  current_thread = 64;
  signals_handled = [];
  signals_pending = [];
  limit = 8192;
  limit_plus_slop = 8704;
  signal_handler_thread = 128;
  gc_signal_handled = false;
  gc_signal_pending = false;
}

abbrev alarmed : SignalState
alarmed = record idle { signals_handled = 14 ∷ [] }

handler_runs : handler (idle ∷ alarmed ∷ []) 14 ≡ (
    idle ∷ record alarmed { signal_is_pending = true; signals_pending = 14 ∷ []; limit = 0 } ∷ [])
unfolding handler mark_pending
handler_runs = refl

-- The thread of the processor begins and ends an atomic section while another one is in GC_handler:
-- that has seen the counter at 0, and clears the limit inside the section.
abbrev resting : Race
resting = record { state = idle; phase = outside; marked = 0; stopping = 0 }

resting-Started : Started resting
resting-Started = record { between = refl; quiet = refl; unmarked = refl; unstopped = refl }

abbrev left : SignalState
left = stop_if_pending (count_down (stop (restore_limit (count_up (mark_pending 14 idle)))))

raced-Reach : Reach (record resting { state = left })
unfolding count_up restore_limit mark_pending
raced-Reach =
    next
      (next
        (next
          (next
            (next (next (next (start resting-Started) (marks 14)) (tests (omega arith)))
              (counts_up refl (omega arith)))
            (restores refl))
          (clears (omega arith)))
        (counts_down refl (omega arith)))
      (stops refl)

pending_signal_stops_example : left.limit ≡ 0
unfolding stop_if_pending count_down count_up restore_limit mark_pending
pending_signal_stops_example =
    pending_signal_stops (record resting { state = left }) raced-Reach refl refl refl refl refl

interrupted_runs :
    end_atomic (deliver 14 (begin_atomic idle))
    ≡ record idle { signal_is_pending = true; signals_pending = 14 ∷ []; limit = 0 }
unfolding end_atomic deliver begin_atomic stop_if_pending count_down count_up restore_limit
    mark_pending
interrupted_runs = refl
