-- ===== src/SchedulerQueue/State/Tests.antt =====
-- Two processors with small queues.
use multi_mlton.Prelude.{
  ℕ, ◌+◌, ◌≡◌, ◌≢◌, refl, false, ◌&&◌, some, List, [], ◌∷◌, map, arith, inr, replicate, get_elem?,
  if◌then◌else◌, ◌==◌,
}
use multi_mlton.Objptr.{native64, pointer_to_objptr}
use multi_mlton.SchedulerQueue.Fifo.{push, pop}
use multi_mlton.SchedulerQueue.Buffer.{CircularBuffer}
use multi_mlton.SchedulerQueue.Buffer.Inv.{IsValid}
use multi_mlton.SchedulerQueue.Buffer.Refine.{contents}
use multi_mlton.SchedulerQueue.State.{
  SchedulerQueue, Proc, pointer_of, sq_enque, sq_deque, sq_clean, cleaned, get_sub_q,
  call_if_is_objptr, foreach_objptr_in_sq,
}
use multi_mlton.SchedulerQueue.State.Refine.{
  queue_of, sq_enque_refines, sq_deque_refines, sq_clean_lem, IsValidQueue,
  foreach_objptr_in_sq_lem,
}
use multi_mlton.SchedulerQueue.Buffer.Tests.{
  wrapped, half, wrapped-IsValid, half-IsValid, plenty, plenty-IsMalloc,
}

abbrev queues : SchedulerQueue
queues = record { primary = wrapped; secondary = half; parasites = half }

abbrev proc0 : Proc
proc0 = record { scheduler_queue = queues; heap_start = 0x1000; in_mutator_q = false }

abbrev procs : List Proc
procs = proc0 ∷ proc0 ∷ []

-- The primary queue of processor 1 is full, and grows.
sq_enque_refines_example :
    (procs' : List Proc) × (b' : CircularBuffer) × (sq_enque plenty procs 0x1008 1 0 ≡ some procs')
    × IsValid b'
    × (contents b' ≡ push (5 ∷ 6 ∷ 7 ∷ []) (pointer_to_objptr native64 0x1008 0x1000))
    × ((j k : ℕ) → queue_of procs' j k ≡ (if 1 == j && 0 == k then some b' else queue_of procs j k))
unfolding get_sub_q
sq_enque_refines_example =
    sq_enque_refines plenty procs 0x1008 1 0 {s = proc0} plenty-IsMalloc refl refl wrapped-IsValid
      (inr (omega arith, (replicate 10 0, refl)))

sq_deque_refines_example :
    (procs' : List Proc) × (b' : CircularBuffer) × (sq_deque procs 0 1
      ≡ some (pointer_of 0x1000 (pop (5 ∷ 6 ∷ [])).0, procs'))
    × IsValid b'
    × (contents b' ≡ (pop (5 ∷ 6 ∷ [])).1)
    × ((j k : ℕ) → queue_of procs' j k ≡ (if 0 == j && 1 == k then some b' else queue_of procs j k))
unfolding get_sub_q
sq_deque_refines_example = sq_deque_refines procs 0 1 {s = proc0} refl refl half-IsValid

-- Processor 0 cleans up, and processor 1 keeps its keys.
sq_clean_lem_example :
    (get_elem? (sq_clean procs 0) 0 ≡ some (cleaned proc0))
    × (contents (cleaned proc0).scheduler_queue.primary ≡ [])
    × (contents (cleaned proc0).scheduler_queue.secondary ≡ [])
    × (contents (cleaned proc0).scheduler_queue.parasites ≡ [])
    × ((proc : ℕ) → 0 ≢ proc → get_elem? (sq_clean procs 0) proc ≡ get_elem? procs proc)
sq_clean_lem_example = sq_clean_lem procs 0 {s = proc0} refl

queues-IsValidQueue : IsValidQueue queues
queues-IsValidQueue = record {
  primary = wrapped-IsValid;
  secondary = half-IsValid;
  parasites = half-IsValid;
}

foreach_objptr_in_sq_lem_example :
    (sq' : SchedulerQueue) × (foreach_objptr_in_sq (λ k. k + 8) queues ≡ some sq')
    × IsValidQueue sq'
    × (contents sq'.primary ≡ map (call_if_is_objptr (λ k. k + 8)) (5 ∷ 6 ∷ 7 ∷ []))
    × (contents sq'.secondary ≡ map (call_if_is_objptr (λ k. k + 8)) (5 ∷ 6 ∷ []))
    × (contents sq'.parasites ≡ map (call_if_is_objptr (λ k. k + 8)) (5 ∷ 6 ∷ []))
foreach_objptr_in_sq_lem_example = foreach_objptr_in_sq_lem (λ k. k + 8) queues-IsValidQueue
