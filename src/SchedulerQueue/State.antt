-- ===== src/SchedulerQueue/State.antt =====
-- The queues of all processors in runtime/gc/scheduler-queue.c: newSchedulerQueue, getSubQ,
-- GC_sqCreateQueues, sqEnque, GC_sqDeque, GC_sqIsEmptyPrio, GC_sqClean, foreachObjptrInSQ,
-- sizeofSchedulerQueue, with Parallel_wakeUpThread's flag (runtime/gc/parallel.c). The functions
-- run while their lock is held; the locks themselves are in `SchedulerQueue.Lock`.
pub mod Refine
mod Tests
use multi_mlton.Prelude.{
  ◌>>=◌, ℕ, zero, suc, ◌+◌, ◌≡◌, Bool, true, false, Option, none, some, List, [], ◌∷◌, ◌==◌,
  if◌then◌else◌, get_elem?, set, length,
}
use multi_mlton.Objptr.{native64, is_objptr, objptr_to_pointer, pointer_to_objptr}
use multi_mlton.SchedulerQueue.Lock.{Lock}
use multi_mlton.SchedulerQueue.Buffer
use multi_mlton.SchedulerQueue.Buffer.{CircularBuffer, Malloc}

-- BUFFER_SIZE, of runtime/gc/init.h
abbrev pub buffer_size : ℕ
buffer_size = 1024

pub record SchedulerQueue : Type 0 where
  pub primary : CircularBuffer
  pub secondary : CircularBuffer
  pub parasites : CircularBuffer

-- The fields of the processors' states that the queues use. `heap_start` is `s->heap->start`,
-- `in_mutator_q` the element of `dataInMutatorQ` of Parallel_wakeUpThread.
pub record Proc : Type 0 where
  pub scheduler_queue : SchedulerQueue
  pub heap_start : ℕ
  pub in_mutator_q : Bool

-- `none` stands for `die`, and for an access through a null pointer or out of an array.

unfoldable pub get_sub_q : SchedulerQueue → ℕ → Option CircularBuffer
get_sub_q sq i =
    if i == 0
    then some sq.primary
    else (if i == 1 then some sq.secondary else (if i == 2 then some sq.parasites else none))

-- The assignments of sqEnque after growing: every index but 0 and 1 is the parasites' queue.
unfoldable pub set_sub_q : SchedulerQueue → ℕ → CircularBuffer → SchedulerQueue
set_sub_q sq i b =
    if i == 0
    then record sq { primary = b }
    else (if i == 1 then record sq { secondary = b } else record sq { parasites = b })

module _ (malloc : Malloc) where
  unfoldable pub new_scheduler_queue : Option SchedulerQueue
  new_scheduler_queue = do
    p ← Buffer.init malloc buffer_size
    s ← Buffer.init malloc buffer_size
    q ← Buffer.init malloc buffer_size
    some (record { primary = p; secondary = s; parasites = q })

  -- The buffer that sqEnque puts the key in: the one that is there, or a larger one if it is full.
  unfoldable pub with_room : CircularBuffer → Option CircularBuffer
  with_room cq = if Buffer.is_full cq then Buffer.grow malloc cq else some cq

  -- sqEnque (s, p, proc, i), with the wake-up of the processor at its end.
  unfoldable pub sq_enque : List Proc → ℕ → ℕ → ℕ → Option (List Proc)
  sq_enque procs p proc i = do
    from ← get_elem? procs proc
    cq ← get_sub_q from.scheduler_queue i
    cq' ← with_room cq
    let full = (Buffer.enque cq' (pointer_to_objptr native64 p from.heap_start)).0
    some (
        set procs proc (record from {
          scheduler_queue = set_sub_q from.scheduler_queue i full;
          in_mutator_q = true;
        }))

-- `res` of GC_sqDeque: NULL, until a key has been taken out.
abbrev pub pointer_of : ℕ → Option ℕ → ℕ
pointer_of base none = 0
pointer_of base (some op) = objptr_to_pointer native64 op base

-- GC_sqDeque (s, i) for i = 0, 1 or 2. An empty queue gives the null pointer, 0.
unfoldable pub sq_deque : List Proc → ℕ → ℕ → Option (ℕ × List Proc)
sq_deque procs self i = do
  s ← get_elem? procs self
  cq ← get_sub_q s.scheduler_queue i
  let (op, cq') = Buffer.deque cq
  some (
    pointer_of s.heap_start op,
    set procs self (record s { scheduler_queue = set_sub_q s.scheduler_queue i cq' }),
  )

-- GC_sqIsEmptyPrio, where no closure waits in `directCloXferArray` to be installed.
unfoldable pub sq_is_empty_prio : List Proc → ℕ → ℕ → Option Bool
sq_is_empty_prio procs self i = do
  s ← get_elem? procs self
  cq ← get_sub_q s.scheduler_queue i
  some (Buffer.is_empty cq)

-- GC_sqDeque (s, -1), under the same condition.
unfoldable pub sq_deque_any : List Proc → ℕ → Option (ℕ × List Proc)
sq_deque_any procs self = do
  e0 ← sq_is_empty_prio procs self 0
  e1 ← sq_is_empty_prio procs self 1
  if e0 then (if e1 then none else sq_deque procs self 1) else sq_deque procs self 0

unfoldable pub clean_queue : SchedulerQueue → SchedulerQueue
clean_queue sq = record {
  primary = Buffer.clean sq.primary;
  secondary = Buffer.clean sq.secondary;
  parasites = Buffer.clean sq.parasites;
}

abbrev pub cleaned : Proc → Proc
cleaned s = record s { scheduler_queue = clean_queue s.scheduler_queue }

-- The loop of GC_sqClean. Its body cleans the caller's queue and does not use the loop variable.
unfoldable pub clean_round : List Proc → ℕ → List Proc
clean_round procs self = elim (get_elem? procs self) [
  | none ↦ procs
  | some s ↦ set procs self (cleaned s)
]

unfoldable pub clean_rounds : ℕ → List Proc → ℕ → List Proc
clean_rounds zero procs self = procs
clean_rounds (suc rounds) procs self = clean_rounds rounds (clean_round procs self) self

unfoldable pub sq_clean : List Proc → ℕ → List Proc
sq_clean procs self = clean_rounds (length procs) procs self

-- callIfIsObjptr: the callback sees the keys that look like object pointers.
abbrev pub call_if_is_objptr : (ℕ → ℕ) → ℕ → ℕ
call_if_is_objptr f op = if is_objptr native64 op then f op else op

-- foreachObjptrInSQ: the three buffers in turn.
unfoldable pub foreach_objptr_in_sq : (ℕ → ℕ) → SchedulerQueue → Option SchedulerQueue
foreach_objptr_in_sq f sq = do
  let visit = call_if_is_objptr f
  p ← Buffer.walk visit sq.primary.size sq.primary.read_pointer sq.primary
  s ← Buffer.walk visit sq.secondary.size sq.secondary.read_pointer sq.secondary
  q ← Buffer.walk visit sq.parasites.size sq.parasites.read_pointer sq.parasites
  some (record { primary = p; secondary = s; parasites = q })

unfoldable pub sizeof_scheduler_queue : SchedulerQueue → ℕ → Option ℕ
sizeof_scheduler_queue sq i = do cq ← get_sub_q sq i; some (Buffer.count cq)
