-- ===== src/SchedulerQueue/State/Refine.antt =====
-- The operations on the queues of all processors, against one unbounded queue for each.
use multi_mlton.Prelude.{
  ◌>>=◌, ℕ, zero, suc, ◌+◌, ◌*◌, ◌^◌, ◌≤◌, ◌<◌, ◌≡◌, ◌≢◌, ◌⊎◌, inl, inr, refl, ap, ◌∙◌, true, false,
  ◌&&◌, Option, none, some, List, [], ◌∷◌, map, ◌==◌, if◌then◌else◌, get_elem?, set, length,
  get_elem?-set_self, get_elem?-set_ne, arith, Bool-cases, Option-cases, ℕ_discrete,
}
use multi_mlton.Objptr.{native64, pointer_to_objptr}
use multi_mlton.SchedulerQueue.Fifo.{push, pop}
use multi_mlton.SchedulerQueue.Buffer
use multi_mlton.SchedulerQueue.Buffer.{CircularBuffer, Malloc, IsMalloc}
use multi_mlton.SchedulerQueue.Buffer.Inv.{IsValid, enque-IsValid, deque-IsValid, count-eq-distance}
use multi_mlton.SchedulerQueue.Buffer.Refine.{
  contents, enque_refines, deque_refines, length-contents,
}
use multi_mlton.SchedulerQueue.Buffer.Grow.{grow_lem}
use multi_mlton.SchedulerQueue.Buffer.Walk.{walk_lem}
use multi_mlton.SchedulerQueue.State.{
  SchedulerQueue, Proc, pointer_of, get_sub_q, set_sub_q, with_room, sq_enque, sq_deque,
  clean_queue, cleaned, clean_round, clean_rounds, sq_clean, call_if_is_objptr,
  foreach_objptr_in_sq, sizeof_scheduler_queue,
}

-- The queue `i` of processor `proc`.
abbrev pub queue_of : List Proc → ℕ → ℕ → Option CircularBuffer
queue_of procs proc i = get_elem? procs proc >>= λ s. get_sub_q s.scheduler_queue i

-- There is a free slot, or a buffer of at most 2^26 slots and the memory for one of twice the size.
abbrev pub HasRoom : Malloc → CircularBuffer → Type 0
HasRoom malloc b =
    (Buffer.is_full b ≡ false)
    ⊎ ((b.size ≤ 2 ^ 26) × ((ks : List ℕ) × (malloc (b.size * 16 + 16) ≡ some ks)))

lt-length_of_get :
    {A : Type 0} (xs : List A) (i : ℕ) {x : A} → get_elem? xs i ≡ some x → i < length xs
lt-length_of_get [] i e = cc
lt-length_of_get (y ∷ xs) zero e = omega arith
lt-length_of_get (y ∷ xs) (suc i) e = omega (arith, lt-length_of_get xs i e)

get_sub_q-set_sub_q :
    (sq : SchedulerQueue) (i j : ℕ) (b c : CircularBuffer)
    → get_sub_q sq i ≡ some b
    → get_sub_q (set_sub_q sq i c) j ≡ (if i == j then some c else get_sub_q sq j)
unfolding get_sub_q set_sub_q
get_sub_q-set_sub_q sq i j b c e = ground arith

-- sqEnque's buffer, after it has made room.
with_room_lem :
    (malloc : Malloc) {b : CircularBuffer}
    → IsMalloc malloc
    → IsValid b
    → HasRoom malloc b
    → (b' : CircularBuffer) × (with_room malloc b ≡ some b')
      × IsValid b'
      × (contents b' ≡ contents b)
      × (Buffer.is_full b' ≡ false)
unfolding with_room
with_room_lem malloc {b} ok v room = elim (Bool-cases (Buffer.is_full b)) [
  | inl full ↦ grown full room
  | inr free ↦ (b, rw free, v, refl, free)
]
  where
    grown :
        Buffer.is_full b ≡ true
        → HasRoom malloc b
        → (b' : CircularBuffer) × (with_room malloc b ≡ some b')
          × IsValid b'
          × (contents b' ≡ contents b)
          × (Buffer.is_full b' ≡ false)
    grown full (inl free) = cc
    grown full (inr (small, (ks, got))) =
        let (b', e, v', s, c, f) = grow_lem malloc ks ok v small got in (b', rw full e, v', c, f)

-- The queues after one is replaced: that one, and all others as they were.
replaced :
    (procs : List Proc) (proc i : ℕ) (s s' : Proc) (b c : CircularBuffer)
    → get_elem? procs proc ≡ some s
    → get_sub_q s.scheduler_queue i ≡ some b
    → s'.scheduler_queue ≡ set_sub_q s.scheduler_queue i c
    → (j k : ℕ)
    → queue_of (set procs proc s') j k
      ≡ (if proc == j && i == k then some c else queue_of procs j k)
replaced procs proc i s s' b c got sub e j k = elim (ℕ_discrete proc j) [
  | yes p ↦ ground (
    arith,
    get_elem?-set_self procs proc s' (lt-length_of_get procs proc got),
    get_sub_q-set_sub_q s.scheduler_queue i k b c sub,
    ap (λ q. get_sub_q q k) e,
  )
  | no p ↦ ground (arith, get_elem?-set_ne procs {i = proc} {j = j} s' p)
]

-- With `malloc` giving blocks as large as asked, a valid buffer for queue i of processor proc, and,
-- if that is full, at most 2^26 slots in it and memory for twice as many: sqEnque answers, puts the
-- object pointer of p behind the keys of that queue, also when the buffer has to grow, keeps its
-- buffer valid, and changes no other queue of any processor.
pub sq_enque_refines :
    (malloc : Malloc) (procs : List Proc) (p proc i : ℕ) {s : Proc} {b : CircularBuffer}
    → IsMalloc malloc
    → get_elem? procs proc ≡ some s
    → get_sub_q s.scheduler_queue i ≡ some b
    → IsValid b
    → HasRoom malloc b
    → (procs' : List Proc) × (b' : CircularBuffer) × (sq_enque malloc procs p proc i ≡ some procs')
      × IsValid b'
      × (contents b' ≡ push (contents b) (pointer_to_objptr native64 p s.heap_start))
      × ((j k : ℕ)
          → queue_of procs' j k ≡ (if proc == j && i == k then some b' else queue_of procs j k))
unfolding sq_enque
sq_enque_refines malloc procs p proc i {s} {b} ok got sub v room =
    let (b1, e, v1, c1, free) = with_room_lem malloc ok v room in
    let op = pointer_to_objptr native64 p s.heap_start in
    let b2 = (Buffer.enque b1 op).0 in
    let s' : Proc = record s {
      scheduler_queue = set_sub_q s.scheduler_queue i b2;
      in_mutator_q = true;
    } in
    (
      set procs proc s',
      b2,
      rw (got, sub, e),
      enque-IsValid op v1,
      (enque_refines v1 op free).1 ∙ ap (λ q. push q op) c1,
      replaced procs proc i s s' b b2 got sub refl,
    )

-- With a valid buffer for queue i of the caller, GC_sqDeque answers with the pointer of the oldest
-- key, or, past the assertion that there is one, with null if there is none; it takes that key out,
-- keeps the buffer valid, and changes no other queue of any processor.
pub sq_deque_refines :
    (procs : List Proc) (self i : ℕ) {s : Proc} {b : CircularBuffer}
    → get_elem? procs self ≡ some s
    → get_sub_q s.scheduler_queue i ≡ some b
    → IsValid b
    → (procs' : List Proc) × (b' : CircularBuffer) × (sq_deque procs self i
        ≡ some (pointer_of s.heap_start (pop (contents b)).0, procs'))
      × IsValid b'
      × (contents b' ≡ (pop (contents b)).1)
      × ((j k : ℕ)
          → queue_of procs' j k ≡ (if self == j && i == k then some b' else queue_of procs j k))
unfolding sq_deque
sq_deque_refines procs self i {s} {b} got sub v =
    let b' = (Buffer.deque b).1 in
    let s' : Proc = record s { scheduler_queue = set_sub_q s.scheduler_queue i b' } in
    (
      set procs self s',
      b',
      rw (got, sub, ← ap (λ r. r.0) (deque_refines v)),
      deque-IsValid v,
      ap (λ r. r.1) (deque_refines v),
      replaced procs self i s s' b b' got sub refl,
    )

cleaned_twice : (s : Proc) → cleaned (cleaned s) ≡ cleaned s
unfolding clean_queue Buffer.clean
cleaned_twice s = refl

clean_round_of_some :
    (procs : List Proc) (self : ℕ) {s : Proc}
    → get_elem? procs self ≡ some s
    → clean_round procs self ≡ set procs self (cleaned s)
unfolding clean_round
clean_round_of_some procs self got = rw (got, clean_round)

clean_round_of_none :
    (procs : List Proc) (self : ℕ) → get_elem? procs self ≡ none → clean_round procs self ≡ procs
unfolding clean_round
clean_round_of_none procs self e = rw (e, clean_round)

clean_rounds_own :
    (rounds : ℕ) (procs : List Proc) (self : ℕ) {s : Proc}
    → get_elem? procs self ≡ some s
    → get_elem? (clean_rounds (suc rounds) procs self) self ≡ some (cleaned s)
unfolding clean_rounds
clean_rounds_own zero procs self {s} got =
    rw (clean_round_of_some procs self got)
      (get_elem?-set_self procs self (cleaned s) (lt-length_of_get procs self got))
clean_rounds_own (suc n) procs self {s} got =
    let now : get_elem? (set procs self (cleaned s)) self ≡ some (cleaned s) =
      get_elem?-set_self procs self (cleaned s) (lt-length_of_get procs self got) in
    rw (clean_round_of_some procs self got)
      (clean_rounds_own n (set procs self (cleaned s)) self now ∙ ap some (cleaned_twice s))

clean_rounds_other :
    (rounds : ℕ) (procs : List Proc) (self proc : ℕ)
    → self ≢ proc
    → get_elem? (clean_rounds rounds procs self) proc ≡ get_elem? procs proc
unfolding clean_rounds
clean_rounds_other zero procs self proc ne = refl
clean_rounds_other (suc n) procs self proc ne = elim (Option-cases (get_elem? procs self)) [
  | inl e ↦ rw (clean_round_of_none procs self e) (clean_rounds_other n procs self proc ne)
  | inr (s, e) ↦ rw (clean_round_of_some procs self e) (
      clean_rounds_other n (set procs self (cleaned s)) self proc ne
      ∙ get_elem?-set_ne procs (cleaned s) ne)
]

-- GC_sqClean empties the three queues of the caller, and leaves every other processor as it was.
pub sq_clean_lem :
    (procs : List Proc) (self : ℕ) {s : Proc}
    → get_elem? procs self ≡ some s
    → (get_elem? (sq_clean procs self) self ≡ some (cleaned s))
      × (contents (cleaned s).scheduler_queue.primary ≡ [])
      × (contents (cleaned s).scheduler_queue.secondary ≡ [])
      × (contents (cleaned s).scheduler_queue.parasites ≡ [])
      × ((proc : ℕ) → self ≢ proc → get_elem? (sq_clean procs self) proc ≡ get_elem? procs proc)
unfolding sq_clean clean_queue Buffer.clean
sq_clean_lem procs self {s} got = (
  own procs got,
  refl,
  refl,
  refl,
  λ proc ne. clean_rounds_other (length procs) procs self proc ne,
)
  where
    own :
        (ps : List Proc)
        → get_elem? ps self ≡ some s
        → get_elem? (clean_rounds (length ps) ps self) self ≡ some (cleaned s)
    own [] e = cc
    own (p ∷ ps) e = clean_rounds_own (length ps) (p ∷ ps) self e

-- For a valid buffer, sizeofSchedulerQueue is the number of keys in the queue, with the read
-- pointer before or behind the write pointer.
pub sizeof_scheduler_queue_lem :
    (sq : SchedulerQueue) (i : ℕ) {b : CircularBuffer}
    → get_sub_q sq i ≡ some b
    → IsValid b
    → sizeof_scheduler_queue sq i ≡ some (length (contents b))
unfolding sizeof_scheduler_queue
sizeof_scheduler_queue_lem sq i {b} e v = rw (e, count-eq-distance v, length-contents b)

pub record IsValidQueue (sq : SchedulerQueue) : Type 0 where
  pub primary : IsValid sq.primary
  pub secondary : IsValid sq.secondary
  pub parasites : IsValid sq.parasites

-- On three valid buffers foreachObjptrInSQ ends, passes each key that looks like an object pointer
-- to the callback once, leaves in each of the three queues what the callback makes of its keys, in
-- the same order, and keeps the buffers valid.
pub foreach_objptr_in_sq_lem :
    (f : ℕ → ℕ) {sq : SchedulerQueue}
    → IsValidQueue sq
    → (sq' : SchedulerQueue) × (foreach_objptr_in_sq f sq ≡ some sq')
      × IsValidQueue sq'
      × (contents sq'.primary ≡ map (call_if_is_objptr f) (contents sq.primary))
      × (contents sq'.secondary ≡ map (call_if_is_objptr f) (contents sq.secondary))
      × (contents sq'.parasites ≡ map (call_if_is_objptr f) (contents sq.parasites))
unfolding foreach_objptr_in_sq
foreach_objptr_in_sq_lem f {sq} v =
    let (p, ep, vp, cp) = walk_lem (call_if_is_objptr f) v.primary in
    let (s, es, vs, cs) = walk_lem (call_if_is_objptr f) v.secondary in
    let (q, eq, vq, cq) = walk_lem (call_if_is_objptr f) v.parasites in
    (
      record { primary = p; secondary = s; parasites = q },
      rw (ep, es, eq),
      record { primary = vp; secondary = vs; parasites = vq },
      cp,
      cs,
      cq,
    )
