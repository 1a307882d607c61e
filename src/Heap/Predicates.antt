-- ===== src/Heap/Predicates.antt =====
-- runtime/gc/heap_predicates.c: where a pointer lies, and whether a heap has room. The native
-- 64-bit representation is used for object pointers, as in gc/model.h's default on this machine.
-- isHeapInit stands in Heap/Types; `limitPlusSlop` and the frontiers are those of the GC state.
use multi_mlton.Prelude.{
  ℕ, Bool, true, false, not, ◌&&◌, ◌||◌, ◌==◌, ltb, leb, if◌then◌else◌, List, [], ◌∷◌, bit_and,
}
use multi_mlton.Align.{add_size, sub_size, mul_size}
use multi_mlton.Objptr.{native64, is_pointer, is_objptr, objptr_to_pointer}
use multi_mlton.Object.{lift_mask}
use multi_mlton.ObjectSize.{forwarded}
use multi_mlton.Heap.Types.{HeapKind, local_heap, shared_heap, Heap}

-- The fields of the GC state of one processor that the predicates read.
pub record GcState : Type 0 where
  pub heap : Heap
  pub shared_heap : Heap
  pub frontier : ℕ
  pub limit_plus_slop : ℕ
  pub shared_frontier : ℕ
  pub shared_limit_plus_slop : ℕ
  pub can_minor : Bool

-- `h->kind==SHARED_HEAP`
unfoldable pub is_shared_kind : HeapKind → Bool
is_shared_kind local_heap = false
is_shared_kind shared_heap = true

unfoldable pub is_pointer_in_heap : Heap → ℕ → Bool
is_pointer_in_heap h p =
    not (is_pointer native64 p) || (leb h.start p && ltb p (add_size h.start h.size))

module _ (s : GcState) where
  unfoldable pub is_pointer_in_old_gen : Heap → ℕ → Bool
  unfolding is_shared_kind
  is_pointer_in_old_gen h p =
      not (is_pointer native64 p)
      || (if is_shared_kind h.kind
          then leb s.shared_heap.start p
            && ltb p (add_size s.shared_heap.start s.shared_heap.old_gen_size)
          else leb s.heap.start p && ltb p (add_size s.heap.start s.heap.old_gen_size))

  unfoldable pub is_pointer_in_nursery : Heap → ℕ → Bool
  unfolding is_shared_kind
  is_pointer_in_nursery h p =
      not (is_pointer native64 p)
      || (if is_shared_kind h.kind
          then leb s.shared_heap.nursery p && ltb p s.shared_heap.frontier
          else leb s.heap.nursery p && ltb p s.heap.frontier)

  unfoldable pub is_pointer_in_from_space : Heap → ℕ → Bool
  unfolding is_pointer_in_old_gen is_pointer_in_nursery
  is_pointer_in_from_space h p = is_pointer_in_old_gen h p || is_pointer_in_nursery h p

  unfoldable pub is_objptr_in_old_gen : Heap → ℕ → Bool
  unfolding is_pointer_in_old_gen
  is_objptr_in_old_gen h op =
      if not (is_objptr native64 op)
      then true
      else is_pointer_in_old_gen h (objptr_to_pointer native64 op s.heap.start)

  unfoldable pub is_objptr_in_nursery : Heap → ℕ → Bool
  unfolding is_pointer_in_nursery
  is_objptr_in_nursery h op =
      if not (is_objptr native64 op)
      then true
      else is_pointer_in_nursery h (objptr_to_pointer native64 op s.heap.start)

  unfoldable pub is_objptr_in_from_space : Heap → ℕ → Bool
  unfolding is_objptr_in_old_gen is_objptr_in_nursery
  is_objptr_in_from_space h op = is_objptr_in_old_gen h op || is_objptr_in_nursery h op

  -- hasHeapBytesFree: `total` of the local heap counts up to the frontier of the state, that of the
  -- shared heap up to the frontier of the heap.
  unfoldable pub has_heap_bytes_free : HeapKind → ℕ → ℕ → Bool
  has_heap_bytes_free local_heap old_gen nursery =
      let total =
        add_size (add_size s.heap.old_gen_size old_gen)
          (mul_size (if s.can_minor then 2 else 1) (sub_size s.frontier s.heap.nursery)) in
      leb total s.heap.size
      && leb (add_size (add_size s.heap.start s.heap.old_gen_size) old_gen) s.heap.nursery
      && leb nursery (sub_size s.limit_plus_slop s.frontier)
  has_heap_bytes_free shared_heap old_gen nursery =
      let total = add_size (add_size s.shared_heap.old_gen_size old_gen) (
        mul_size (if s.can_minor then 2 else 1)
          (sub_size s.shared_heap.frontier s.shared_heap.nursery)) in
      leb total s.shared_heap.available_size
      && leb (add_size (add_size s.shared_heap.start s.shared_heap.old_gen_size) old_gen)
          s.shared_heap.nursery
      && leb nursery (sub_size s.shared_limit_plus_slop s.shared_frontier)

unfoldable pub is_objptr_in_heap : Heap → ℕ → Bool
unfolding is_pointer_in_heap
is_objptr_in_heap h op =
    if not (is_objptr native64 op)
    then true
    else is_pointer_in_heap h (objptr_to_pointer native64 op h.start)

-- isObjectLifted
unfoldable pub is_object_lifted : ℕ → Bool
is_object_lifted header = not (header == forwarded) && not (bit_and header lift_mask == 0)

-- isPointerInAnyLocalHeap, over the local heaps of all processors.
unfoldable pub is_pointer_in_any_local_heap : List Heap → ℕ → Bool
is_pointer_in_any_local_heap [] p = false
is_pointer_in_any_local_heap (h ∷ hs) p =
    if is_pointer_in_heap h p then true else is_pointer_in_any_local_heap hs p
