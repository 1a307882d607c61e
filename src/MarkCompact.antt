-- ===== src/MarkCompact.antt =====
-- runtime/gc/mark-compact.c: the threading of pointers to an object through its header, and the loops
-- that unthread them and write the new address; and what becomes of weak pointers. A header and an
-- object pointer have 8 bytes each, so that copyForThreadInternal takes its last branch; a copy from
-- or to a local variable is written as a load or a store. The loops take fuel.
pub mod Threading
pub mod Unthreading
pub mod Weaks
mod Tests
use multi_mlton.Prelude.{
  ℕ, zero, suc, ◌+◌, ◌-◌, ◌^◌, Bool, ◌==◌, ◌&&◌, not, if◌then◌else◌, Option, none, some, List, [],
  ◌∷◌, bit_and,
}
use Prim.Native.Nat.{bit_or}
use multi_mlton.Align.{add_size, sub_size}
use multi_mlton.CardMap.{Memory}
use multi_mlton.Objptr.{native64, bogus_objptr, objptr_to_pointer, pointer_to_objptr}
use multi_mlton.Object.{
  load, header_size, objptr_size, get_header, get_headerp, build_header_from_type_index,
}
use multi_mlton.ArrayAllocate.{store}
use multi_mlton.Heap.Predicates.{GcState, is_pointer_in_heap}
use multi_mlton.NewObject.{offsetof_weak, weak_objptr_offset, weak_gone_type_index}
use multi_mlton.Forward.{fix_fwd_objptr}

unfoldable pub copy_for_thread_internal : Memory → ℕ → ℕ → Memory
unfolding load store
copy_for_thread_internal mem dst src = store header_size mem dst (load header_size mem src)

-- `start` is `s->heap->start`.
unfoldable pub thread_internal_objptr : ℕ → Memory → ℕ → Memory
unfolding copy_for_thread_internal load store get_headerp objptr_to_pointer pointer_to_objptr
thread_internal_objptr start mem opp =
    let opop = pointer_to_objptr native64 opp start in
    let p = objptr_to_pointer native64 (load objptr_size mem opp) start in
    let headerp = get_headerp p in
    store header_size (copy_for_thread_internal mem opp headerp) headerp opop

-- The loop of updateForwardPointersForMarkCompact and of
-- updateBackwardPointersAndSlideForMarkCompact: the header found at the end, and memory.
unfoldable pub unthread : ℕ → ℕ → ℕ → Memory → ℕ → Option (ℕ × Memory)
unfolding copy_for_thread_internal load store objptr_to_pointer
unthread zero start new_objptr mem headerp = none
unthread (suc fuel) start new_objptr mem headerp =
    let cur = objptr_to_pointer native64 (load objptr_size mem headerp) start in
    let mem' = store objptr_size (copy_for_thread_internal mem headerp cur) cur new_objptr in
    let header = load header_size mem' headerp in
    let rest = unthread fuel start new_objptr mem' headerp in
    if 0 == bit_and 1 header then rest else some (header, mem')

-- threadInternalObjptrIfInLocalHeap and threadInternalObjptrIfInSharedHeap
unfoldable pub thread_internal_objptr_if_in_local_heap : ℕ → GcState → Memory → ℕ → Option Memory
unfolding fix_fwd_objptr thread_internal_objptr load objptr_to_pointer
thread_internal_objptr_if_in_local_heap fuel s mem opp =
    elim (fix_fwd_objptr fuel s.heap.start mem opp) [
      | none ↦ none
      | some mem' ↦ some (
          if is_pointer_in_heap s.heap
            (objptr_to_pointer native64 (load objptr_size mem' opp) s.heap.start)
          then thread_internal_objptr s.heap.start mem' opp
          else mem')
    ]

unfoldable pub thread_internal_objptr_if_in_shared_heap : ℕ → GcState → Memory → ℕ → Option Memory
unfolding fix_fwd_objptr thread_internal_objptr load objptr_to_pointer
thread_internal_objptr_if_in_shared_heap fuel s mem opp =
    elim (fix_fwd_objptr fuel s.heap.start mem opp) [
      | none ↦ none
      | some mem' ↦ some (
          if is_pointer_in_heap s.shared_heap
            (objptr_to_pointer native64 (load objptr_size mem' opp) s.shared_heap.start)
          then thread_internal_objptr s.heap.start mem' opp
          else mem')
    ]

abbrev pub mark_mask : ℕ
mark_mask = 0x80000000

-- isPointerMarked
unfoldable pub is_pointer_marked : Memory → ℕ → Bool
unfolding get_header
is_pointer_marked mem p = not (bit_and mark_mask (get_header mem p) == 0)

-- The body of the loop of updateWeaksForMarkCompact, for the weak pointer at w.
unfoldable pub update_weak : ℕ → ℕ → Memory → ℕ → Memory
unfolding is_pointer_marked load store get_headerp offsetof_weak objptr_to_pointer
    build_header_from_type_index
update_weak alignment start mem w =
    let objptr_at = add_size w weak_objptr_offset in
    let op = load objptr_size mem objptr_at in
    let headerp = get_headerp (sub_size w (offsetof_weak alignment)) in
    let gone = bit_or (build_header_from_type_index weak_gone_type_index) mark_mask in
    if bogus_objptr == op
    then mem
    else (if is_pointer_marked mem (objptr_to_pointer native64 op start)
        then mem
        else store objptr_size (store header_size mem headerp gone) objptr_at bogus_objptr)

-- The loop, from `s->weaks` along the links.
unfoldable pub update_weaks : ℕ → ℕ → ℕ → Memory → ℕ → Option Memory
unfolding update_weak load
update_weaks zero alignment start mem w = none
update_weaks (suc fuel) alignment start mem w =
    let mem' = update_weak alignment start mem w in
    let rest = update_weaks fuel alignment start mem' (load 8 mem' w) in
    if w == 0 then some mem else rest
