-- ===== src/NewObject.antt =====
-- runtime/gc/new-object.c, thread.c and weak.c: allocation of objects, stacks and threads in the local
-- heap, the sizes of threads and weak pointers, and reading and making a weak pointer.
pub mod Stores
pub mod Words
pub mod Bounds
pub mod Weak
pub mod Threads
mod Tests
use multi_mlton.Prelude.{ℕ, ◌+◌, ◌-◌, ◌*◌, ◌^◌, Bool, true, false, not, ◌==◌, ltb, if◌then◌else◌}
use multi_mlton.Align.{
  size_mod, add_size, sub_size, align, align_frontier, align_with_extra, normal_header_size,
}
use multi_mlton.CardMap.{Memory}
use multi_mlton.Objptr.{native64, bogus_objptr, objptr_to_pointer, pointer_to_objptr}
use multi_mlton.Object.{load, objptr_size, header_size, get_header, build_header_from_type_index}
use multi_mlton.ObjectSize.{sizeof_stack_struct, stack_reserved_offset}
use multi_mlton.ArrayAllocate.{store, Machine}
use multi_mlton.Heap.Types.{Heap}
use multi_mlton.Foreach.{stack_used_offset, stack_thread_offset}

-- GC_STACK_HEADER, GC_THREAD_HEADER, GC_WEAK_GONE_HEADER
abbrev pub stack_type_index : ℕ
stack_type_index = 0

abbrev pub thread_type_index : ℕ
thread_type_index = 1

abbrev pub weak_gone_type_index : ℕ
weak_gone_type_index = 2

-- `struct GC_thread`, packed: bytesNeeded, exnStack, stack.
abbrev pub sizeof_thread_struct : ℕ
sizeof_thread_struct = 24

abbrev pub thread_exn_stack_offset : ℕ
thread_exn_stack_offset = 8

abbrev pub thread_stack_offset : ℕ
thread_stack_offset = 16

abbrev pub bogus_exn_stack : ℕ
bogus_exn_stack = size_mod - 1

-- `struct GC_weak`, packed: link, objptr.
abbrev pub sizeof_weak_struct : ℕ
sizeof_weak_struct = 16

abbrev pub weak_objptr_offset : ℕ
weak_objptr_offset = 8

-- The place of `isParasitic` in `struct GC_stack`, a bool of one byte.
abbrev pub stack_parasitic_offset : ℕ
stack_parasitic_offset = 40

module _ (alignment : ℕ) where
  unfoldable pub sizeof_thread : ℕ
  unfolding align
  sizeof_thread = align (add_size normal_header_size sizeof_thread_struct) alignment

  unfoldable pub offsetof_thread : ℕ
  unfolding sizeof_thread
  offsetof_thread = sub_size sizeof_thread (add_size normal_header_size sizeof_thread_struct)

  unfoldable pub sizeof_weak : ℕ
  unfolding align
  sizeof_weak = align (add_size normal_header_size sizeof_weak_struct) alignment

  unfoldable pub offsetof_weak : ℕ
  unfolding sizeof_weak
  offsetof_weak = sub_size sizeof_weak (add_size normal_header_size sizeof_weak_struct)

-- newObject. The source asserts that it is not asked for the shared heap.
unfoldable pub new_object : ℕ → ℕ → Bool → Machine → ℕ × Machine
unfolding store
new_object header bytes true m =
    let h = m.state.heap in
    let frontier = add_size h.start h.old_gen_size in
    (
      add_size frontier normal_header_size,
      record m {
        state = record (m.state) {
          heap = record h { old_gen_size = add_size h.old_gen_size bytes };
        };
        bytes_allocated = add_size m.bytes_allocated bytes;
        mem = store header_size m.mem frontier header;
      },
    )
new_object header bytes false m =
    let frontier = m.state.frontier in
    (
      add_size frontier normal_header_size,
      record m {
        state = record (m.state) { frontier = add_size frontier bytes };
        mem = store header_size m.mem frontier header;
      },
    )

-- newStack, less its statistics.
unfoldable pub new_stack : ℕ → Bool → Machine → ℕ × Machine
unfolding new_object store
new_stack reserved in_old_gen m =
    let r =
      new_object (build_header_from_type_index stack_type_index)
        (add_size (add_size header_size sizeof_stack_struct) reserved) in_old_gen m in
    let stack = r.0 in
    (
      stack,
      record (r.1) {
        mem =
            store 1
              (store 8
                (store 8 (store 8 r.1.mem (add_size stack stack_reserved_offset) reserved)
                  (add_size stack stack_used_offset) 0)
                (add_size stack stack_thread_offset) bogus_objptr)
              (add_size stack stack_parasitic_offset) 0;
      },
    )

-- newThread, once there is room: the address of the `struct GC_thread`.
unfoldable pub make_thread : ℕ → ℕ → Machine → ℕ × Machine
unfolding new_stack new_object store sizeof_thread offsetof_thread pointer_to_objptr
make_thread alignment reserved m =
    let s = new_stack reserved false m in
    let r =
      new_object (build_header_from_type_index thread_type_index) (sizeof_thread alignment) false
        s.1 in
    let thread = add_size r.0 (offsetof_thread alignment) in
    let start = r.1.state.heap.start in
    (
      thread,
      record (r.1) {
        mem =
            store objptr_size
              (store objptr_size
                (store 8 (store 8 r.1.mem thread 0) (add_size thread thread_exn_stack_offset)
                  bogus_exn_stack)
                (add_size thread thread_stack_offset) (pointer_to_objptr native64 s.0 start))
              (add_size s.0 stack_thread_offset) (pointer_to_objptr native64 thread start);
      },
    )

-- What newThread asks the collector for.
unfoldable pub thread_bytes : ℕ → ℕ → ℕ
unfolding sizeof_thread align_with_extra
thread_bytes alignment reserved =
    add_size
      (add_size (add_size header_size sizeof_stack_struct)
        (align_with_extra alignment reserved (add_size header_size sizeof_stack_struct)))
      (sizeof_thread alignment)

-- `ensure` is ensureHasHeapBytesFreeAndOrInvariantForMutator.
unfoldable pub new_thread : ℕ → (ℕ → Machine → Machine) → ℕ → Machine → ℕ × Machine
unfolding make_thread thread_bytes
new_thread alignment ensure reserved m =
    make_thread alignment reserved (ensure (thread_bytes alignment reserved) m)

-- setFrontier and setSharedFrontier
unfoldable pub set_frontier : ℕ → ℕ → Machine → Machine
unfolding align_frontier
set_frontier alignment p m =
    let p' = align_frontier alignment p in
    record m {
      bytes_allocated = add_size m.bytes_allocated (sub_size p' m.state.frontier);
      state = record (m.state) { frontier = p' };
    }

unfoldable pub set_shared_frontier : ℕ → ℕ → Machine → Machine
unfolding align_frontier
set_shared_frontier alignment p m =
    let p' = align_frontier alignment p in
    record m {
      bytes_allocated = add_size m.bytes_allocated (sub_size p' m.state.shared_frontier);
      state = record (m.state) { shared_frontier = p' };
    }

-- GC_weakCanGet, GC_weakGet and GC_weakNew
unfoldable pub weak_can_get : Memory → ℕ → Bool
unfolding get_header build_header_from_type_index
weak_can_get mem p = not (build_header_from_type_index weak_gone_type_index == get_header mem p)

unfoldable pub weak_get : ℕ → Machine → ℕ → ℕ
unfolding offsetof_weak load objptr_to_pointer
weak_get alignment m p =
    objptr_to_pointer native64
      (load objptr_size m.mem (add_size (add_size p (offsetof_weak alignment)) weak_objptr_offset))
      m.state.heap.start

unfoldable pub weak_new : ℕ → ℕ → ℕ → Machine → ℕ × Machine
unfolding new_object sizeof_weak offsetof_weak store pointer_to_objptr
weak_new alignment header p m =
    let r = new_object header (sizeof_weak alignment) false m in
    let weak = add_size r.0 (offsetof_weak alignment) in
    (
      r.0,
      record (r.1) {
        mem =
            store objptr_size r.1.mem (add_size weak weak_objptr_offset)
              (pointer_to_objptr native64 p r.1.state.heap.start);
      },
    )
