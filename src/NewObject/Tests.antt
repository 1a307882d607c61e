-- ===== src/NewObject/Tests.antt =====
-- A nursery from 4096 to 8192, with the frontier at 4096 + 8, so that objects are aligned to 16.
use multi_mlton.Prelude.{ℕ, ◌+◌, ◌-◌, ◌≤◌, ◌≡◌, ◌==◌, refl, false, true, arith, not}
use multi_mlton.Align.{IsPow2, is_aligned, is_frontier_aligned, align}
use multi_mlton.Object.{get_header, build_header_from_type_index}
use multi_mlton.ArrayAllocate.{Machine}
use multi_mlton.Heap.Types.{Heap, local_heap}
use multi_mlton.Heap.Predicates.{has_heap_bytes_free}
use multi_mlton.NewObject.{
  new_object, new_thread, sizeof_thread, sizeof_weak, weak_new, weak_get, weak_can_get,
  weak_gone_type_index,
}
use multi_mlton.NewObject.Bounds.{new_object_bounds}
use multi_mlton.NewObject.Weak.{weak_get-weak_new}
use multi_mlton.NewObject.Threads.{Linked, new_thread-Linked}

abbrev nursery_heap : Heap
nursery_heap = record {
  kind = local_heap;
  nursery = 4096;
  old_gen_size = 0;
  size = 8192;
  start = 0;
  with_maps_size = 8192;
  available_size = 8192;
  frontier = 4096;
}

abbrev machine : Machine
machine = record {
  state = record {
    heap = nursery_heap;
    shared_heap = nursery_heap;
    frontier = 4104;
    limit_plus_slop = 8192;
    shared_frontier = 0;
    shared_limit_plus_slop = 0;
    can_minor = false;
  };
  mem = λ a. 0;
  bytes_allocated = 0;
}

sixteen : IsPow2 16
sixteen = (4, refl, omega arith)

frontier_aligned : is_frontier_aligned 16 machine.state.frontier ≡ true
unfolding is_frontier_aligned is_aligned
frontier_aligned = refl

bytes_aligned : is_aligned 32 16 ≡ true
unfolding is_aligned
bytes_aligned = refl

room_free : has_heap_bytes_free machine.state local_heap 0 32 ≡ true
unfolding has_heap_bytes_free
room_free = refl

new_object_bounds_example :
    (is_aligned (new_object 7 32 false machine).0 16 ≡ true)
    × (get_header (new_object 7 32 false machine).1.mem (new_object 7 32 false machine).0 ≡ 7)
    × (is_frontier_aligned 16 (new_object 7 32 false machine).1.state.frontier ≡ true)
    × ((new_object 7 32 false machine).0 + (32 - 8)
        ≡ (new_object 7 32 false machine).1.state.frontier)
    × ((new_object 7 32 false machine).1.state.frontier ≤ machine.state.limit_plus_slop)
new_object_bounds_example =
    new_object_bounds 16 7 32 machine sixteen frontier_aligned bytes_aligned (omega arith)
      (omega arith) room_free (omega arith) (omega arith)

weak_size : sizeof_weak 16 ≡ 32
unfolding sizeof_weak align
weak_size = refl

weak_get-weak_new_example :
    (weak_get 16 (weak_new 16 9 4200 machine).1 (weak_new 16 9 4200 machine).0 ≡ 4200)
    × (weak_can_get (weak_new 16 9 4200 machine).1.mem (weak_new 16 9 4200 machine).0
        ≡ not (build_header_from_type_index weak_gone_type_index == 9))
weak_get-weak_new_example =
    weak_get-weak_new 16 9 4200 machine sixteen (omega (arith, weak_size)) (omega arith)
      (omega arith)

thread_size : sizeof_thread 16 ≡ 32
unfolding sizeof_thread align
thread_size = refl

abbrev no_collection : ℕ → Machine → Machine
no_collection n m = m

new_thread-Linked_example :
    Linked
      (4104 + 8)
      104
      0
      (new_thread 16 no_collection 104 machine).0
      (new_thread 16 no_collection 104 machine).1.mem
new_thread-Linked_example =
    new_thread-Linked 16 no_collection 104 machine machine refl sixteen (omega (arith, thread_size))
