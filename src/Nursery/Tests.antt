-- ===== src/Nursery/Tests.antt =====
-- A heap of 8192 bytes at 4096, with 1024 bytes in its old generation.
use multi_mlton.Prelude.{ℕ, ◌+◌, ◌-◌, ◌≤◌, ◌<◌, ◌≡◌, refl, Bool, true, false, some, none, arith}
use multi_mlton.Align.{is_aligned, is_frontier_aligned}
use multi_mlton.Heap.Types.{Heap, local_heap, shared_heap}
use multi_mlton.Nursery.{Mutator, set_gc_state_current_local_heap}
use multi_mlton.Nursery.Layout.{Layable, IsLaidOut, set_gc_state_current_local_heap_lem}

abbrev heap : Heap
heap = record {
  kind = local_heap;
  nursery = 0;
  old_gen_size = 1024;
  size = 8192;
  start = 4096;
  with_maps_size = 8192;
  available_size = 0;
  frontier = 0;
}

abbrev mutator : Mutator
mutator = record {
  state = record {
    heap = heap;
    shared_heap = record heap { kind = shared_heap; start = 65536 };
    frontier = 0;
    limit_plus_slop = 0;
    shared_frontier = 65536;
    shared_limit_plus_slop = 65536;
    can_minor = false;
  };
  local_heap_start = 0;
  limit = 0;
  start = 0;
  session_start = 0;
  maps = record {
    card_map = 12288;
    card_map_absolute = 12272;
    card_map_length = 32;
    cross_map = 16384;
    cross_map_length = 32;
    cross_map_valid_size = 0;
  };
  mem = λ a. 0;
}

always : ℕ → Bool
always n = true

heap_Layable : Layable 8 (1024 + 64) heap
unfolding is_frontier_aligned is_aligned
heap_Layable = record {
  pow = (3, refl, omega arith);
  inside = omega arith;
  taken = omega arith;
  low_aligned = refl;
  high_aligned = refl;
}

set_gc_state_current_local_heap_lem_example :
    (512 ≤ 8192 - (1024 + 64)
      → (s' : Mutator) × (set_gc_state_current_local_heap 8 true always true 64 512 mutator
          ≡ some s')
        × IsLaidOut 8 64 512 mutator s')
    × (8192 - (1024 + 64) < 512
        → set_gc_state_current_local_heap 8 true always true 64 512 mutator ≡ none)
set_gc_state_current_local_heap_lem_example =
    set_gc_state_current_local_heap_lem 8 64 512 mutator heap_Layable true always true
