-- ===== src/Heap/Types.antt =====
-- A heap, and what the code asks of the operating system (runtime/gc/heap.h).
use multi_mlton.Prelude.{ℕ, Bool, Option, ◌==◌}

pub data HeapKind : Type 0 where
  local_heap : HeapKind
  shared_heap : HeapKind

-- `struct GC_heap`; the null pointer is 0.
pub record Heap : Type 0 where
  pub kind : HeapKind
  pub nursery : ℕ
  pub old_gen_size : ℕ
  pub size : ℕ
  pub start : ℕ
  pub with_maps_size : ℕ
  pub available_size : ℕ
  pub frontier : ℕ

-- The memory calls of the operating system, over a state of its own: a call may be refused at one
-- time and granted at another. `none` is the answer (void*)-1.
pub record Os : Type 1 where
  pub State : Type 0
  pub mmap_anon : State → ℕ → ℕ → Option ℕ × State
  pub mremap : State → ℕ → ℕ → ℕ → Option ℕ × State
  pub munmap : State → ℕ → ℕ → State

-- `s->mutatorMarksCards`, `s->sysvals.pageSize`, ADDRESS_BITS (below POINTER_BITS, which is 64), and
-- HAS_REMAP.
pub record Platform : Type 0 where
  pub marks_cards : Bool
  pub page_size : ℕ
  pub address_bits : ℕ
  pub has_remap : Bool

-- The high-water marks of `s->cumulativeStatistics`.
pub record Statistics : Type 0 where
  pub max_heap_size : ℕ
  pub max_shared_heap_size : ℕ

unfoldable pub init_heap : HeapKind → Heap
init_heap kind = record {
  kind = kind;
  nursery = 0;
  old_gen_size = 0;
  size = 0;
  start = 0;
  with_maps_size = 0;
  available_size = 0;
  frontier = 0;
}

unfoldable pub is_heap_init : Heap → Bool
is_heap_init h = 0 == h.size
