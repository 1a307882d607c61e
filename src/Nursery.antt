-- ===== src/Nursery.antt =====
-- runtime/gc/gc_state.c: setGCStateCurrentLocalHeap, which lays out the nursery after a collection. The
-- two conditions on ratios, which are floats, are parameters: `worth` on the size of the nursery, and
-- `reason`. `die` is `none`.
pub mod Layout
mod Tests
use multi_mlton.Prelude.{
  ℕ, ◌+◌, ◌-◌, ◌*◌, ◌/◌, ◌^◌, Bool, true, false, ◌&&◌, leb, if◌then◌else◌, Option, none, some,
}
use multi_mlton.Align.{add_size, sub_size, align_frontier}
use multi_mlton.CardMap.{Memory, GenerationalMaps, clear_card_map}
use multi_mlton.Heap.Types.{Heap}
use multi_mlton.Heap.Predicates.{GcState}
use multi_mlton.Signals.{heap_limit_slop}

-- The fields of a processor's GC state that change, with memory.
pub record Mutator : Type 0 where
  pub state : GcState
  pub local_heap_start : ℕ
  pub limit : ℕ
  pub start : ℕ
  pub session_start : ℕ
  pub maps : GenerationalMaps
  pub mem : Memory

-- The heap with its nursery, and the frontier at the start of it.
unfoldable pub place_nursery : ℕ → Bool → Mutator → Mutator
place_nursery nursery can_minor s =
    let h = s.state.heap in
    let limit_plus_slop = add_size h.start h.size in
    record s {
      state = record (s.state) {
        heap = record h { available_size = h.size; nursery = nursery; frontier = limit_plus_slop };
        limit_plus_slop = limit_plus_slop;
        can_minor = can_minor;
        frontier = nursery;
      };
      local_heap_start = h.start;
      limit = sub_size limit_plus_slop heap_limit_slop;
      start = nursery;
      session_start = nursery;
    }

module _ (alignment : ℕ) (marks : Bool) (worth : ℕ → Bool) (reason : Bool) where
  unfoldable pub set_gc_state_current_local_heap : ℕ → ℕ → Mutator → Option Mutator
  unfolding place_nursery align_frontier clear_card_map
  set_gc_state_current_local_heap old_gen_bytes nursery_bytes s =
      let h = s.state.heap in
      let limit_plus_slop = add_size h.start h.size in
      let nursery_size = sub_size h.size (add_size h.old_gen_size old_gen_bytes) in
      let nursery = sub_size limit_plus_slop nursery_size in
      let gen_nursery = align_frontier alignment (sub_size limit_plus_slop (nursery_size / 2)) in
      let gen_nursery_size = sub_size limit_plus_slop gen_nursery in
      if marks && leb nursery_bytes gen_nursery_size && worth nursery_size && reason
      then some (place_nursery gen_nursery true (record s { mem = clear_card_map s.maps s.mem }))
      else (if leb nursery_bytes nursery_size then some (place_nursery nursery false s) else none)
