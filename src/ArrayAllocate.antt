-- ===== src/ArrayAllocate.antt =====
-- runtime/gc/array-allocate.c: GC_arrayAllocate, on a GC state and a memory of bytes. The two
-- collections that it may ask for (performGC and ensureHasHeapBytesFreeAndOrInvariantForMutator) are
-- the parameter `collect`; profiling, debugging output and the entering and leaving of the runtime
-- are left out. `die` is `none`.
pub mod Sizes
mod Tests
use multi_mlton.Prelude.{
  ℕ, zero, suc, ◌+◌, ◌-◌, ◌*◌, ◌/◌, ◌%◌, ◌^◌, Bool, not, ◌&&◌, ◌==◌, ltb, leb, if◌then◌else◌,
  Option, none, some, List,
}
use multi_mlton.Align.{size_mod, add_size, sub_size, mul_size, align, align_max}
use multi_mlton.CardMap.{Memory}
use multi_mlton.Objptr.{bogus_objptr}
use multi_mlton.Object.{
  ObjectType, objptr_size, header_size, array_header_size, array_length_size, array_counter_size,
  split_header,
}
use multi_mlton.ObjectSize.{element_bytes}
use multi_mlton.Heap.Types.{Heap, local_heap}
use multi_mlton.Heap.Predicates.{GcState, has_heap_bytes_free}

-- A little-endian word of n bytes, written at p.
unfoldable pub store : ℕ → Memory → ℕ → ℕ → Memory
store zero mem p v = mem
store (suc n) mem p v =
    let rest = store n mem (add_size p 1) (v / 256) in λ a. if a == p then v % 256 else rest a

-- The computation of arraySize and arraySizeAligned.
unfoldable pub array_sizes : ℕ → ObjectType → ℕ → Option (ℕ × ℕ)
unfolding element_bytes
array_sizes alignment t num_elements =
    let array_size_max = add_size (mul_size (element_bytes t) num_elements) array_header_size in
    let array_size_aligned_max = align_max array_size_max alignment in
    if leb (size_mod - 1) array_size_aligned_max
    then none
    else (if ltb array_size_aligned_max (array_header_size + objptr_size)
        then some (array_header_size, align (array_header_size + objptr_size) alignment)
        else some (array_size_max, array_size_aligned_max))

-- `for (p = frontier; p < last; p += OBJPTR_SIZE)`, with fuel for every byte up to `last`.
unfoldable pub fill_objptrs : ℕ → Memory → ℕ → ℕ → Memory
unfolding store
fill_objptrs zero mem p last = mem
fill_objptrs (suc fuel) mem p last =
    let rest =
      fill_objptrs fuel (store objptr_size mem p bogus_objptr) (add_size p objptr_size) last in
    if ltb p last then rest else mem

-- The loop over the elements of an array that mixes pointers and other data.
unfoldable pub fill_mixed : ℕ → ℕ → ℕ → Memory → ℕ → ℕ → Memory
unfolding fill_objptrs
fill_mixed zero non_objptrs objptrs mem p last = mem
fill_mixed (suc fuel) non_objptrs objptrs mem p last =
    let first = add_size p non_objptrs in
    let next = add_size first objptrs in
    let rest =
      fill_mixed fuel non_objptrs objptrs (fill_objptrs objptrs mem first next) next last in
    if ltb p last then rest else mem

-- The initialization of the three words in front of the elements, and of the pointers in them.
unfoldable pub initialize : ObjectType → ℕ → ℕ → ℕ → ℕ → Memory → ℕ × Memory
unfolding store fill_objptrs fill_mixed
initialize t num_elements header frontier array_size mem =
    let last = add_size frontier array_size in
    let mem₁ = store array_counter_size mem frontier 0 in
    let length_at = add_size frontier array_counter_size in
    let mem₂ = store array_length_size mem₁ length_at num_elements in
    let header_at = add_size length_at array_length_size in
    let mem₃ = store header_size mem₂ header_at header in
    let result = add_size header_at header_size in
    (
      result,
      if leb 1 t.num_objptrs && ltb 0 num_elements
          then (if 0 == t.bytes_non_objptrs
              then fill_objptrs array_size mem₃ result last
              else fill_mixed array_size t.bytes_non_objptrs (mul_size t.num_objptrs objptr_size)
                  mem₃ result last)
          else mem₃,
    )

-- `s`, its memory, and the counter `s->cumulativeStatistics->bytesAllocated`.
pub record Machine : Type 0 where
  pub state : GcState
  pub mem : Memory
  pub bytes_allocated : ℕ

module _ (types : List ObjectType) (alignment old_gen_array_size : ℕ)
    (collect : ℕ → ℕ → Machine → Machine) where
  -- The frontier of the allocation, and the machine that has moved it.
  unfoldable pub claim_old_gen : ℕ → ℕ → Machine → ℕ × Machine
  claim_old_gen bytes ensure m =
      let m' =
        if not (has_heap_bytes_free m.state local_heap bytes ensure)
        then collect bytes ensure m
        else m in
      let h = m'.state.heap in
      (
        add_size h.start h.old_gen_size,
        record m' {
          state = record (m'.state) {
            heap = record h { old_gen_size = add_size h.old_gen_size bytes };
          };
          bytes_allocated = add_size m'.bytes_allocated bytes;
        },
      )

  unfoldable pub claim_nursery : ℕ → ℕ → Machine → ℕ × Machine
  claim_nursery bytes ensure m =
      let requested = add_size bytes ensure in
      let m' =
        if not (has_heap_bytes_free m.state local_heap 0 requested)
        then collect 0 requested m
        else m in
      (
        m'.state.frontier,
        record m' { state = record (m'.state) { frontier = add_size m'.state.frontier bytes } },
      )

  -- The outer `none` is a header without a type, the inner one is `die`.
  unfoldable pub array_allocate : ℕ → ℕ → ℕ → Machine → Option (Option (ℕ × Machine))
  unfolding split_header array_sizes claim_old_gen claim_nursery initialize
  array_allocate ensure num_elements header m = elim (split_header types header) [
    | none ↦ none
    | some t ↦ elim (array_sizes alignment t num_elements) [
      | none ↦ some none
      | some (size, aligned) ↦
          (let claimed =
              if leb old_gen_array_size aligned
              then claim_old_gen aligned ensure m
              else claim_nursery aligned ensure m in
            let done = initialize t num_elements header claimed.0 size claimed.1.mem in
            some (some (done.0, record (claimed.1) { mem = done.1 })))
    ]
  ]
