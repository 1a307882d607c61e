-- ===== src/Heap/Shrink.antt =====
-- releaseHeap, shrinkHeap, growHeap, resizeHeap and the resizing of a secondary heap
-- (runtime/gc/heap.c). What growHeap copies is a list of moves, in their order, each with
-- the size that the old heap had at the time; the translation of the pointers in the moved heap is not part of the model.
use multi_mlton.Prelude.{
  ℕ, zero, suc, Bool, Option, none, some, List, [], ◌∷◌, ◌==◌, ltb, if◌then◌else◌,
}
use multi_mlton.Align.{add_size, sub_size, mul_size, align}
use multi_mlton.Heap.Types.{Heap, Os, Platform, Statistics, init_heap}
use multi_mlton.Heap.Alloc.{with_maps, remap_heap}

-- COPY_CHUNK_SIZE, 32M
abbrev pub copy_chunk_size : ℕ
copy_chunk_size = 0x2000000

-- A GC_memcpy, and the bytes that the old heap still had when it was made.
pub record Move : Type 0 where
  pub from : ℕ
  pub to : ℕ
  pub bytes : ℕ
  pub old_size : ℕ

module _ (os : Os) (pf : Platform) where
  open os use {State, munmap}

  unfoldable pub release_heap : State → Heap → Heap × State
  release_heap st h =
      if 0 == h.start then (h, st) else (init_heap h.kind, munmap st h.start h.with_maps_size)

  unfoldable pub shrink_heap : State → Heap → ℕ → Heap × State
  shrink_heap st h keep_size =
      if 0 == keep_size
      then release_heap st h
      else (let keep = align keep_size pf.page_size in
          let keep_maps = with_maps os pf keep in
          if ltb keep h.size
          then (
            record h { size = keep; with_maps_size = keep_maps },
            munmap st (add_size h.start keep_maps) (sub_size h.with_maps_size keep_maps),
          )
          else (h, st))

  -- The loop at the label `copy`: from the top of the live part down, a chunk at a time, the old
  -- heap giving its memory back behind each copy. The fuel bounds the chunks.
  unfoldable pub copy_down :
      ℕ → State → Heap → (new_start from to remaining : ℕ) → Option (List Move × Heap × State)
  copy_down zero st h new_start from to remaining = none
  copy_down (suc fuel) st h new_start from to remaining =
      let remaining' = sub_size remaining copy_chunk_size in
      let from' = sub_size from copy_chunk_size in
      let to' = sub_size to copy_chunk_size in
      let last : Move = record {
        from = h.start;
        to = new_start;
        bytes = remaining;
        old_size = h.size;
      } in
      let chunk : Move = record {
        from = from';
        to = to';
        bytes = copy_chunk_size;
        old_size = h.size;
      } in
      let released = release_heap st h in
      let shrunk = shrink_heap st h remaining' in
      let more = copy_down fuel shrunk.1 shrunk.0 new_start from' to' remaining' in
      if ltb remaining copy_chunk_size
      then some (last ∷ [], released.0, released.1)
      else elim more [ none ↦ none | some (moves, h', st') ↦ some (chunk ∷ moves, h', st') ]

  -- resizeLocalHeapSecondary and resizeSharedHeapSecondary: the secondary heap follows the size of
  -- the primary one, or is given up. `ram` is `s->sysvals.ram`.
  unfoldable pub resize_heap_secondary :
      ℕ
      → State
      → Bool
      → (ram primary_size : ℕ) → Heap
      → Statistics
      → Option (Heap × Statistics) × State
  resize_heap_secondary fuel st is_shared ram primary_size secondary stats =
      let released = release_heap st secondary in
      let (remapped, st1) =
        remap_heap os pf fuel st is_shared secondary stats primary_size primary_size in
      let shrunk = shrink_heap st secondary primary_size in
      if 0 == secondary.size
      then (some (secondary, stats), st)
      else (if ltb ram (mul_size 2 primary_size)
          then (some (released.0, stats), released.1)
          else (if ltb secondary.size primary_size
              then elim remapped [
                | none ↦ (none, st1)
                | some (done, h, stats') ↦
                    (let gone = release_heap st1 h in
                      if done then (some (h, stats'), st1) else (some (gone.0, stats'), gone.1))
              ]
              else (if ltb primary_size secondary.size
                  then (some (shrunk.0, stats), shrunk.1)
                  else (some (secondary, stats), st))))
