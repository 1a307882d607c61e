-- ===== src/Heap/Grow.antt =====
-- growHeap and resizeHeap of runtime/gc/heap.c. Paging to disk is a write and a read of the live
-- bytes around the new allocation; the disk is assumed to give back what it was given.
use multi_mlton.Prelude.{ℕ, ◌/◌, Bool, true, false, not, none, some, List, [], leb, if◌then◌else◌}
use multi_mlton.Align.{add_size}
use multi_mlton.Heap.Types.{Heap, Os, Platform, Statistics, init_heap}
use multi_mlton.Heap.Alloc.{create_heap, remap_heap}
use multi_mlton.Heap.Shrink.{Move, release_heap, shrink_heap, copy_down}

-- How growHeap ends: with the heap, the moves of its contents, and whether these went through the
-- disk; or in `die`. The last is the model's, when it stops counting rounds.
pub data Growth : Type 0 where
  grown : (heap : Heap) (stats : Statistics) (moves : List Move) (paged : Bool) → Growth
  died : Growth
  out_of_fuel : Growth

module _ (os : Os) (pf : Platform) (fuel copy_fuel : ℕ) (is_shared may_page : Bool) where
  open os use {State}

  -- The branch for a heap that cannot stay: through the disk, if that is allowed.
  unfoldable pub page_heap : State → Heap → Statistics → ℕ → ℕ → ℕ → Growth × State
  page_heap st cur stats live desired_size min_size =
      let (released, st') = release_heap os pf st cur in
      let (made, st'') =
        create_heap os pf fuel st' is_shared released stats desired_size min_size in
      if not may_page then (died, st) else elim made [
        | none ↦ (out_of_fuel, st'')
        | some (ok, h, stats') ↦
            (if ok
              then (grown (record h { old_gen_size = live }) stats' [] true, st'')
              else (died, st''))
      ]

  -- After createHeap: `new` holds the memory for the contents of `cur`. createHeap was given the
  -- address of a local variable, so that it counted the new heap as a local one.
  unfoldable pub move_heap : State → Heap → Heap → Statistics → ℕ → Growth × State
  move_heap st cur new stats live =
      let (cur', st') = shrink_heap os pf st cur live in
      let copied =
        copy_down os pf copy_fuel st' cur' new.start (add_size cur.start live)
          (add_size new.start live) live in
      elim copied [
        | none ↦ (out_of_fuel, st')
        | some (moves, gone, st'') ↦
            (grown (record new { old_gen_size = live }) stats moves false, st'')
      ]

  -- The part of growHeap after remapHeap was refused.
  unfoldable pub replace_heap : State → Heap → Statistics → Bool → ℕ → ℕ → Growth × State
  replace_heap st h stats use_current desired_size min_size =
      let live = h.old_gen_size in
      let (cur, st') = if not use_current then shrink_heap os pf st h live else (h, st) in
      let (made, st'') =
        create_heap os pf fuel st' false (init_heap cur.kind) stats desired_size min_size in
      elim made [
        | none ↦ (out_of_fuel, st'')
        | some (ok, new, stats') ↦
            (if ok
              then move_heap st'' cur new stats' live
              else (if use_current
                  then (grown cur stats' [] false, st'')
                  else page_heap st'' cur stats' live desired_size min_size))
      ]

  unfoldable pub grow_heap : State → Heap → Statistics → ℕ → ℕ → Growth × State
  grow_heap st h stats desired_size min_size =
      let use_current = leb min_size h.size in
      let least = if use_current then add_size (desired_size / 2) (h.size / 2) else min_size in
      let (remapped, st') = remap_heap os pf fuel st is_shared h stats desired_size least in
      elim remapped [
        | none ↦ (out_of_fuel, st')
        | some (ok, h', stats') ↦
            (if ok
              then (grown h' stats' [] false, st')
              else replace_heap st' h' stats' use_current desired_size least)
      ]

  -- resizeHeap, given the size that sizeofHeapDesired answered. The secondary heap is released
  -- before growing.
  unfoldable pub resize_heap : State → Heap → Heap → Statistics → ℕ → ℕ → (Growth × Heap) × State
  resize_heap st h secondary stats desired_size min_size =
      let (shrunk, st') = shrink_heap os pf st h desired_size in
      let (released, st'') = release_heap os pf st secondary in
      let (result, st3) = grow_heap st'' h stats desired_size min_size in
      if leb desired_size h.size
      then ((grown shrunk stats [] false, secondary), st')
      else ((result, released), st3)
