-- ===== src/Heap/Alloc.antt =====
-- createHeap, createHeapSecondary, createSharedHeapSecondary and remapHeap of runtime/gc/heap.c.
-- The two backing-off loops are one function over what is tried at each size.
use multi_mlton.Prelude.{
  ℕ, zero, suc, ◌+◌, ◌-◌, ◌/◌, ◌^◌, Bool, true, false, not, ◌&&◌, ◌||◌, Option, none, some, ◌==◌,
  ltb, leb, if◌then◌else◌,
}
use multi_mlton.Align.{add_size, sub_size, mul_size, align}
use multi_mlton.CardMap.{sizeof_card_map_and_cross_map}
use multi_mlton.Heap.Types.{Heap, Os, Platform, Statistics}

-- How a loop ends. `out_of_fuel` is no end of the loop: the model stopped counting rounds.
pub data Outcome : Type 0 where
  made : (start size : ℕ) → Outcome
  failed : Outcome
  out_of_fuel : Outcome

-- The size after a refusal of `size`. The subtraction is of `size_t`.
unfoldable pub next_size : ℕ → ℕ → ℕ → ℕ
next_size backoff min_size size =
    let next = sub_size size backoff in
    if ltb next min_size && ltb min_size size then min_size else next

module _ {State : Type 0} (try : State → ℕ → Option ℕ × State) (backoff min_size : ℕ) where
  -- `do { ... } while (newSize >= minSize)`
  unfoldable pub retry : ℕ → State → ℕ → Outcome × State
  retry zero st size = (out_of_fuel, st)
  retry (suc fuel) st size =
      let (answer, st') = try st size in
      let size' = next_size backoff min_size size in
      let again = retry fuel st' size' in
      elim answer [
        | some start ↦ (made start size, st')
        | none ↦ if leb min_size size' then again else (failed, st')
      ]

-- The backing-off step: a sixteenth of the distance, but a page at least.
unfoldable pub backoff_of : ℕ → ℕ → ℕ → ℕ
backoff_of page desired_size min_size =
    let sixteenth = sub_size desired_size min_size / 16 in
    align (if 0 == sixteenth then 1 else sixteenth) page

module _ (os : Os) (pf : Platform) where
  open os use {State, mmap_anon, mremap}

  abbrev pub with_maps : ℕ → ℕ
  with_maps size = add_size size (sizeof_card_map_and_cross_map pf.marks_cards pf.page_size size)

  -- The address of the i-th of the 32 attempts: they come down from the top of the address space,
  -- and the last is 0. `direction` stays TRUE until an attempt succeeds.
  unfoldable pub probe_address : ℕ → ℕ
  probe_address i =
      if i == 32
      then 0
      else sub_size (if pf.address_bits == 64 then 0 else 2 ^ pf.address_bits)
          (mul_size i (2 ^ (pf.address_bits - 5)))

  unfoldable pub probe : ℕ → ℕ → State → ℕ → Option ℕ × State
  probe zero i st size = (none, st)
  probe (suc left) i st size =
      let (answer, st') = mmap_anon st (probe_address i) (with_maps size) in
      let rest = probe left (i + 1) st' size in
      elim answer [ some start ↦ (some start, st') | none ↦ rest ]

  -- What createHeap and remapHeap do with the answer: fields of the heap and the high-water marks.
  unfoldable pub placed : Bool → Heap → ℕ → ℕ → Statistics → Heap × Statistics
  placed is_shared h start size stats = (
    record h { start = start; size = size; with_maps_size = with_maps size },
    if not is_shared
        then (if ltb stats.max_heap_size size then record stats { max_heap_size = size } else stats)
        else (if ltb stats.max_shared_heap_size size
            then record stats { max_shared_heap_size = size }
            else stats),
  )

  abbrev pub settle : Bool → Heap → Statistics → Outcome → Option (Bool × Heap × Statistics)
  settle is_shared h stats (made start size) =
      let (h', stats') = placed is_shared h start size stats in some (true, h', stats')
  settle is_shared h stats failed = some (false, h, stats)
  settle is_shared h stats out_of_fuel = none

  -- createHeap (s, h, desiredSize, minSize). `is_shared`: h is one of the two shared heaps.
  unfoldable pub create_heap :
      ℕ → State → Bool → Heap → Statistics → ℕ → ℕ → Option (Bool × Heap × Statistics) × State
  create_heap fuel st is_shared h stats desired_size min_size =
      let desired =
        align (if ltb desired_size min_size then min_size else desired_size) pf.page_size in
      let least = align min_size pf.page_size in
      let (outcome, st') =
        retry (probe 32 1) (backoff_of pf.page_size desired least) least fuel st desired in
      (settle is_shared h stats outcome, st')

  -- createHeapSecondary and createSharedHeapSecondary: `primary` is the heap beside which the new
  -- one is to stand, `max_heap` is maxHeapLocal or maxHeapShared.
  unfoldable pub create_heap_secondary :
      ℕ
      → State
      → Bool
      → (fixed_heap max_heap : ℕ) (primary secondary : Heap) → Statistics
      → ℕ
      → Option (Bool × Heap × Statistics) × State
  create_heap_secondary fuel st is_shared fixed_heap max_heap primary secondary stats desired_size =
      if (ltb 0 fixed_heap && ltb fixed_heap (add_size primary.size desired_size))
        || (ltb 0 max_heap && ltb max_heap (add_size primary.size desired_size))
      then (some (false, secondary, stats), st)
      else create_heap fuel st is_shared secondary stats desired_size primary.old_gen_size

  -- remapHeap (s, h, desiredSize, minSize)
  unfoldable pub remap_heap :
      ℕ → State → Bool → Heap → Statistics → ℕ → ℕ → Option (Bool × Heap × Statistics) × State
  remap_heap fuel st is_shared h stats desired_size min_size =
      if not pf.has_remap
      then (some (false, h, stats), st)
      else (let desired = align desired_size pf.page_size in
          let least = align min_size pf.page_size in
          let (outcome, st') =
            retry (λ st size. mremap st h.start (with_maps h.size) (with_maps size))
              (backoff_of pf.page_size desired least) least fuel st desired in
          (settle is_shared h stats outcome, st'))
