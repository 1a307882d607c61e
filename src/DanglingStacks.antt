-- ===== src/DanglingStacks.antt =====
-- runtime/gc/stack.c: the list of dangling stacks of a processor, an array of object pointers that
-- doubles when it is full. The counts are `int32_t`; their overflow is undefined in the source and
-- answers `none`. `realloc` is a parameter, and so is the pointer to the thread of a stack after
-- fixFwdObjptr; a failed assertion on it is `none`.
pub mod Loops
pub mod Refine
mod Tests
use multi_mlton.Prelude.{
  ℕ, zero, suc, ◌+◌, ◌-◌, ◌*◌, ◌≤◌, ◌≡◌, Bool, true, false, not, ◌==◌, ◌^◌, ltb, leb, if◌then◌else◌,
  Option, none, some, List, [], ◌∷◌, length, get_or, set, take, replicate,
}
use multi_mlton.Objptr.{native64, is_objptr}
use multi_mlton.Heap.Types.{Heap}
use multi_mlton.Heap.Predicates.{is_pointer_in_heap}

-- danglingStackList, danglingStackListSize and danglingStackListMaxSize.
pub record DanglingStacks : Type 0 where
  pub items : List ℕ
  pub size : ℕ
  pub max_size : ℕ

-- `realloc` of an array to n elements.
abbrev pub Realloc : Type 0
Realloc = List ℕ → ℕ → Option (List ℕ)

-- The documented behaviour: the new block has the elements asked for, and the old ones are kept.
abbrev pub IsRealloc : Realloc → Type 0
IsRealloc realloc =
    (xs ys : List ℕ) (n : ℕ)
    → realloc xs n ≡ some ys
    → (length ys ≡ n) × ((k : ℕ) → k ≤ length xs → k ≤ n → take k ys ≡ take k xs)

-- clearDanglingStackList
unfoldable pub clear : DanglingStacks → DanglingStacks
clear d = record d { size = 0 }

-- addToDanglingStackList
module _ (realloc : Realloc) where
  unfoldable pub add : DanglingStacks → ℕ → Option DanglingStacks
  add d op =
      let size = suc d.size in
      let max_size = d.max_size * 2 in
      let grown : Option DanglingStacks = elim (realloc d.items max_size) [
        | none ↦ none
        | some items ↦
            some (record { items = set items (size - 1) op; size = size; max_size = max_size })
      ] in
      if leb (2 ^ 31) size
      then none
      else (if ltb d.max_size size
          then (if leb (2 ^ 31) max_size then none else grown)
          else some
              (record { items = set d.items (size - 1) op; size = size; max_size = d.max_size }))

-- The loops run from index i on, over n more elements.
unfoldable pub foreach_from : (ℕ → ℕ) → ℕ → ℕ → List ℕ → List ℕ
foreach_from f zero i items = items
foreach_from f (suc n) i items =
    let op = get_or items i 0 in
    foreach_from f n (suc i) (set items i (if is_objptr native64 op then f op else op))

-- foreachObjptrInDanglingStackList, with callIfIsObjptr
unfoldable pub foreach_objptr : (ℕ → ℕ) → DanglingStacks → DanglingStacks
unfolding foreach_from
foreach_objptr f d = record d { items = foreach_from f d.size 0 d.items }

unfoldable pub update_from : ℕ → ℕ → List ℕ → ℕ → ℕ → Bool × List ℕ
update_from zero i items old new = (false, items)
update_from (suc n) i items old new =
    let rest = update_from n (suc i) items old new in
    if get_or items i 0 == old then (true, set items i new) else rest

-- updateStackIfDangling
unfoldable pub update_if_dangling : DanglingStacks → ℕ → ℕ → Bool × DanglingStacks
unfolding update_from
update_if_dangling d old new =
    let r = update_from d.size 0 d.items old new in (r.0, record d { items = r.1 })

unfoldable pub is_in_from : ℕ → ℕ → List ℕ → ℕ → Bool
is_in_from zero i items p = false
is_in_from (suc n) i items p =
    let rest = is_in_from n (suc i) items p in if get_or items i 0 == p then true else rest

-- isInDanglingStackList
unfoldable pub is_in : DanglingStacks → ℕ → Bool
unfolding is_in_from
is_in d p = is_in_from d.size 0 d.items p

-- `thread_of` gives the thread that a stack belongs to, as a pointer, once forwarding is followed.
module _ (h : Heap) (thread_of : ℕ → ℕ) where
  unfoldable pub refresh_from : ℕ → ℕ → List ℕ → ℕ → List ℕ → ℕ × List ℕ
  refresh_from zero i items count new = (count, new)
  refresh_from (suc n) i items count new =
      let op = get_or items i 0 in
      let kept = refresh_from n (suc i) items (suc count) (set new count op) in
      let dropped = refresh_from n (suc i) items count new in
      if not (is_pointer_in_heap h (thread_of op)) then kept else dropped

  -- refreshDanglingStackList; the fresh array holds zeroes here.
  unfoldable pub refresh : DanglingStacks → DanglingStacks
  unfolding refresh_from
  refresh d =
      let r = refresh_from d.size 0 d.items 0 (replicate d.max_size 0) in
      record d { items = r.1; size = r.0 }
