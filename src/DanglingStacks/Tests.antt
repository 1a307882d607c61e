-- ===== src/DanglingStacks/Tests.antt =====
-- A list of two stacks in an array of two.
use multi_mlton.Prelude.{
  ℕ, zero, suc, ap, subst, ◌*◌, ◌≤◌, ◌≡◌, inr, refl, Option, none, some, List, [], ◌∷◌, ◌++◌, arith,
  take, length,
}
use multi_mlton.Objptr.{is_pointer}
use multi_mlton.Heap.Types.{Heap, local_heap}
use multi_mlton.Heap.Predicates.{is_pointer_in_heap}
use multi_mlton.DanglingStacks.{DanglingStacks, Realloc, IsRealloc, add, refresh}
use multi_mlton.DanglingStacks.Refine.{IsValid, contents, add_refines}

abbrev two : DanglingStacks
two = record { items = 16 ∷ 32 ∷ []; size = 2; max_size = 2 }

two-IsValid : IsValid two
two-IsValid = record {
  storage = refl;
  positive = omega arith;
  size_le = omega arith;
  bounded = omega arith;
}

-- The old elements, cut or followed by zeroes.
abbrev resize : List ℕ → ℕ → List ℕ
resize xs zero = []
resize [] (suc n) = 0 ∷ resize [] n
resize (x ∷ xs) (suc n) = x ∷ resize xs n

abbrev realloc : Realloc
realloc xs n = some (resize xs n)

length-resize : (xs : List ℕ) (n : ℕ) → length (resize xs n) ≡ n
length-resize xs zero = refl
length-resize [] (suc n) = ap suc (length-resize [] n)
length-resize (x ∷ xs) (suc n) = ap suc (length-resize xs n)

resize_keeps : (xs : List ℕ) (n k : ℕ) → k ≤ length xs → k ≤ n → take k (resize xs n) ≡ take k xs
resize_keeps xs n zero h g = refl
resize_keeps xs zero (suc k) h g = absurd (omega arith)
resize_keeps [] (suc n) (suc k) h g = absurd (omega arith)
resize_keeps (x ∷ xs) (suc n) (suc k) h g =
    ap (λ (t : List ℕ). x ∷ t) (resize_keeps xs n k (omega arith) (omega arith))

realloc-IsRealloc : IsRealloc realloc
realloc-IsRealloc xs ys n e =
    let same : resize xs n ≡ ys =
      ap (λ (o : Option (List ℕ)). elim o [ none ↦ [] | some zs ↦ zs ]) e in
    subst
      (λ (zs : List ℕ). (length zs ≡ n) × ((k : ℕ) → k ≤ length xs → k ≤ n → take k zs ≡ take k xs))
      same (length-resize xs n, resize_keeps xs n)

add_runs :
    add realloc two 48 ≡ some (record { items = 16 ∷ 32 ∷ 48 ∷ 0 ∷ []; size = 3; max_size = 4 })
unfolding add
add_runs = refl

add_refines_example :
    (d' : DanglingStacks) × (add realloc two 48 ≡ some d')
    × IsValid d'
    × (contents d' ≡ contents two ++ (48 ∷ []))
add_refines_example =
    add_refines realloc-IsRealloc two 48 two-IsValid (inr (omega arith, 16 ∷ 32 ∷ 0 ∷ 0 ∷ [], refl))

-- A local heap from 4096 to 8192; the thread of a stack is at 256 times its object pointer.
abbrev small_heap : Heap
small_heap = record {
  kind = local_heap;
  nursery = 6144;
  old_gen_size = 0;
  size = 4096;
  start = 4096;
  with_maps_size = 4096;
  available_size = 4096;
  frontier = 6144;
}

abbrev thread_of : ℕ → ℕ
thread_of op = op * 256

refresh_runs :
    refresh small_heap thread_of two ≡ record { items = 32 ∷ 0 ∷ []; size = 1; max_size = 2 }
unfolding refresh is_pointer_in_heap is_pointer
refresh_runs = refl
