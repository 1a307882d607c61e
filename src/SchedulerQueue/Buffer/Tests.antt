-- ===== src/SchedulerQueue/Buffer/Tests.antt =====
-- A small buffer that has gone round, and the theorems at it.
use multi_mlton.Prelude.{
  ℕ, ◌*◌, ◌/◌, ◌≡◌, refl, true, some, List, [], ◌∷◌, map, arith, replicate, length,
  length-replicate,
}
use multi_mlton.SchedulerQueue.Buffer.{CircularBuffer, Malloc, IsMalloc, is_full, count, walk}
use multi_mlton.SchedulerQueue.Buffer.Inv.{IsValid, distance, count-eq-distance}
use multi_mlton.SchedulerQueue.Buffer.Refine.{contents}
use multi_mlton.SchedulerQueue.Buffer.Walk.{walk_lem}

-- 5 and 6 at the end of the array, 7 at its start; one slot stays free.
abbrev pub wrapped : CircularBuffer
wrapped = record { write_pointer = 1; read_pointer = 2; size = 4; keys = 7 ∷ 0 ∷ 5 ∷ 6 ∷ [] }

abbrev pub half : CircularBuffer
half = record { write_pointer = 0; read_pointer = 2; size = 4; keys = 0 ∷ 0 ∷ 5 ∷ 6 ∷ [] }

pub wrapped-IsValid : IsValid wrapped
wrapped-IsValid = record {
  positive = omega arith;
  small = omega arith;
  power = (2, refl, omega arith);
  write_in = omega arith;
  read_in = omega arith;
  storage = omega arith;
}

pub half-IsValid : IsValid half
half-IsValid = record {
  positive = omega arith;
  small = omega arith;
  power = (2, refl, omega arith);
  write_in = omega arith;
  read_in = omega arith;
  storage = omega arith;
}

-- An allocator that always has memory, filled with zeros.
abbrev pub plenty : Malloc
plenty n = some (replicate (n / 8) 0)

pub plenty-IsMalloc : IsMalloc plenty
plenty-IsMalloc n ks e = omega (arith, some_length (n / 8) ks e)
  where
    some_length : (k : ℕ) (ks : List ℕ) → some (replicate k 0) ≡ some ks → length ks ≡ k
    some_length k ks e = grind (arith, length-replicate)

wrapped-is_full : is_full wrapped ≡ true
unfolding is_full
wrapped-is_full = refl

contents-wrapped : contents wrapped ≡ 5 ∷ 6 ∷ 7 ∷ []
contents-wrapped = refl

count-wrapped : count wrapped ≡ 3
unfolding count
count-wrapped = refl

count-eq-distance_example : count wrapped ≡ distance wrapped
count-eq-distance_example = count-eq-distance wrapped-IsValid

walk_lem_example :
    (b : CircularBuffer) × (walk (λ k. k * 2) 4 2 wrapped ≡ some b)
    × IsValid b
    × (contents b ≡ map (λ k. k * 2) (5 ∷ 6 ∷ 7 ∷ []))
walk_lem_example = walk_lem (λ k. k * 2) wrapped-IsValid
