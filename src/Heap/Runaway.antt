-- ===== src/Heap/Runaway.antt =====
-- The backing-off loop where the step is larger than the least size: `newSize - backoff` wraps, and
-- a system that refuses is asked for ever larger sizes than the address space holds.
use multi_mlton.Prelude.{
  ℕ, zero, suc, ◌+◌, ◌-◌, ◌*◌, ◌≤◌, ◌<◌, ◌≡◌, refl, true, Option, none, ltb, leb, if◌then◌else◌,
  arith, dec_lt,
}
use multi_mlton.Align.{size_mod, sub_size}
use multi_mlton.Heap.Alloc.{out_of_fuel, next_size, retry}

module _ (backoff least size : ℕ) (small : least < backoff) (lt : size < size_mod) where
  next_wraps :
      least ≤ size
      → size < backoff
      → backoff ≤ size_mod
      → next_size backoff least size ≡ size_mod + size - backoff
  unfolding next_size
  next_wraps h k b =
      let e : sub_size size backoff ≡ size_mod + size - backoff = omega arith in rw e (ground arith)

  next_falls :
      backoff ≤ size
      → next_size backoff least size
        ≡ (if ltb (size - backoff) least then least else size - backoff)
  unfolding next_size
  next_falls h = let e : sub_size size backoff ≡ size - backoff = omega arith in rw e (ground arith)

module _ {State : Type 0} (try : State → ℕ → Option ℕ × State) (backoff least : ℕ)
    (refusing : (st : State) (size : ℕ) → (try st size).0 ≡ none) where
  refused_round :
      (fuel : ℕ) (st : State) (size : ℕ)
      → leb least (next_size backoff least size) ≡ true
      → retry try backoff least (suc fuel) st size
        ≡ retry try backoff least fuel (try st size).1 (next_size backoff least size)
  unfolding retry
  refused_round fuel st size more = rw (retry, refusing st size, more)

  -- Far above the least size the loop goes down a step a round.
  runs_down :
      (fuel : ℕ) (st : State) (size : ℕ)
      → least < backoff
      → size < size_mod
      → least + fuel * backoff ≤ size
      → (retry try backoff least fuel st size).0 ≡ out_of_fuel
  unfolding retry
  runs_down zero st size s lt h = refl
  runs_down (suc fuel) st size s lt h =
      let e : next_size backoff least size ≡ size - backoff =
        ground (arith, next_falls backoff least size s lt) in
      rw (refused_round fuel st size (rw e (ground arith)), e)
        (runs_down fuel (try st size).1 (size - backoff) s (omega arith) (omega arith))

  -- If every request is refused and the step exceeds the least size, the loop of createHeap that is
  -- to give up has not ended after any number of rounds below 2^64 divided by the step, from any
  -- size between the least one and 2^64.
  pub retry_runaway :
      (fuel : ℕ) (st : State) (size : ℕ)
      → least < backoff
      → least ≤ size
      → size < size_mod
      → fuel * backoff + backoff ≤ size_mod
      → (retry try backoff least fuel st size).0 ≡ out_of_fuel
  unfolding retry
  retry_runaway zero st size s le lt b = refl
  retry_runaway (suc fuel) st size s le lt b = elim (dec_lt size backoff) [
    | yes k ↦
        let e = next_wraps backoff least size s lt le k (omega arith) in
        rw (refused_round fuel st size (rw e (ground arith)), e)
          (runs_down fuel (try st size).1 (size_mod + size - backoff) s (omega arith) (omega arith))
    | no k ↦
        let e = next_falls backoff least size s lt (omega arith) in
        rw (refused_round fuel st size (ground (arith, e))) (
          retry_runaway fuel (try st size).1 (next_size backoff least size) s (ground (arith, e))
            (ground (arith, e)) (omega arith))
  ]
