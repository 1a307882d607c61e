-- ===== src/SharedChunks.antt =====
-- runtime/gc/garbage-collection.c: allocChunkInSharedHeap, by which processors take chunks of the
-- shared heap from one frontier with compare-and-swap; and the first chunks, which
-- setGCStateCurrentSharedHeap (runtime/gc/gc_state.c) gives them. A pass of the loop of
-- allocChunkInSharedHeap is two steps, the reading of the frontier and the swap; processors take
-- their steps in any order. The collection that is asked for when the heap is full, and the
-- statistics, are left out.
pub mod Disjoint
pub mod Steps
pub mod First
mod Tests
use multi_mlton.Prelude.{
  ℕ, zero, suc, ◌+◌, ◌-◌, ◌^◌, ◌≤◌, ◌<◌, ◌≡◌, ◌==◌, ltb, leb, if◌then◌else◌, Option, none, some,
}
use multi_mlton.Align.{size_mod, add_size, sub_size}
use multi_mlton.CardMap.{Memory}
use multi_mlton.Gap.{bonus_slop, fill_gap}

-- sharedStart, sharedFrontier and sharedLimitPlusSlop of a processor.
pub record Chunk : Type 0 where
  pub start : ℕ
  pub frontier : ℕ
  pub limit_plus_slop : ℕ

-- What one pass of the loop comes to, before its compare-and-swap.
pub data Attempt : Type 0 where
  satisfied : Attempt
  collect : ℕ → Attempt
  exits : Attempt
  swap : (bytes : ℕ) → Chunk → (frontier : ℕ) → Memory → Attempt

-- A new chunk at the frontier, once the rest of the old one has been filled.
unfoldable pub start_chunk : ℕ → ℕ → Option (ℕ × Memory) → Attempt
start_chunk bytes old none = exits
start_chunk bytes old (some (filled, mem)) =
    let far = add_size (add_size old bytes) bonus_slop in
    swap bytes (record { start = old; frontier = old; limit_plus_slop = sub_size far bonus_slop })
      far mem

-- `end` is `s->sharedHeap->start + s->sharedHeap->availableSize`, `old` is oldFrontier.
module _ (alloc_chunk_size end : ℕ) where
  unfoldable pub propose : ℕ → ℕ → Chunk → Memory → Attempt
  unfolding fill_gap start_chunk
  propose bytes old c mem =
      let behind = add_size c.limit_plus_slop bonus_slop in
      let next = add_size (add_size c.frontier bytes) bonus_slop in
      if old == behind
      then swap bytes (record c { limit_plus_slop = sub_size next bonus_slop }) next mem
      else start_chunk bytes old (fill_gap mem c.frontier behind)

  unfoldable pub attempt : ℕ → ℕ → Chunk → Memory → Attempt
  unfolding propose
  attempt requested old c mem =
      let bytes = if ltb requested alloc_chunk_size then alloc_chunk_size else requested in
      if leb requested (sub_size c.limit_plus_slop c.frontier)
      then satisfied
      else (if ltb (sub_size end old) (add_size bytes bonus_slop)
          then collect (add_size bytes bonus_slop)
          else propose bytes old c mem)

-- Where a processor is: not in the function; at the head of the loop; before the compare-and-swap,
-- with what it has computed; or gone to the collector.
pub data Phase : Type 0 where
  idle : Phase
  asking : ℕ → Phase
  swapping : (bytes : ℕ) → Chunk → (frontier old : ℕ) → Phase
  collecting : ℕ → Phase
  exited : Phase

pub record Processor : Type 0 where
  pub chunk : Chunk
  pub phase : Phase

-- `frontier` is `s->sharedHeap->frontier`.
pub record System : Type 0 where
  pub procs : ℕ → Processor
  pub frontier : ℕ
  pub mem : Memory

unfoldable pub put : (ℕ → Processor) → ℕ → Processor → ℕ → Processor
put procs k p j = if j == k then p else procs j

module _ (alloc_chunk_size end : ℕ) where
  unfoldable pub after_attempt : System → ℕ → Chunk → ℕ → Attempt → System
  unfolding put
  after_attempt s k c old satisfied = record s {
    procs = put s.procs k (record { chunk = c; phase = idle });
  }
  after_attempt s k c old (collect bytes) = record s {
    procs = put s.procs k (record { chunk = c; phase = collecting bytes });
  }
  after_attempt s k c old exits = record s {
    procs = put s.procs k (record { chunk = c; phase = exited });
  }
  after_attempt s k c old (swap bytes c' frontier mem) = record s {
    procs = put s.procs k (record { chunk = c; phase = swapping bytes c' frontier old });
    mem = mem;
  }

  -- The next step of processor k in the function.
  unfoldable pub advance : System → ℕ → Chunk → Phase → System
  unfolding put after_attempt attempt
  advance s k c idle = s
  advance s k c (collecting bytes) = s
  advance s k c exited = s
  advance s k c (asking bytes) =
      after_attempt s k c s.frontier (attempt alloc_chunk_size end bytes s.frontier c s.mem)
  advance s k c (swapping bytes c' frontier old) =
      if s.frontier == old
      then record s {
        procs = put s.procs k (record { chunk = c'; phase = idle });
        frontier = frontier;
      }
      else record s { procs = put s.procs k (record { chunk = c; phase = asking bytes }) }

  -- The steps of n processors. Between its calls, a processor allocates in its own chunk.
  pub data Step (n : ℕ) : System → System → Type 0 where
    asks :
        {s : System} (k bytes : ℕ)
        → k < n
        → (s.procs k).phase ≡ idle
        → bytes < 2 ^ 62
        → Step n s (record s {
          procs = put s.procs k (record { chunk = (s.procs k).chunk; phase = asking bytes });
        })
    advances :
        {s : System} (k : ℕ) → k < n → Step n s (advance s k (s.procs k).chunk (s.procs k).phase)
    allocates :
        {s : System} (k bytes : ℕ)
        → k < n
        → (s.procs k).phase ≡ idle
        → (s.procs k).chunk.frontier + bytes ≤ (s.procs k).chunk.limit_plus_slop
        → Step n s (record s {
          procs = put s.procs k (record {
            chunk = record ((s.procs k).chunk) { frontier = (s.procs k).chunk.frontier + bytes };
            phase = idle;
          });
        })

-- The loop of setGCStateCurrentSharedHeap: where the chunk of processor k starts, if `needed` gives
-- the bytes that each processor is to have.
unfoldable pub frontier_of : (ℕ → ℕ) → ℕ → ℕ → ℕ
frontier_of needed nursery zero = nursery
frontier_of needed nursery (suc k) =
    add_size (add_size (frontier_of needed nursery k) (needed k)) bonus_slop

-- The first chunks of n processors.
unfoldable pub lay_out : (ℕ → ℕ) → ℕ → ℕ → Memory → System
unfolding frontier_of
lay_out needed nursery n mem = record {
  procs = λ k. record {
    chunk = record {
      start = frontier_of needed nursery k;
      frontier = frontier_of needed nursery k;
      limit_plus_slop = add_size (frontier_of needed nursery k) (needed k);
    };
    phase = idle;
  };
  frontier = frontier_of needed nursery n;
  mem = mem;
}

-- Where the chunk of processor k starts if no sum wraps.
abbrev pub requested : (ℕ → ℕ) → ℕ → ℕ → ℕ
requested needed nursery zero = nursery
requested needed nursery (suc k) = requested needed nursery k + needed k + bonus_slop

-- The states that n processors reach from their first chunks, if these, with the slop behind each,
-- end within the available part of the heap: `nurseryBytesRequested <= nurserySize`.
module _ (alloc_chunk_size end n : ℕ) where
  pub data Reach : System → Type 0 where
    first :
        (needed : ℕ → ℕ) (nursery : ℕ) (mem : Memory)
        → requested needed nursery n ≤ end
        → Reach (lay_out needed nursery n mem)
    onward : {s s' : System} → Reach s → Step alloc_chunk_size end n s s' → Reach s'
