-- ===== src/SharedChunks/First.antt =====
-- The first chunks, and every state that is reached from them: no two processors have overlapping
-- chunks. And on which addresses the first chunks start.
use multi_mlton.Prelude.{
  ℕ, zero, suc, ◌+◌, ◌-◌, ◌*◌, ◌%◌, ◌^◌, ◌≤◌, ◌<◌, ◌≡◌, ◌≢◌, inl, inr, refl, true, ◌==◌, ltb,
  Bool-cases, not_ltb→le, ltb→lt, arith,
}
use multi_mlton.Align.{add_size, is_aligned, is_frontier_aligned}
use multi_mlton.CardMap.{Memory}
use multi_mlton.Gap.{bonus_slop}
use multi_mlton.SharedChunks.{System, frontier_of, requested, lay_out, Reach, first, onward}
use multi_mlton.SharedChunks.Disjoint.{Disjoint, Laid}
use multi_mlton.SharedChunks.Steps.{Laid-Step}

-- Chunks below 2^32 bytes start where the sums say.
module _ (needed : ℕ → ℕ) (nursery : ℕ) (small : (k : ℕ) → needed k < 2 ^ 32)
    (low : nursery < 2 ^ 62) where
  frontier_of_step :
      (k : ℕ)
      → k < 2 ^ 16
      → (frontier_of needed nursery k < 2 ^ 62 + k * 2 ^ 33)
        × (frontier_of needed nursery (suc k) ≡ frontier_of needed nursery k + needed k + 12)
  unfolding frontier_of
  frontier_of_step zero lt = (omega arith, omega (arith, small 0))
  frontier_of_step (suc k) lt =
      let before = frontier_of_step k (omega arith) in
      let now : frontier_of needed nursery (suc k) < 2 ^ 62 + suc k * 2 ^ 33 =
        omega (arith, before, small k) in
      (now, omega (arith, small (suc k)))

-- The first chunks lie one behind the other, below `end`.
module _ (needed : ℕ → ℕ) (nursery end n : ℕ) (end_small : end < 2 ^ 62)
    (top : requested needed nursery n ≤ end) where
  requested_mono :
      (d j : ℕ) → requested needed nursery (suc j) ≤ requested needed nursery (suc j + d)
  requested_mono zero j = let e : suc j + 0 ≡ suc j = omega arith in rw e (omega arith)
  requested_mono (suc d) j =
      let rest = requested_mono d j in
      let e : suc j + suc d ≡ suc (suc j + d) = omega arith in rw e (omega (arith, rest))

  requested_behind :
      (j k : ℕ)
      → j < k
      → requested needed nursery j + needed j + bonus_slop ≤ requested needed nursery k
  requested_behind j k less =
      let e : suc j + (k - suc j) ≡ k = omega arith in rw e at (requested_mono (k - suc j) j)

  frontier_of_lem : (k : ℕ) → k ≤ n → frontier_of needed nursery k ≡ requested needed nursery k
  unfolding frontier_of
  frontier_of_lem zero le = refl
  frontier_of_lem (suc k) le =
      let before = frontier_of_lem k (omega arith) in
      let room = requested_behind k n (omega arith) in
      rw before (omega (arith, room, top, end_small))

  frontier_of_behind :
      (j k : ℕ)
      → j < k
      → k ≤ n
      → frontier_of needed nursery j + needed j + bonus_slop ≤ frontier_of needed nursery k
  frontier_of_behind j k less le =
      rw (frontier_of_lem j (omega arith), frontier_of_lem k le) (requested_behind j k less)

  first_limit :
      (k : ℕ)
      → k < n
      → add_size (frontier_of needed nursery k) (needed k) ≡ frontier_of needed nursery k + needed k
  first_limit k lt =
      rw (frontier_of_lem k (omega arith)) (omega (arith, requested_behind k n lt, top, end_small))

  Laid-lay_out : (mem : Memory) → Laid end n (lay_out needed nursery n mem)
  unfolding lay_out
  Laid-lay_out mem = record {
    inside = λ k lt. record {
      chunk = rw (first_limit k lt) (omega arith);
      below = rw (first_limit k lt) (frontier_of_behind k n lt (omega arith));
      phase = tt;
    };
    apart = λ j k lj lk differ. elim (Bool-cases (ltb j k)) [
      | inl y ↦ inl (rw (first_limit j lj) (frontier_of_behind j k (ltb→lt j k y) (omega arith)))
      | inr m ↦ inr (
          rw (first_limit k lk)
            (frontier_of_behind k j (after j k (not_ltb→le j k m) differ) (omega arith)))
    ];
    top = rw (frontier_of_lem n (omega arith)) top;
  }
    where
      after : (j k : ℕ) → k ≤ j → j ≢ k → k < j
      after j k le differ = ground arith

module _ (acs end n : ℕ) (acs_small : acs < 2 ^ 62) (end_small : end < 2 ^ 62) where
  Reach-Laid : {s : System} → Reach acs end n s → Laid end n s
  Reach-Laid (first needed nursery mem top) = Laid-lay_out needed nursery end n end_small top mem
  Reach-Laid (onward r t) = Laid-Step acs end acs_small end_small n (Reach-Laid r) t

  -- In every state that processors reach from the chunks that setGCStateCurrentSharedHeap gives
  -- them, if these, with the slop behind each, end within the available part of the heap, by
  -- interleaved steps of allocChunkInSharedHeap and allocation in their chunks, with the sizes
  -- asked for, the size of a chunk and the end of the available part below 2^62: no two processors
  -- have overlapping chunks, and each chunk, with the slop behind it, lies below the frontier of
  -- the shared heap, which does not pass the end of its available part.
  pub chunks-Disjoint :
      {s : System} (j k : ℕ)
      → Reach acs end n s
      → j < n
      → k < n
      → j ≢ k
      → Disjoint (s.procs j).chunk (s.procs k).chunk
        × ((s.procs k).chunk.frontier ≤ (s.procs k).chunk.limit_plus_slop)
        × ((s.procs k).chunk.limit_plus_slop + bonus_slop ≤ s.frontier)
        × (s.frontier ≤ end)
  chunks-Disjoint j k r lj lk differ =
      let l = Reach-Laid r in
      let i = l.inside k lk in (l.apart j k lj lk differ, i.chunk, i.below, l.top)

-- Each chunk starts 12 bytes behind the end of a multiple of 8.
frontier_of_mod :
    (needed : ℕ → ℕ) (nursery : ℕ)
    → ((j : ℕ) → needed j < 2 ^ 32)
    → ((j : ℕ) → needed j % 8 ≡ 0)
    → nursery < 2 ^ 62
    → nursery % 8 ≡ 0
    → (k : ℕ) → k < 2 ^ 16
    → frontier_of needed nursery k % 8 ≡ 4 * (k % 2)
unfolding frontier_of
frontier_of_mod needed nursery small whole low aligned zero lt = omega arith
frontier_of_mod needed nursery small whole low aligned (suc k) lt =
    let before = frontier_of_mod needed nursery small whole low aligned k (omega arith) in
    let bound = frontier_of_step needed nursery small low k (omega arith) in
    omega (arith, before, bound, whole k, small k)

-- If the first chunk starts on a multiple of 8, and each processor is to have a multiple of 8 bytes
-- below 2^32, then the chunk that setGCStateCurrentSharedHeap gives to processor k, for k below
-- 2^16, starts on a frontier that is aligned to 4, but on one that is aligned to 8 only if k is
-- even.
pub chunk_starts_aligned :
    (needed : ℕ → ℕ) (nursery k : ℕ)
    → ((j : ℕ) → needed j < 2 ^ 32)
    → ((j : ℕ) → needed j % 8 ≡ 0)
    → nursery < 2 ^ 62
    → nursery % 8 ≡ 0
    → k < 2 ^ 16
    → (is_frontier_aligned 4 (frontier_of needed nursery k) ≡ true)
      × (is_frontier_aligned 8 (frontier_of needed nursery k) ≡ (k % 2 == 0))
unfolding is_frontier_aligned is_aligned
chunk_starts_aligned needed nursery k small whole low aligned lt =
    let m = frontier_of_mod needed nursery small whole low aligned k lt in
    let b = (frontier_of_step needed nursery small low k lt).0 in
    let four : add_size (frontier_of needed nursery k) 8 % 4 ≡ 0 = omega (arith, m, b) in
    let eight : add_size (frontier_of needed nursery k) 8 % 8 ≡ 4 * (k % 2) = omega (arith, m, b) in
    (rw four refl, rw eight (ground arith))
