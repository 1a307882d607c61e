-- ===== src/SharedChunks/Tests.antt =====
-- Two processors with 512 bytes each from 4096 on; the first one takes a new chunk.
use multi_mlton.Prelude.{ℕ, ◌+◌, ◌%◌, ◌≤◌, ◌≡◌, ◌≢◌, refl, true, ◌==◌, arith}
use multi_mlton.Align.{is_frontier_aligned}
use multi_mlton.CardMap.{Memory}
use multi_mlton.Gap.{bonus_slop}
use multi_mlton.SharedChunks.{
  System, idle, asking, put, advance, frontier_of, lay_out, asks, advances, Reach, first, onward,
}
use multi_mlton.SharedChunks.Disjoint.{Disjoint}
use multi_mlton.SharedChunks.First.{chunks-Disjoint, chunk_starts_aligned}

abbrev slop : ℕ → ℕ
slop k = 512

abbrev blank : Memory
blank a = 0

abbrev first_chunks : System
first_chunks = lay_out slop 4096 2 blank

abbrev asked : System
asked = record first_chunks {
  procs =
      put first_chunks.procs 0
        (record { chunk = (first_chunks.procs 0).chunk; phase = asking 600 });
}

abbrev looked : System
looked = advance 4096 65536 asked 0 (asked.procs 0).chunk (asked.procs 0).phase

abbrev swapped : System
swapped = advance 4096 65536 looked 0 (looked.procs 0).chunk (looked.procs 0).phase

first_idle : (first_chunks.procs 0).phase ≡ idle
unfolding lay_out
first_idle = refl

swapped-Reach : Reach 4096 65536 2 swapped
swapped-Reach =
    onward
      (onward
        (onward (first slop 4096 blank (omega arith))
          (asks 0 600 (omega arith) first_idle (omega arith)))
        (advances 0 (omega arith)))
      (advances 0 (omega arith))

zero_ne_one : ◌≢◌ {A = ℕ} 0 1
zero_ne_one e = absurd (omega arith)

chunks-Disjoint_example :
    Disjoint (swapped.procs 0).chunk (swapped.procs 1).chunk
    × ((swapped.procs 1).chunk.frontier ≤ (swapped.procs 1).chunk.limit_plus_slop)
    × ((swapped.procs 1).chunk.limit_plus_slop + bonus_slop ≤ swapped.frontier)
    × (swapped.frontier ≤ 65536)
chunks-Disjoint_example =
    chunks-Disjoint 4096 65536 2 (omega arith) (omega arith) 0 1 swapped-Reach (omega arith)
      (omega arith) zero_ne_one

swapped_runs :
    (swapped.frontier ≡ 9252)
    × ((swapped.procs 0).chunk.frontier ≡ 5144)
    × ((swapped.procs 0).chunk.limit_plus_slop ≡ 9240)
unfolding advance lay_out put frontier_of
swapped_runs = (refl, refl, refl)

slop_whole : (j : ℕ) → slop j % 8 ≡ 0
slop_whole j = refl

chunk_starts_aligned_example :
    (is_frontier_aligned 4 (frontier_of slop 4096 1) ≡ true)
    × (is_frontier_aligned 8 (frontier_of slop 4096 1) ≡ (1 % 2 == 0))
chunk_starts_aligned_example =
    chunk_starts_aligned slop 4096 1 (λ k. omega arith) slop_whole (omega arith) refl (omega arith)
