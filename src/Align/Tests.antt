-- ===== src/Align/Tests.antt =====
-- Rounding at numbers that can be followed in the source.
use multi_mlton.Prelude.{◌≡◌, refl, ◌^◌, ◌-◌, ◌*◌, ◌/◌, arith}
use multi_mlton.Align.{IsPow2, align, align_down, align_frontier}
use multi_mlton.Align.Laws.{align_down_lem}

align_runs : align 13 8 ≡ 16
unfolding align
align_runs = refl

align_down_runs : align_down 4097 4096 ≡ 4096
unfolding align_down
align_down_runs = refl

align_wraps : align (2 ^ 64 - 1) 4096 ≡ 0
unfolding align
align_wraps = refl

align_frontier_runs : align_frontier 8 17 ≡ 24
unfolding align_frontier
align_frontier_runs = refl

eight : IsPow2 8
eight = (3, refl, omega arith)

align_down_lem_example : align_down 29 8 ≡ 29 / 8 * 8
align_down_lem_example = align_down_lem 29 eight (omega arith)
