-- ===== src/Align.antt =====
-- runtime/util/align.h and runtime/gc/align.c: rounding sizes and addresses to a power of two.
-- `size_t`, `uintptr_t` and `uintmax_t` have 64 bits; every sum and difference wraps.
pub mod Laws
mod Tests
use multi_mlton.Prelude.{ℕ, ◌+◌, ◌-◌, ◌*◌, ◌/◌, ◌%◌, ◌^◌, ◌<◌, ◌≡◌, Bool, ◌==◌, bit_and}

abbrev pub size_mod : ℕ
size_mod = 2 ^ 64

abbrev pub add_size : ℕ → ℕ → ℕ
add_size a b = (a + b) % size_mod

abbrev pub sub_size : ℕ → ℕ → ℕ
sub_size a b = (a + size_mod - b) % size_mod

abbrev pub mul_size : ℕ → ℕ → ℕ
mul_size a b = a * b % size_mod

-- What the assertion `b >= 1 && b == (b & -b)` of the C functions asks of a `size_t`.
abbrev pub IsPow2 : ℕ → Type 0
IsPow2 b = (k : ℕ) × (b ≡ 2 ^ k) × (k < 64)

unfoldable pub is_aligned : ℕ → ℕ → Bool
is_aligned a b = 0 == a % b

unfoldable pub is_aligned_max : ℕ → ℕ → Bool
is_aligned_max a b = 0 == a % b

unfoldable pub align_down : ℕ → ℕ → ℕ
align_down a b = bit_and a (sub_size 0 b)

unfoldable pub align_max_down : ℕ → ℕ → ℕ
align_max_down a b = bit_and a (sub_size 0 b)

unfoldable pub align : ℕ → ℕ → ℕ
align a b = bit_and (add_size a (sub_size b 1)) (sub_size 0 b)

unfoldable pub align_max : ℕ → ℕ → ℕ
align_max a b = bit_and (add_size a (sub_size b 1)) (sub_size 0 b)

module _ (alignment : ℕ) where
  unfoldable pub align_with_extra : ℕ → ℕ → ℕ
  align_with_extra bytes extra = sub_size (align (add_size bytes extra) alignment) extra

-- `GC_NORMAL_HEADER_SIZE`, with 64-bit headers.
abbrev pub normal_header_size : ℕ
normal_header_size = 8

unfoldable pub is_frontier_aligned : ℕ → ℕ → Bool
unfolding is_aligned
is_frontier_aligned alignment p = is_aligned (add_size p normal_header_size) alignment

unfoldable pub align_frontier : ℕ → ℕ → ℕ
unfolding align_with_extra align
align_frontier alignment p = align_with_extra alignment p normal_header_size
