-- ===== src/Align/Laws.antt =====
-- What rounding promises: the least multiple above, the greatest below, and where it wraps.
use multi_mlton.Prelude.{
  ℕ, ◌+◌, ◌-◌, ◌*◌, ◌/◌, ◌%◌, ◌^◌, ◌≤◌, ◌<◌, ◌≡◌, true, bit_and, arith, ap, ◌∙◌,
}
use multi_mlton.Prelude.Bits.{pred-mul, bit_and_low, bit_and_shifted, pow-pos, pow-mul_of_add}
use multi_mlton.Align.{
  size_mod, add_size, sub_size, IsPow2, is_aligned, align_down, align, align_with_extra,
  normal_header_size, is_frontier_aligned, align_frontier,
}
use native.Mathlib.Nat.{
  mod-eq_of_lt, div-eq_of_lt, div-lt_iff_lt-mul, div-add-mod', mod-lt, mul-mod_left,
  pow-le-pow_right,
}

pub pow-le : {b : ℕ} → IsPow2 b → (0 < b) × (b ≤ 2 ^ 63)
pow-le (k, e, h) = rw e (pow-pos k, pow-le-pow_right {n = 2} (omega arith) {j = 63} (omega arith))

-- Masking with minus a power of two rounds down to a multiple of it.
mask_rounds : (a : ℕ) {b : ℕ} → IsPow2 b → a < size_mod → bit_and a (sub_size 0 b) ≡ a / b * b
mask_rounds a {b} (k, e, h) lt =
    rw (e, mask, bit_and_shifted k a (2 ^ (64 - k) - 1), bit_and_low (64 - k), mod-eq_of_lt small)
  where
    whole : 2 ^ (64 - k) * 2 ^ k ≡ size_mod
    whole = pow-mul_of_add (64 - k) k 64 (omega arith)

    mask : sub_size 0 (2 ^ k) ≡ (2 ^ (64 - k) - 1) * 2 ^ k
    mask = omega (arith, whole, pow-pos k, pow-le (k, e, h), pred-mul (2 ^ (64 - k)) (2 ^ k))

    small : a / 2 ^ k < 2 ^ (64 - k)
    small = (div-lt_iff_lt-mul (pow-pos k)).1 (rw whole lt)

-- `b` times a quotient leaves no remainder by `b`.
pub multiple-IsAligned : (q b : ℕ) → is_aligned (q * b) b ≡ true
unfolding is_aligned
multiple-IsAligned q b = rw (mul-mod_left q b)

-- `align_down` gives the greatest multiple of `b` that is at most `a`.
pub align_down_lem : (a : ℕ) {b : ℕ} → IsPow2 b → a < size_mod → align_down a b ≡ a / b * b
unfolding align_down
align_down_lem a w lt = mask_rounds a w lt

-- `align` as division: valid as long as the sum inside does not wrap.
pub align_lem : (a : ℕ) {b : ℕ} → IsPow2 b → a + b ≤ size_mod → align a b ≡ (a + (b - 1)) / b * b
unfolding align
align_lem a {b} w le =
    let pos : 0 < b = (pow-le w).0 in
    let e : add_size a (sub_size b 1) ≡ a + (b - 1) = omega arith in
    mask_rounds (add_size a (sub_size b 1)) w (omega arith) ∙ ap (λ (t : ℕ). t / b * b) e

-- For a power of two b and a sum a + b within 2^64, `align a b` is a multiple of b, not below a,
-- and less than b above it.
pub align_bounds :
    (a : ℕ) {b : ℕ}
    → IsPow2 b
    → a + b ≤ size_mod
    → (is_aligned (align a b) b ≡ true) × (a ≤ align a b) × (align a b < a + b)
align_bounds a {b} w le = rw (align_lem a w le) (
  multiple-IsAligned ((a + (b - 1)) / b) b,
  omega (arith, split, rest),
  omega (arith, split, rest),
)
  where
    split : (a + (b - 1)) / b * b + (a + (b - 1)) % b ≡ a + (b - 1)
    split = div-add-mod' (a + (b - 1)) b

    rest : ((a + (b - 1)) % b < b) × (0 < b)
    rest = (mod-lt (a + (b - 1)) (pow-le w).0, (pow-le w).0)

-- For a power of two b and a sum a + b within 2^64, no multiple of b that is at least a lies below
-- `align a b`.
pub align_least :
    (a m : ℕ) {b : ℕ} → IsPow2 b → a + b ≤ size_mod → is_aligned m b ≡ true → a ≤ m → align a b ≤ m
unfolding is_aligned
align_least a m {b} w le mul h =
    let whole : m / b * b ≡ m = grind (arith, div-add-mod' m b) in
    let below : (a + (b - 1)) / b < m / b + 1 =
      (div-lt_iff_lt-mul (pow-le w).0).1 (omega (arith, whole, pow-le w)) in
    rw (align_lem a w le) (grind arith)

-- For a power of two b and a word a with a + b beyond 2^64, the sum inside wraps and `align a b` is
-- 0.
pub align-eq-zero : (a : ℕ) {b : ℕ} → IsPow2 b → a < size_mod → size_mod < a + b → align a b ≡ 0
unfolding align
align-eq-zero a {b} w lt over =
    let e : add_size a (sub_size b 1) ≡ a + b - 1 - size_mod = omega (arith, pow-le w) in
    let small : a + b - 1 - size_mod < b = omega (arith, pow-le w) in
    mask_rounds (add_size a (sub_size b 1)) w (omega arith)
    ∙ rw (e, div-eq_of_lt small) (omega arith)

pub align_self :
    (a : ℕ) {b : ℕ} → IsPow2 b → a + b ≤ size_mod → is_aligned a b ≡ true → align a b ≡ a
align_self a w le al = omega (arith, align_least a a w le al (omega arith), align_bounds a w le)

-- For an alignment that is a power of two and a sum of bytes, extra and alignment within 2^64,
-- alignWithExtra gives a size that is aligned once the extra bytes follow, not below the bytes, and
-- less than the alignment above them.
pub align_with_extra_bounds :
    (alignment bytes extra : ℕ)
    → IsPow2 alignment
    → bytes + extra + alignment ≤ size_mod
    → let r = align_with_extra alignment bytes extra in
      (is_aligned (r + extra) alignment ≡ true) × (bytes ≤ r) × (r < bytes + alignment)
unfolding align_with_extra
align_with_extra_bounds alignment bytes extra w le =
    rw (same, again) (rw back bounds.0, omega (arith, bounds), omega (arith, bounds))
  where
    same : add_size bytes extra ≡ bytes + extra
    same = omega (arith, pow-le w)

    bounds :
        (is_aligned (align (bytes + extra) alignment) alignment ≡ true)
        × (bytes + extra ≤ align (bytes + extra) alignment)
        × (align (bytes + extra) alignment < bytes + extra + alignment)
    bounds = align_bounds (bytes + extra) w le

    again :
        sub_size (align (bytes + extra) alignment) extra ≡ align (bytes + extra) alignment - extra
    again = omega (arith, bounds)

    back : align (bytes + extra) alignment - extra + extra ≡ align (bytes + extra) alignment
    back = omega (arith, bounds)

-- For an alignment that is a power of two, where p, a header and the alignment stay within 2^64,
-- alignFrontier moves p forward, by less than the alignment, to a frontier that is aligned.
pub align_frontier_bounds :
    (alignment p : ℕ)
    → IsPow2 alignment
    → p + normal_header_size + alignment ≤ size_mod
    → let q = align_frontier alignment p in
      (is_frontier_aligned alignment q ≡ true) × (p ≤ q) × (q < p + alignment)
unfolding align_frontier is_frontier_aligned
align_frontier_bounds alignment p w le =
    let b = align_with_extra_bounds alignment p normal_header_size w le in
    let e : add_size (align_frontier alignment p) normal_header_size
        ≡ align_frontier alignment p + normal_header_size =
      omega (arith, b, pow-le w) in
    (rw e b.0, b.1, b.2)

pub align_mono : (a c : ℕ) {b : ℕ} → IsPow2 b → a ≤ c → c + b ≤ size_mod → align a b ≤ align c b
align_mono a c {b} w h le =
    let bounds = align_bounds c w le in
    align_least a (align c b) w (omega arith) bounds.0 (omega (arith, bounds))

pub mod_of_is_aligned : (a b : ℕ) → is_aligned a b ≡ true → a % b ≡ 0
unfolding is_aligned
mod_of_is_aligned a b h = ground arith
