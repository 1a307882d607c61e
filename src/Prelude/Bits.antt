-- ===== src/Prelude/Bits.antt =====
-- `bit_and` with the masks that the runtime uses: the m lowest ones, and such a mask shifted up.
use Prim.Native.Nat.{
  ℕ, zero, suc, ◌+◌, ◌-◌, ◌*◌, ◌/◌, ◌%◌, ◌^◌, ◌≤◌, ◌<◌, min, bit_and, digits, bit_and-bitwise,
}
use mathlib.Core.Path.{◌≡◌, sym, ap}
use native.Mathlib.Nat.{
  pow-suc, div-div-eq-div-mul, div-add-mod', div-one, mul-one, one-mul, mul_comm,
}
use native.Mathlib.Omega.{arith}

pub zero-bit_and : (b : ℕ) → bit_and 0 b ≡ 0
zero-bit_and b = bit_and-bitwise 0 b

-- Any count of digits that reaches the end of `a` gives what the native operation gives.
digits-bit_and : (k n a b : ℕ) → n ≤ k → a ≤ n → digits (λ _. zero) min n a b ≡ bit_and a b
digits-bit_and k zero zero b low reach = sym (zero-bit_and b)
digits-bit_and k (suc n) zero b low reach = sym (zero-bit_and b)
digits-bit_and k zero (suc a) b low reach = absurd (omega arith)
digits-bit_and zero (suc n) (suc a) b low reach = absurd (omega arith)
digits-bit_and (suc k) (suc n) (suc a) b low reach =
    let here = digits-bit_and k n (suc a / 2) (b / 2) (omega arith) (omega arith) in
    let there = digits-bit_and k a (suc a / 2) (b / 2) (omega arith) (omega arith) in
    omega (arith, here, there, bit_and-bitwise (suc a) b)

-- The lowest digit, and the rest of them.
pub bit_and_step : (a b : ℕ) → bit_and a b ≡ bit_and (a / 2) (b / 2) * 2 + min (a % 2) (b % 2)
bit_and_step zero b = rw (zero-bit_and b, zero-bit_and (b / 2)) (omega arith)
bit_and_step (suc a) b =
    let rest = digits-bit_and a a (suc a / 2) (b / 2) (omega arith) (omega arith) in
    omega (arith, rest, bit_and-bitwise (suc a) b)

bit_and-zero_below : (k a : ℕ) → a ≤ k → bit_and a 0 ≡ 0
bit_and-zero_below k zero le = zero-bit_and 0
bit_and-zero_below zero (suc a) le = absurd (omega arith)
bit_and-zero_below (suc k) (suc a) le =
    let rest = bit_and-zero_below k (suc a / 2) (omega arith) in
    omega (arith, rest, bit_and_step (suc a) 0)

pub bit_and-zero : (a : ℕ) → bit_and a 0 ≡ 0
bit_and-zero a = bit_and-zero_below a a (omega arith)

pub pow-pos : (k : ℕ) → 0 < 2 ^ k
pow-pos zero = omega arith
pow-pos (suc k) = omega (arith, pow-suc 2 k, pow-pos k)

-- Halving `a` first or last gives the same block of it.
half_div : (a p : ℕ) → a / 2 / p ≡ a / (p * 2)
half_div a p = rw (mul_comm p 2) (div-div-eq-div-mul a 2 p)

half_mod : (a p : ℕ) → 0 < p → a % (p * 2) ≡ a / 2 % p * 2 + a % 2
half_mod a p h =
    omega
      (arith, div-add-mod' a (p * 2), div-add-mod' (a / 2) p, ap (λ (q : ℕ). q * p) (half_div a p))

-- A mask of the k lowest bits is a remainder.
pub bit_and_low : (k a : ℕ) → bit_and a (2 ^ k - 1) ≡ a % 2 ^ k
bit_and_low zero a = omega (arith, bit_and-zero a)
bit_and_low (suc k) a =
    rw (pow-suc 2 k, half_mod a (2 ^ k) (pow-pos k), bit_and_step, half)
      (omega (arith, bit_and_low k (a / 2), pow-pos k))
  where
    half : (2 ^ k * 2 - 1) / 2 ≡ 2 ^ k - 1
    half = omega (arith, pow-pos k)

-- Masking above bit k is masking of the quotient by `2 ^ k`.
pub bit_and_shifted : (k a c : ℕ) → bit_and a (c * 2 ^ k) ≡ bit_and (a / 2 ^ k) c * 2 ^ k
bit_and_shifted zero a c = simp (mul-one, div-one)
bit_and_shifted (suc k) a c =
    rw (pow-suc 2 k, bit_and_step, half, bit_and_shifted k (a / 2) c, half_div a (2 ^ k))
      (omega arith)
  where
    half : c * (2 ^ k * 2) / 2 ≡ c * 2 ^ k
    half = omega arith

pub pow-mul_of_add : (k j n : ℕ) → k + j ≡ n → 2 ^ k * 2 ^ j ≡ 2 ^ n
pow-mul_of_add zero j n e = let e' : j ≡ n = omega arith in rw (e', one-mul)
pow-mul_of_add (suc k) j zero e = absurd (omega arith)
pow-mul_of_add (suc k) j (suc n) e =
    rw (pow-suc 2 k, pow-suc 2 n) (omega (arith, pow-mul_of_add k j n (omega arith)))

pub pred-mul : (x y : ℕ) → (x - 1) * y ≡ x * y - y
pred-mul zero y = omega arith
pred-mul (suc x) y = let e : suc x - 1 ≡ x = omega arith in rw e (omega arith)
