-- ===== src/Prelude/BitLaws.antt =====
-- Two masks after each other, and `|` of one with an even number.
use Prim.Native.Nat.{ℕ, zero, suc, ◌+◌, ◌*◌, ◌/◌, ◌%◌, ◌≤◌, min, bit_and, bit_or, bit_or-bitwise}
use mathlib.Core.Path.{◌≡◌, ap}
use native.Mathlib.Omega.{arith}
use multi_mlton.Prelude.Bits.{bit_and_step, zero-bit_and}

half_bit_and : (a b : ℕ) → bit_and a b / 2 ≡ bit_and (a / 2) (b / 2)
half_bit_and a b = omega (arith, bit_and_step a b)

parity_bit_and : (a b : ℕ) → bit_and a b % 2 ≡ min (a % 2) (b % 2)
parity_bit_and a b = omega (arith, bit_and_step a b)

bit_and_assoc_fuel : (n a b c : ℕ) → a ≤ n → bit_and (bit_and a b) c ≡ bit_and a (bit_and b c)
bit_and_assoc_fuel n zero b c h = omega (
  arith,
  zero-bit_and b,
  zero-bit_and c,
  zero-bit_and (bit_and b c),
  ap (λ (t : ℕ). bit_and t c) (zero-bit_and b),
)
bit_and_assoc_fuel zero (suc a) b c h = absurd (omega arith)
bit_and_assoc_fuel (suc n) (suc a) b c h =
    rw
      (
        bit_and_step (bit_and (suc a) b) c,
        bit_and_step (suc a) (bit_and b c),
        half_bit_and (suc a) b,
        half_bit_and b c,
        parity_bit_and (suc a) b,
        parity_bit_and b c,
        bit_and_assoc_fuel n (suc a / 2) (b / 2) (c / 2) (omega arith),
      )
      (omega arith)

pub bit_and_assoc : (a b c : ℕ) → bit_and (bit_and a b) c ≡ bit_and a (bit_and b c)
bit_and_assoc a b c = bit_and_assoc_fuel a a b c (omega arith)

pub bit_or_one_double : (x : ℕ) → bit_or 1 (x * 2) ≡ 1 + x * 2
bit_or_one_double x = omega (arith, bit_or-bitwise 1 (x * 2))
