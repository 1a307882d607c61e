-- ===== src/Objptr/Laws.antt =====
-- The two representations of a pointer are inverse, and the tests look at the low bits.
use multi_mlton.Prelude.{ℕ, ◌+◌, ◌-◌, ◌*◌, ◌/◌, ◌%◌, ◌^◌, ◌≤◌, ◌<◌, ◌≡◌, ◌==◌, arith}
use multi_mlton.Prelude.Bits.{pred-mul, bit_and_low, pow-pos}
use multi_mlton.Align.{size_mod, add_size, sub_size}
use multi_mlton.Objptr.{
  Model, native64, low_mask, is_objptr, is_pointer, base_of, minalign_shift, objptr_to_pointer,
  pointer_to_objptr,
}
use native.Mathlib.Nat.{
  mod-eq_of_lt, div-add-mod', mul-div_cancel, add-mul-mod_self_right, pow-le-pow_right,
}

-- An address goes into an object pointer and back unchanged, if it is a 64-bit word, not below the
-- base, and its distance from the base is a multiple of 2^S that fits in Z bits once shifted.
pub objptr_to_pointer-pointer_to_objptr :
    (m : Model) (p b : ℕ)
    → p < size_mod
    → base_of m b ≤ p
    → (p - base_of m b) % 2 ^ m.objptr_shift ≡ 0
    → (p - base_of m b) / 2 ^ m.objptr_shift < 2 ^ m.objptr_bits
    → objptr_to_pointer m (pointer_to_objptr m p b) b ≡ p
unfolding objptr_to_pointer pointer_to_objptr
objptr_to_pointer-pointer_to_objptr m p b lt le mul fits =
    let d : sub_size p (base_of m b) ≡ p - base_of m b = omega arith in
    let whole : (p - base_of m b) / 2 ^ m.objptr_shift * 2 ^ m.objptr_shift ≡ p - base_of m b =
      omega (arith, div-add-mod' (p - base_of m b) (2 ^ m.objptr_shift)) in
    rw (d, mod-eq_of_lt fits, whole) (omega arith)

-- An object pointer of Z bits goes to an address and back unchanged, if the address does not wrap.
pub pointer_to_objptr-objptr_to_pointer :
    (m : Model) (o b : ℕ)
    → o < 2 ^ m.objptr_bits
    → o * 2 ^ m.objptr_shift + base_of m b < size_mod
    → pointer_to_objptr m (objptr_to_pointer m o b) b ≡ o
unfolding objptr_to_pointer pointer_to_objptr
pointer_to_objptr-objptr_to_pointer m o b fits lt =
    let d : sub_size (add_size (o * 2 ^ m.objptr_shift % size_mod) (base_of m b)) (base_of m b)
        ≡ o * 2 ^ m.objptr_shift =
      omega arith in
    rw (d, mul-div_cancel o (pow-pos m.objptr_shift)) (mod-eq_of_lt fits)

-- The mask has the `shift` lowest bits.
low_mask_lem : (bits shift : ℕ) → shift ≤ bits → low_mask bits shift ≡ 2 ^ shift - 1
unfolding low_mask
low_mask_lem bits shift le =
    let h : 2 ^ shift ≤ 2 ^ bits = pow-le-pow_right {n = 2} (omega arith) le in
    let q : 0 < 2 ^ shift = pow-pos shift in
    let g : 2 ^ bits ≤ 2 ^ bits * 2 ^ shift = grind arith in
    let e : (2 ^ bits - 1) * 2 ^ shift ≡ 2 ^ bits - 2 ^ shift + (2 ^ shift - 1) * 2 ^ bits = omega (
      arith,
      h,
      g,
      pow-pos shift,
      pow-pos bits,
      pred-mul (2 ^ bits) (2 ^ shift),
      pred-mul (2 ^ shift) (2 ^ bits),
    ) in
    let r : (2 ^ bits - 1) * 2 ^ shift % 2 ^ bits ≡ 2 ^ bits - 2 ^ shift =
      rw (e, add-mul-mod_self_right (2 ^ bits - 2 ^ shift) (2 ^ shift - 1) (2 ^ bits))
        (mod-eq_of_lt (omega (arith, h, pow-pos shift))) in
    omega (arith, r, h, pow-pos shift)

-- In a model whose minimal alignment has no more bits than an object pointer, a word looks like an
-- object pointer exactly when the low bits that the alignment clears are zero.
pub is_objptr_lem :
    (m : Model) (p : ℕ)
    → minalign_shift m ≤ m.objptr_bits
    → is_objptr m p ≡ (0 == p % 2 ^ (minalign_shift m - m.objptr_shift))
unfolding is_objptr
is_objptr_lem m p le =
    rw (low_mask_lem m.objptr_bits (minalign_shift m - m.objptr_shift) (omega arith), bit_and_low)

pub is_pointer_lem :
    (m : Model) (p : ℕ) → minalign_shift m ≤ 64 → is_pointer m p ≡ (0 == p % 2 ^ minalign_shift m)
unfolding is_pointer
is_pointer_lem m p le = rw (low_mask_lem 64 (minalign_shift m) le, bit_and_low)

-- On the 64-bit machine both are the identity on words.
pub objptr_to_pointer_native : (o b : ℕ) → o < size_mod → objptr_to_pointer native64 o b ≡ o
unfolding objptr_to_pointer
objptr_to_pointer_native o b lt = omega arith

pub pointer_to_objptr_native : (p b : ℕ) → p < size_mod → pointer_to_objptr native64 p b ≡ p
unfolding pointer_to_objptr
pointer_to_objptr_native p b lt = omega arith
