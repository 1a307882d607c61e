-- ===== src/ArrayAllocate/Sizes.antt =====
-- The sizes that GC_arrayAllocate computes, against those that the collector will read back.
use multi_mlton.Prelude.{
  ℕ, ◌+◌, ◌-◌, ◌*◌, ◌≤◌, ◌<◌, max, ◌≡◌, false, ltb, leb, Bool-cases, inl, inr, some, refl, ap, ◌∙◌,
  arith, ltb→lt, not_ltb→le,
}
use native.Mathlib.Nat.{mul_comm}
use multi_mlton.Align.{size_mod, add_size, mul_size, IsPow2, align, align_max, align_with_extra}
use multi_mlton.Align.Laws.{align_bounds, align_least}
use multi_mlton.Object.{ObjectType, array_header_size}
use multi_mlton.ObjectSize.{element_bytes, sizeof_array_no_header}
use multi_mlton.ArrayAllocate.{array_sizes}

align_max-eq-align : (a b : ℕ) → align_max a b ≡ align a b
unfolding align_max align
align_max-eq-align a b = refl

-- Below the limit of an aligned 32 bytes, both rounds give the room for one forwarding pointer.
small_round :
    (a : ℕ) {b : ℕ}
    → IsPow2 b
    → 24 ≤ a
    → a ≤ 32
    → 32 + b ≤ size_mod
    → 32 ≤ align a b
    → align a b ≡ align 32 b
small_round a {b} w lo hi le h =
    let x = align_bounds a w (omega arith) in
    let y = align_bounds 32 w le in
    let below = align_least a (align 32 b) w (omega arith) y.0 (omega (arith, y)) in
    let above = align_least 32 (align a b) w le x.0 h in omega (arith, below, above)

read_back :
    (alignment n : ℕ) (t : ObjectType)
    → IsPow2 alignment
    → n * element_bytes t + 33 + alignment < size_mod
    → sizeof_array_no_header alignment n t + array_header_size
      ≡ align (max 8 (n * element_bytes t) + 24) alignment
unfolding sizeof_array_no_header align_with_extra
read_back alignment n t w lt = elim (Bool-cases (ltb (mul_size n (element_bytes t)) 8)) [
  | inl small ↦
      (let b = align_bounds 32 w (omega arith) in
        let m : max 8 (n * element_bytes t) + 24 ≡ 32 =
          omega (arith, ltb→lt (mul_size n (element_bytes t)) 8 small) in
        rw (small, m) (omega (arith, b)))
  | inr big ↦
      (let m : max 8 (n * element_bytes t) + 24 ≡ add_size (mul_size n (element_bytes t)) 24 =
          omega (arith, not_ltb→le (mul_size n (element_bytes t)) 8 big) in
        let b = align_bounds (add_size (mul_size n (element_bytes t)) 24) w (omega arith) in
        rw (big, m) (omega (arith, b)))
]

claimed :
    (alignment n : ℕ) (t : ObjectType)
    → IsPow2 alignment
    → n * element_bytes t + 33 + alignment < size_mod
    → (size : ℕ) × (array_sizes alignment t n
        ≡ some (size, align (max 8 (n * element_bytes t) + 24) alignment))
unfolding array_sizes
claimed alignment n t w lt =
    let open_size : add_size (mul_size (element_bytes t) n) 24 ≡ n * element_bytes t + 24 =
      omega (arith, mul_comm n (element_bytes t)) in
    let b = align_bounds (n * element_bytes t + 24) w (omega arith) in
    let room : leb (size_mod - 1) (align (n * element_bytes t + 24) alignment) ≡ false =
      not_leb_of_lt (omega (arith, b)) in
    elim (Bool-cases (ltb (align (n * element_bytes t + 24) alignment) 32)) [
      | inl small ↦
          (let m : max 8 (n * element_bytes t) + 24 ≡ 32 =
              omega (arith, ltb→lt (align (n * element_bytes t + 24) alignment) 32 small, b) in
            (24, rw (array_sizes, open_size, align_max-eq-align, room, small, m) refl))
      | inr big ↦
          (let over = not_ltb→le (align (n * element_bytes t + 24) alignment) 32 big in
            (
              n * element_bytes t + 24,
              rw (array_sizes, open_size, align_max-eq-align, room, big)
                  (ap (λ (z : ℕ). some (n * element_bytes t + 24, z)) (same over)),
            ))
    ]
  where
    not_leb_of_lt : {a b : ℕ} → b < a → leb a b ≡ false
    not_leb_of_lt h = ground arith

    same :
        32 ≤ align (n * element_bytes t + 24) alignment
        → align (n * element_bytes t + 24) alignment
          ≡ align (max 8 (n * element_bytes t) + 24) alignment
    same over = elim (Bool-cases (ltb (n * element_bytes t) 8)) [
      | inl low ↦
          (let below = ltb→lt (n * element_bytes t) 8 low in
            let m : max 8 (n * element_bytes t) + 24 ≡ 32 = omega (arith, below) in
            rw m (
              small_round (n * element_bytes t + 24) w (omega arith) (omega (arith, below))
                (omega arith) over))
      | inr high ↦
          (let m : max 8 (n * element_bytes t) ≡ n * element_bytes t =
              omega (arith, not_ltb→le (n * element_bytes t) 8 high) in
            rw m refl)
    ]

-- For an alignment that is a power of two and an array whose bytes, header and alignment together
-- stay below the end of the address space, GC_arrayAllocate does not refuse the size, and the bytes
-- it claims are exactly the header and the size that sizeofArrayNoHeader later computes for the
-- same array.
pub array_sizes-sizeof_array_no_header :
    (alignment n : ℕ) (t : ObjectType)
    → IsPow2 alignment
    → n * element_bytes t + 33 + alignment < size_mod
    → (size : ℕ) × (array_sizes alignment t n
        ≡ some (size, sizeof_array_no_header alignment n t + array_header_size))
unfolding array_sizes sizeof_array_no_header align_with_extra
array_sizes-sizeof_array_no_header alignment n t w lt =
    let c = claimed alignment n t w lt in (c.0, rw (read_back alignment n t w lt) c.1)

-- Where the bytes of the elements are a multiple of 2^64, which the product in a `uintmax_t` loses,
-- GC_arrayAllocate does not report that memory is out, for an alignment that is a power of two: it
-- claims what an empty array gets.
pub array_sizes_overflow :
    (alignment n k : ℕ) (t : ObjectType)
    → IsPow2 alignment
    → 33 + alignment < size_mod
    → element_bytes t * n ≡ k * size_mod
    → (size : ℕ) × (array_sizes alignment t n ≡ some (size, align 32 alignment))
unfolding array_sizes
array_sizes_overflow alignment n k t w lt e =
    let empty = claimed alignment 0 t w (omega arith) in
    let lost : mul_size (element_bytes t) n ≡ 0 = omega (arith, e) in
    let nothing : mul_size (element_bytes t) 0 ≡ 0 = omega arith in
    let same : array_sizes alignment t n ≡ array_sizes alignment t 0 =
      rw (array_sizes, lost, nothing) refl in
    let room : max 8 (0 * element_bytes t) + 24 ≡ 32 = omega arith in
    (empty.0, same ∙ (empty.1 ∙ ap (λ (z : ℕ). some (empty.0, align z alignment)) room))
