-- ===== src/ObjectSize/Arrays.antt =====
-- The bytes that the elements of an array take.
use multi_mlton.Prelude.{
  ℕ, ◌+◌, ◌*◌, ◌%◌, ◌≤◌, ◌<◌, ◌≡◌, true, ltb, Bool-cases, inl, inr, arith, ltb→lt, not_ltb→le,
}
use multi_mlton.Align.{size_mod, IsPow2, is_aligned}
use multi_mlton.Align.Laws.{align_with_extra_bounds}
use multi_mlton.Object.{ObjectType, array_header_size, objptr_size}
use multi_mlton.ObjectSize.{element_bytes, sizeof_array_no_header}

-- For an alignment that is a power of two and an array whose bytes, header and alignment together
-- stay in the address space, the size that sizeofArrayNoHeader computes holds all elements and a
-- forwarding pointer, wastes less than the alignment beyond both, and ends the array with its
-- header on an aligned address.
pub sizeof_array_no_header_bounds :
    (alignment n : ℕ) (t : ObjectType)
    → IsPow2 alignment
    → n * element_bytes t + 32 + alignment ≤ size_mod
    → let r = sizeof_array_no_header alignment n t in
      (is_aligned (r + array_header_size) alignment ≡ true)
      × (n * element_bytes t ≤ r)
      × (objptr_size ≤ r)
      × (r < n * element_bytes t + objptr_size + alignment)
unfolding sizeof_array_no_header
sizeof_array_no_header_bounds alignment n t w le =
    elim (Bool-cases (ltb (n * element_bytes t % size_mod) objptr_size)) [
      | inl small ↦
          (let b =
              align_with_extra_bounds alignment objptr_size array_header_size w (omega arith) in
            let lt = ltb→lt (n * element_bytes t % size_mod) objptr_size small in
            rw small (b.0, omega (arith, b), omega (arith, b), omega (arith, b)))
      | inr big ↦
          (let b =
              align_with_extra_bounds alignment (n * element_bytes t % size_mod) array_header_size w
                (omega arith) in
            rw big (
              b.0,
              omega (arith, b),
              omega (arith, b, not_ltb→le (n * element_bytes t % size_mod) objptr_size big),
              omega (arith, b),
            ))
    ]
