-- ===== src/ArrayAllocate/Tests.antt =====
-- Arrays of words: five of them, and 2^61 of them.
use multi_mlton.Prelude.{ℕ, ◌+◌, ◌*◌, ◌^◌, ◌<◌, ◌≡◌, refl, false, true, some, arith}
use multi_mlton.Align.{IsPow2, align, align_max, size_mod}
use multi_mlton.Object.{ObjectType, array_tag, array_header_size}
use multi_mlton.ObjectSize.{element_bytes, sizeof_array_no_header}
use multi_mlton.ArrayAllocate.{array_sizes}
use multi_mlton.ArrayAllocate.Sizes.{array_sizes-sizeof_array_no_header, array_sizes_overflow}

abbrev word_array : ObjectType
word_array = record {
  tag = array_tag;
  has_identity = false;
  bytes_non_objptrs = 8;
  num_objptrs = 0;
  has_identity_transitive = false;
  is_unbounded = true;
}

array_sizes_runs : array_sizes 8 word_array 5 ≡ some (64, 64)
unfolding array_sizes align_max
array_sizes_runs = refl

array_sizes_wraps : array_sizes 8 word_array (2 ^ 61) ≡ some (24, 32)
unfolding array_sizes align_max align
array_sizes_wraps = refl

eight : IsPow2 8
eight = (3, refl, omega arith)

five_fit : 5 * element_bytes word_array + 33 + 8 < size_mod
unfolding element_bytes
five_fit = omega arith

whole : element_bytes word_array * 2 ^ 61 ≡ 1 * size_mod
unfolding element_bytes
whole = refl

array_sizes-sizeof_array_no_header_example :
    (size : ℕ) × (array_sizes 8 word_array 5
      ≡ some (size, sizeof_array_no_header 8 5 word_array + array_header_size))
array_sizes-sizeof_array_no_header_example =
    array_sizes-sizeof_array_no_header 8 5 word_array eight five_fit

array_sizes_overflow_example :
    (size : ℕ) × (array_sizes 8 word_array (2 ^ 61) ≡ some (size, align 32 8))
array_sizes_overflow_example =
    array_sizes_overflow 8 (2 ^ 61) 1 word_array eight (omega arith) whole
