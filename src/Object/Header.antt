-- ===== src/Object/Header.antt =====
-- What the header word of an object carries: the type index survives whatever the other bits hold.
use multi_mlton.Prelude.{
  ℕ, ◌+◌, ◌-◌, ◌*◌, ◌/◌, ◌%◌, ◌^◌, ◌<◌, ◌≡◌, refl, List, get_elem?, bit_and, arith,
}
use multi_mlton.Prelude.Bits.{bit_and_low, bit_and_shifted}
use multi_mlton.Prelude.BitLaws.{bit_and_assoc, bit_or_one_double}
use multi_mlton.Align.{size_mod}
use multi_mlton.Object.{
  ObjectType, type_index_mask, virgin_mask, lift_mask, build_header_from_type_index,
  without_sharing_bits, object_type_index, split_header,
}

-- Clearing the sharing bits does not touch the type index, which is 16 bits above the lowest one.
pub type_index_lem : (h : ℕ) → object_type_index (without_sharing_bits h) ≡ h / 2 % 2 ^ 16
unfolding object_type_index without_sharing_bits
type_index_lem h = omega (arith, assoc, kept, shifted, low)
  where
    rest : ℕ
    rest = size_mod - 1 - (lift_mask + virgin_mask)

    assoc : bit_and (bit_and h rest) type_index_mask ≡ bit_and h (bit_and rest type_index_mask)
    assoc = bit_and_assoc h rest type_index_mask

    kept : bit_and h (bit_and rest type_index_mask) ≡ bit_and h ((2 ^ 16 - 1) * 2 ^ 1)
    kept = refl

    shifted : bit_and h ((2 ^ 16 - 1) * 2 ^ 1) ≡ bit_and (h / 2 ^ 1) (2 ^ 16 - 1) * 2 ^ 1
    shifted = bit_and_shifted 1 h (2 ^ 16 - 1)

    low : bit_and (h / 2 ^ 1) (2 ^ 16 - 1) ≡ h / 2 ^ 1 % 2 ^ 16
    low = bit_and_low 16 (h / 2 ^ 1)

build_header_lem : (t : ℕ) → t < 2 ^ 16 → build_header_from_type_index t ≡ 1 + t * 2
unfolding build_header_from_type_index
build_header_lem t h = let e : t * 2 % 2 ^ 32 ≡ t * 2 = omega arith in rw e (bit_or_one_double t)

-- For a type index t below 2^16, splitting a header that was built for t gives the type that the
-- table has at t, whatever the virgin, lift, counter and mark bits have become, which start at bit
-- 17 by the masks of object.h (`upper` counts them from there).
pub split_header-build_header_from_type_index :
    (types : List ObjectType) (t upper : ℕ)
    → t < 2 ^ 16
    → split_header types (build_header_from_type_index t + upper * 2 ^ 17) ≡ get_elem? types t
unfolding split_header
split_header-build_header_from_type_index types t upper h =
    rw (type_index_lem (build_header_from_type_index t + upper * 2 ^ 17), index) refl
  where
    index : (build_header_from_type_index t + upper * 2 ^ 17) / 2 % 2 ^ 16 ≡ t
    index = omega (arith, build_header_lem t h)
