-- ===== src/Object.antt =====
-- runtime/gc/object.h, object.c, array.h and array.c on the 64-bit machine: the header word of an
-- object, the table of object types that it indexes, and the fields in front of an array. Headers,
-- object pointers, array lengths and array counters are words of 8 bytes. Asserts and debugging
-- output have no counterpart.
pub mod Header
pub mod Layout
pub mod Size
mod Tests
use multi_mlton.Prelude.{
  ℕ, zero, suc, ◌+◌, ◌-◌, ◌*◌, ◌/◌, ◌%◌, ◌^◌, Bool, ◌==◌, if◌then◌else◌, Option, none, some, List,
  get_elem?, bit_and,
}
use Prim.Native.Nat.{bit_or}
use multi_mlton.Align.{size_mod, add_size, sub_size, mul_size, normal_header_size}
use multi_mlton.CardMap.{Memory}

-- A little-endian word of n bytes.
unfoldable pub load : ℕ → Memory → ℕ → ℕ
load zero mem p = 0
load (suc n) mem p = let rest = load n mem (add_size p 1) in mem p % 256 + 256 * rest

-- GC_objectTypeTag
pub data ObjectTypeTag : Type 0 where
  array_tag : ObjectTypeTag
  normal_tag : ObjectTypeTag
  stack_tag : ObjectTypeTag
  weak_tag : ObjectTypeTag
  header_only_tag : ObjectTypeTag
  fill_tag : ObjectTypeTag

-- `struct GC_objectType`
pub record ObjectType : Type 0 where
  pub tag : ObjectTypeTag
  pub has_identity : Bool
  pub bytes_non_objptrs : ℕ
  pub num_objptrs : ℕ
  pub has_identity_transitive : Bool
  pub is_unbounded : Bool

-- GC_HEADER_SIZE, OBJPTR_SIZE, GC_ARRAY_HEADER_SIZE and GC_SMALL_GAP_SIZE_SIZE
abbrev pub header_size : ℕ
header_size = 8

abbrev pub objptr_size : ℕ
objptr_size = 8

abbrev pub array_length_size : ℕ
array_length_size = 8

abbrev pub array_counter_size : ℕ
array_counter_size = 8

abbrev pub array_header_size : ℕ
array_header_size = 24

abbrev pub small_gap_size_size : ℕ
small_gap_size_size = 4

abbrev pub type_index_mask : ℕ
type_index_mask = 131070

abbrev pub virgin_mask : ℕ
virgin_mask = 393216

abbrev pub lift_mask : ℕ
lift_mask = 524288

-- getHeaderp and getHeader
unfoldable pub get_headerp : ℕ → ℕ
get_headerp p = sub_size p header_size

unfoldable pub get_header : Memory → ℕ → ℕ
unfolding get_headerp
get_header mem p = load header_size mem (get_headerp p)

-- The shift and the `|` are on a `uint32_t`.
unfoldable pub build_header_from_type_index : ℕ → ℕ
build_header_from_type_index t = bit_or 1 (t * 2 % 2 ^ 32)

-- `header & ~(LIFT_MASK | VIRGIN_MASK)`
unfoldable pub without_sharing_bits : ℕ → ℕ
without_sharing_bits header = bit_and header (size_mod - 1 - (lift_mask + virgin_mask))

-- The index is an `unsigned`.
unfoldable pub object_type_index : ℕ → ℕ
object_type_index header = bit_and header type_index_mask / 2 % 2 ^ 32

-- `s->objectTypes`; what lies behind its end is `none`.
module _ (types : List ObjectType) where
  unfoldable pub split_header : ℕ → Option ObjectType
  unfolding without_sharing_bits object_type_index
  split_header header = get_elem? types (object_type_index (without_sharing_bits header))

  unfoldable pub object_has_identity : ℕ → Option Bool
  unfolding without_sharing_bits object_type_index
  object_has_identity header =
      elim (get_elem? types (object_type_index (without_sharing_bits header))) [
        | none ↦ none
        | some t ↦ some t.has_identity
      ]

  unfoldable pub object_has_identity_transitive : ℕ → Option Bool
  unfolding without_sharing_bits object_type_index
  object_has_identity_transitive header =
      elim (get_elem? types (object_type_index (without_sharing_bits header))) [
        | none ↦ none
        | some t ↦ some t.has_identity_transitive
      ]

-- advanceToObjectData: the word at p is the counter of an array, which is 0, or a header.
unfoldable pub advance_to_object_data : Memory → ℕ → ℕ
advance_to_object_data mem p =
    if 0 == load header_size mem p
    then add_size p array_header_size
    else add_size p normal_header_size

-- getArrayLengthp, getArrayLength, getArrayCounterp and getArrayCounter
unfoldable pub get_array_lengthp : ℕ → ℕ
get_array_lengthp a = sub_size (sub_size a header_size) array_length_size

unfoldable pub get_array_length : Memory → ℕ → ℕ
unfolding get_array_lengthp
get_array_length mem a = load array_length_size mem (get_array_lengthp a)

unfoldable pub get_array_counterp : ℕ → ℕ
get_array_counterp a =
    sub_size (sub_size (sub_size a header_size) array_length_size) array_counter_size

unfoldable pub get_array_counter : Memory → ℕ → ℕ
unfolding get_array_counterp
get_array_counter mem a = load array_counter_size mem (get_array_counterp a)

-- indexArrayAtObjptrIndex: the address of one object pointer in one element.
unfoldable pub index_array_at_objptr_index : List ObjectType → Memory → ℕ → ℕ → ℕ → Option ℕ
unfolding split_header get_header
index_array_at_objptr_index types mem a array_index objptr_index =
    elim (split_header types (get_header mem a)) [
      | none ↦ none
      | some t ↦ some (
          add_size
            (add_size
              (add_size a (
                mul_size array_index
                  (add_size t.bytes_non_objptrs (mul_size t.num_objptrs objptr_size))))
              t.bytes_non_objptrs)
            (mul_size objptr_index objptr_size))
    ]
