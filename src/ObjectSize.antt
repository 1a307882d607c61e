-- ===== src/ObjectSize.antt =====
-- runtime/gc/object-size.c and runtime/gc/array-allocate.c: how many bytes an object takes, found
-- from its header, and how many a new array is given. `alignment` is `s->alignment`, `types` is
-- `s->objectTypes`, `base` is the start of the shared heap, which native object pointers ignore.
-- A walk along forwarding pointers or along a threaded header takes fuel, one unit for each word.
pub mod Chains
pub mod Arrays
pub mod Agree
mod Tests
use multi_mlton.Prelude.{
  ℕ, zero, suc, ◌+◌, ◌-◌, ◌*◌, ◌^◌, Bool, ◌==◌, ltb, if◌then◌else◌, Option, none, some, List,
  bit_and,
}
use multi_mlton.Align.{size_mod, add_size, mul_size, align_with_extra, normal_header_size}
use multi_mlton.CardMap.{Memory}
use multi_mlton.Objptr.{native64, objptr_to_pointer}
use multi_mlton.Object.{
  ObjectType, array_tag, normal_tag, stack_tag, weak_tag, header_only_tag, fill_tag, load,
  header_size, objptr_size, array_header_size, small_gap_size_size, get_header, get_array_length,
  split_header,
}

-- GC_FORWARDED
abbrev pub forwarded : ℕ
forwarded = size_mod - 1

-- `sizeof (struct GC_stack)` and the place of its field `reserved`, by the layout rules of x86-64.
abbrev pub sizeof_stack_struct : ℕ
sizeof_stack_struct = 48

abbrev pub stack_reserved_offset : ℕ
stack_reserved_offset = 16

-- The number of bytes in one element of an array, and in a normal object.
unfoldable pub element_bytes : ObjectType → ℕ
element_bytes t = add_size t.bytes_non_objptrs (mul_size t.num_objptrs objptr_size)

unfoldable pub sizeof_array_no_header : ℕ → ℕ → ObjectType → ℕ
unfolding element_bytes
sizeof_array_no_header alignment num_elements t =
    let result = mul_size num_elements (element_bytes t) in
    align_with_extra alignment (if ltb result objptr_size then objptr_size else result)
      array_header_size

unfoldable pub sizeof_stack_no_header : Memory → ℕ → ℕ
unfolding load
sizeof_stack_no_header mem stack =
    add_size sizeof_stack_struct (load 8 mem (add_size stack stack_reserved_offset))

-- `while (header == GC_FORWARDED)`
unfoldable pub follow_forwarded : ℕ → Memory → ℕ → ℕ → Option ℕ
unfolding get_header objptr_to_pointer
follow_forwarded zero mem base p = none
follow_forwarded (suc fuel) mem base p =
    let rest = follow_forwarded fuel mem base (objptr_to_pointer native64 (load 8 mem p) base) in
    if get_header mem p == forwarded then rest else some p

-- `while ((header & 1) == 0)`
unfoldable pub follow_threaded : ℕ → Memory → ℕ → Option ℕ
follow_threaded zero mem header = none
follow_threaded (suc fuel) mem header =
    let rest = follow_threaded fuel mem (load header_size mem header) in
    if bit_and header 1 == 0 then rest else some header

-- sizeofObject's cases on the tag. q is where the forwarding pointers led to, p where they began.
unfoldable pub header_and_object_bytes : ℕ → Memory → ObjectType → ℕ → ℕ → ℕ × ℕ
unfolding sizeof_array_no_header sizeof_stack_no_header element_bytes
header_and_object_bytes alignment mem t p q = elim t.tag [
  | array_tag ↦ (array_header_size, sizeof_array_no_header alignment (get_array_length mem q) t)
  | normal_tag ↦ (normal_header_size, element_bytes t)
  | stack_tag ↦ (header_size, sizeof_stack_no_header mem p)
  | weak_tag ↦ (normal_header_size, element_bytes t)
  | header_only_tag ↦ (header_size, 0)
  | fill_tag ↦ (header_size, add_size small_gap_size_size (load 4 mem q))
]

-- The same cases in sizeofObjectNoHeader.
unfoldable pub object_bytes : ℕ → Memory → ObjectType → ℕ → ℕ → ℕ
unfolding sizeof_array_no_header sizeof_stack_no_header element_bytes
object_bytes alignment mem t p q = elim t.tag [
  | array_tag ↦ sizeof_array_no_header alignment (get_array_length mem q) t
  | normal_tag ↦ element_bytes t
  | stack_tag ↦ sizeof_stack_no_header mem p
  | weak_tag ↦ element_bytes t
  | header_only_tag ↦ 0
  | fill_tag ↦ add_size small_gap_size_size (load 4 mem q)
]

unfoldable pub header_bytes_of : ObjectType → ℕ
header_bytes_of t = elim t.tag [ array_tag ↦ array_header_size | _ ↦ normal_header_size ]

unfoldable pub sizeof_object_header : List ObjectType → ℕ → Option ℕ
unfolding split_header header_bytes_of
sizeof_object_header types header = elim (split_header types header) [
  | none ↦ none
  | some t ↦ some (header_bytes_of t)
]

module _ (types : List ObjectType) (base : ℕ) where
  -- The object that p leads to, and the type that its header names.
  unfoldable pub type_of_object : ℕ → Memory → ℕ → Option (ℕ × ObjectType)
  unfolding follow_forwarded follow_threaded split_header
  type_of_object fuel mem p = elim (follow_forwarded fuel mem base p) [
    | none ↦ none
    | some q ↦ elim (follow_threaded fuel mem (get_header mem q)) [
      | none ↦ none
      | some header ↦ elim (split_header types header) [ none ↦ none | some t ↦ some (q, t) ]
    ]
  ]

  unfoldable pub sizeof_object : ℕ → ℕ → Memory → ℕ → Option ℕ
  unfolding type_of_object header_and_object_bytes
  sizeof_object alignment fuel mem p = elim (type_of_object fuel mem p) [
    | none ↦ none
    | some (q, t) ↦
        (let bytes = header_and_object_bytes alignment mem t p q in some (add_size bytes.0 bytes.1))
  ]

  unfoldable pub sizeof_object_no_header : ℕ → ℕ → Memory → ℕ → Option ℕ
  unfolding type_of_object object_bytes
  sizeof_object_no_header alignment fuel mem p = elim (type_of_object fuel mem p) [
    | none ↦ none
    | some (q, t) ↦ some (object_bytes alignment mem t p q)
  ]
