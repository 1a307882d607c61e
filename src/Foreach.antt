-- ===== src/Foreach.antt =====
-- runtime/gc/foreach.c: callIfIsObjptr, and foreachObjptrInObject, the walk over the object pointers
-- of one object that every collector uses. `f` is the callback, which may change memory at the slot
-- that it is given. `frame_of` is getFrameLayoutFromReturnAddress, whose tables the compiled program
-- brings. The loops take fuel. 64-bit native object pointers, as in Object.
pub mod Slots
pub mod Visits
pub mod Whole
mod Tests
use multi_mlton.Prelude.{
  ℕ, zero, suc, ◌+◌, ◌-◌, ◌*◌, ◌^◌, Bool, true, false, not, ◌==◌, ltb, if◌then◌else◌, Option, none,
  some, List, [], ◌∷◌,
}
use multi_mlton.Align.{add_size, sub_size, mul_size, align_with_extra}
use multi_mlton.CardMap.{Memory}
use multi_mlton.Objptr.{native64, is_objptr, bogus_objptr}
use multi_mlton.Object.{
  ObjectTypeTag, ObjectType, array_tag, normal_tag, stack_tag, weak_tag, header_only_tag, fill_tag,
  load, objptr_size, array_header_size, small_gap_size_size, get_header, get_array_length,
  split_header,
}
use multi_mlton.ObjectSize.{sizeof_stack_struct, stack_reserved_offset, element_bytes}
use multi_mlton.ArrayAllocate.{store}
use multi_mlton.Heap.Types.{Heap}
use multi_mlton.Heap.Predicates.{is_objptr_in_heap}

-- Places of fields in `struct GC_stack`, and GC_RETURNADDRESS_SIZE.
abbrev pub stack_used_offset : ℕ
stack_used_offset = 24

abbrev pub stack_thread_offset : ℕ
stack_thread_offset = 32

abbrev pub return_address_size : ℕ
return_address_size = 8

-- `struct GC_frameLayout`: the size, and the offsets of the object pointers (offsets[1] on).
pub record FrameLayout : Type 0 where
  pub size : ℕ
  pub offsets : List ℕ

module _ (f : Memory → ℕ → Memory) where
  unfoldable pub call_if_is_objptr : Memory → ℕ → Memory
  unfolding load
  call_if_is_objptr mem opp =
      if is_objptr native64 (load objptr_size mem opp) then f mem opp else mem

  -- `for ( ; p < last; p += OBJPTR_SIZE) callIfIsObjptr (s, f, p);`
  unfoldable pub for_objptrs : ℕ → Memory → ℕ → ℕ → Option (ℕ × Memory)
  unfolding call_if_is_objptr
  for_objptrs zero mem p last = none
  for_objptrs (suc fuel) mem p last =
      let rest = for_objptrs fuel (call_if_is_objptr mem p) (add_size p objptr_size) last in
      if ltb p last then rest else some (p, mem)

  -- The loop over the elements of an array that mixes pointers and other data.
  unfoldable pub for_elements : ℕ → ℕ → ℕ → ℕ → Memory → ℕ → ℕ → Option (ℕ × Memory)
  unfolding for_objptrs
  for_elements zero inner bytes_non_objptrs bytes_objptrs mem p last = none
  for_elements (suc fuel) inner bytes_non_objptrs bytes_objptrs mem p last =
      let first = add_size p bytes_non_objptrs in
      let rest : Option (ℕ × Memory) =
        elim (for_objptrs inner mem first (add_size first bytes_objptrs)) [
          | none ↦ none
          | some (p', mem') ↦ for_elements fuel inner bytes_non_objptrs bytes_objptrs mem' p' last
        ] in
      if ltb p last then rest else some (p, mem)

  unfoldable pub for_offsets : List ℕ → Memory → ℕ → Memory
  unfolding call_if_is_objptr
  for_offsets [] mem top = mem
  for_offsets (o ∷ os) mem top = for_offsets os (call_if_is_objptr mem (add_size top o)) top

  -- `while (top > bottom)`, from the frame on top down.
  unfoldable pub for_frames : (ℕ → FrameLayout) → ℕ → Memory → ℕ → ℕ → Option Memory
  unfolding for_offsets
  for_frames frame_of zero mem top bottom = none
  for_frames frame_of (suc fuel) mem top bottom =
      let layout = frame_of (load return_address_size mem (sub_size top return_address_size)) in
      let top' = sub_size top layout.size in
      let rest = for_frames frame_of fuel (for_offsets layout.offsets mem top') top' bottom in
      if ltb bottom top then rest else some mem

  module _ (alignment : ℕ) (frame_of : ℕ → FrameLayout) (skip_stack_to_thread_tracing : Bool)
      (heap : Heap) (skip_weaks : Bool) (fuel : ℕ) where
    -- The array of the object at p: where its data ends, and memory after the walk.
    unfoldable pub foreach_in_array : ObjectType → Memory → ℕ → Option (ℕ × Memory)
    unfolding for_objptrs for_elements element_bytes
    foreach_in_array t mem p =
        let data_bytes = mul_size (get_array_length mem p) (element_bytes t) in
        let last = add_size p data_bytes in
        let bytes_objptrs = mul_size t.num_objptrs objptr_size in
        let end = λ (bytes : ℕ). add_size p (align_with_extra alignment bytes array_header_size) in
        let walked : Option (ℕ × Memory) =
          if 0 == t.bytes_non_objptrs
          then for_objptrs fuel mem p last
          else for_elements fuel fuel t.bytes_non_objptrs bytes_objptrs mem p last in
        if ltb data_bytes objptr_size
        then some (end objptr_size, mem)
        else (if 0 == t.num_objptrs then some (end data_bytes, mem) else elim walked [
          | none ↦ none
          | some (p', mem') ↦ some (
            add_size (sub_size p' data_bytes)
                (align_with_extra alignment data_bytes array_header_size),
            mem',
          )
        ])

    unfoldable pub foreach_in_weak : ObjectType → Memory → ℕ → ℕ × Memory
    unfolding call_if_is_objptr
    foreach_in_weak t mem p =
        let slot = add_size p t.bytes_non_objptrs in
        if 1 == t.num_objptrs
        then (add_size slot objptr_size, if not skip_weaks then call_if_is_objptr mem slot else mem)
        else (slot, mem)

    unfoldable pub foreach_in_stack : Memory → ℕ → Option (ℕ × Memory)
    unfolding call_if_is_objptr for_frames
    foreach_in_stack mem p =
        let bottom = add_size p sizeof_stack_struct in
        let top = add_size bottom (load 8 mem (add_size p stack_used_offset)) in
        let thread_at = add_size p stack_thread_offset in
        let mem' =
          if not skip_stack_to_thread_tracing
          then call_if_is_objptr mem thread_at
          else (if not (is_objptr_in_heap heap (load objptr_size mem thread_at))
              then store objptr_size mem thread_at bogus_objptr
              else mem) in
        elim (for_frames frame_of fuel mem' top bottom) [
          | none ↦ none
          | some mem'' ↦ some (
            add_size p
                (add_size sizeof_stack_struct (load 8 mem'' (add_size p stack_reserved_offset))),
            mem'',
          )
        ]

    unfoldable pub foreach_by_tag : ObjectTypeTag → ObjectType → Memory → ℕ → Option (ℕ × Memory)
    unfolding for_objptrs foreach_in_array foreach_in_weak foreach_in_stack
    foreach_by_tag normal_tag t mem p =
        let first = add_size p t.bytes_non_objptrs in
        for_objptrs fuel mem first (add_size first (mul_size t.num_objptrs objptr_size))
    foreach_by_tag weak_tag t mem p = some (foreach_in_weak t mem p)
    foreach_by_tag array_tag t mem p = foreach_in_array t mem p
    foreach_by_tag stack_tag t mem p = foreach_in_stack mem p
    foreach_by_tag header_only_tag t mem p = some (p, mem)
    foreach_by_tag fill_tag t mem p =
        some (add_size (add_size p small_gap_size_size) (load 4 mem p), mem)

    -- foreachObjptrInObject: the end of the object, and memory after the walk.
    unfoldable pub foreach_objptr_in_object : List ObjectType → Memory → ℕ → Option (ℕ × Memory)
    unfolding foreach_by_tag split_header get_header
    foreach_objptr_in_object types mem p = elim (split_header types (get_header mem p)) [
      | none ↦ none
      | some t ↦ foreach_by_tag t.tag t mem p
    ]
