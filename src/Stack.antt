-- ===== src/Stack.antt =====
-- runtime/gc/stack.c on the 64-bit machine: the sizes of an ML stack and its copy. The ratios of
-- `s->controls` are doubles: a product by one, cut to RESERVED_MAX and converted back, is a function
-- of the model's parameter `Ratios`. The size of the frame on top, which the frame layouts of the
-- compiled program give, is a field of the stack here. The list of dangling stacks is in
-- DanglingStacks.
pub mod Reserve
mod Tests
use multi_mlton.Prelude.{
  ℕ, zero, suc, ◌+◌, ◌-◌, ◌*◌, ◌/◌, ◌%◌, ◌^◌, ◌≤◌, min, max, Bool, true, false, not, ◌==◌, ltb, leb,
  if◌then◌else◌,
}
use multi_mlton.Align.{size_mod, add_size, sub_size, mul_size, is_aligned, align_with_extra}
use multi_mlton.Object.{header_size}
use multi_mlton.ObjectSize.{sizeof_stack_struct}
use multi_mlton.CardMap.{Memory}
use multi_mlton.Heap.Predicates.{is_pointer_in_heap}
use multi_mlton.Heap.Types.{Heap}

-- `struct GC_stack` at an address, with the size of the frame on its top. The fields used during
-- marking are left out.
pub record Stack : Type 0 where
  pub address : ℕ
  pub reserved : ℕ
  pub used : ℕ
  pub top_frame_size : ℕ

-- What the code does with doubles: `grow r` is reservedGrowD, the others are named after the
-- ratios; each is already bounded by RESERVED_MAX where the source bounds it.
pub record Ratios : Type 0 where
  pub current_grow : ℕ → ℕ
  pub current_max_reserved : ℕ → ℕ
  pub current_permit_reserved : ℕ → ℕ
  pub current_shrink : ℕ → ℕ
  pub max_reserved : ℕ → ℕ
  pub shrink : ℕ → ℕ

-- `s->alignment`, `s->maxFrameSize` (a `uint16_t`) and the ratios.
pub record Controls : Type 0 where
  pub alignment : ℕ
  pub max_frame_size : ℕ
  pub ratios : Ratios

unfoldable pub is_stack_empty : Stack → Bool
is_stack_empty k = 0 == k.used

abbrev pub stack_header_size : ℕ
stack_header_size = header_size

-- GC_STACK_HEADER_SIZE + sizeof (struct GC_stack)
abbrev pub stack_extra : ℕ
stack_extra = stack_header_size + sizeof_stack_struct

unfoldable pub get_stack_bottom : Stack → ℕ
get_stack_bottom k = add_size k.address sizeof_stack_struct

unfoldable pub get_stack_top : Stack → ℕ
unfolding get_stack_bottom
get_stack_top k = add_size (get_stack_bottom k) k.used

unfoldable pub get_stack_limit_plus_slop : Stack → ℕ
unfolding get_stack_bottom
get_stack_limit_plus_slop k = add_size (get_stack_bottom k) k.reserved

-- getStackTopFrameSize, on a stack that is not empty.
unfoldable pub get_stack_top_frame_size : Stack → ℕ
get_stack_top_frame_size k = k.top_frame_size

module _ (c : Controls) where
  unfoldable pub is_stack_reserved_aligned : ℕ → Bool
  is_stack_reserved_aligned reserved = is_aligned (add_size stack_extra reserved) c.alignment

  unfoldable pub sizeof_stack_slop : ℕ
  sizeof_stack_slop = mul_size 2 c.max_frame_size

  unfoldable pub get_stack_limit : Stack → ℕ
  unfolding get_stack_limit_plus_slop sizeof_stack_slop
  get_stack_limit k = sub_size (get_stack_limit_plus_slop k) sizeof_stack_slop

  unfoldable pub align_stack_reserved : ℕ → ℕ
  align_stack_reserved reserved = align_with_extra c.alignment reserved stack_extra

  unfoldable pub sizeof_stack_with_header : ℕ → ℕ
  sizeof_stack_with_header reserved = add_size stack_extra reserved

  unfoldable pub sizeof_stack_initial_reserved : ℕ
  unfolding align_stack_reserved sizeof_stack_slop
  sizeof_stack_initial_reserved = align_stack_reserved sizeof_stack_slop

  unfoldable pub sizeof_stack_minimum_reserved : Stack → ℕ
  unfolding align_stack_reserved sizeof_stack_slop get_stack_top_frame_size
  sizeof_stack_minimum_reserved k =
      align_stack_reserved
        (sub_size (add_size k.used sizeof_stack_slop) (get_stack_top_frame_size k))

  unfoldable pub sizeof_stack_grow_reserved : Stack → ℕ
  unfolding align_stack_reserved sizeof_stack_minimum_reserved
  sizeof_stack_grow_reserved k =
      align_stack_reserved
        (max (c.ratios.current_grow k.reserved) (sizeof_stack_minimum_reserved k))

  -- sizeofStackShrinkReserved; the Boolean is its argument `current`.
  unfoldable pub sizeof_stack_shrink_reserved : Stack → Bool → ℕ
  unfolding align_stack_reserved sizeof_stack_minimum_reserved
  sizeof_stack_shrink_reserved k true =
      let reserved_max = c.ratios.current_max_reserved k.used in
      let reserved_permit = c.ratios.current_permit_reserved k.used in
      let reserved_shrink =
        if leb k.reserved reserved_permit then k.reserved else c.ratios.current_shrink k.reserved in
      min k.reserved (
        align_stack_reserved
          (max (min reserved_max reserved_shrink) (sizeof_stack_minimum_reserved k)))
  sizeof_stack_shrink_reserved k false = min k.reserved (
      align_stack_reserved
        (max (min (c.ratios.max_reserved k.used) (c.ratios.shrink k.reserved)) k.used))

-- copyStack; GC_memcpy copies between regions that do not overlap.
unfoldable pub copy_stack : Stack → Stack → Memory → Stack × Memory
unfolding get_stack_bottom
copy_stack from to mem =
    let from_bottom = get_stack_bottom from in
    let to_bottom = get_stack_bottom to in
    (
      record to { used = from.used },
      λ a.
          if leb to_bottom a
          then (if ltb a (to_bottom + from.used)
              then mem (from_bottom + (a - to_bottom))
              else mem a)
          else mem a,
    )
