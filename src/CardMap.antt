-- ===== src/CardMap.antt =====
-- runtime/gc/generational.c and generational.h: the card map and the cross map behind a heap, their
-- sizes, and the marking of cards. Addresses and sizes are `size_t`; a map element is a byte.
-- The walk over the old generation that fills the cross map is not modelled here.
pub mod Sizes
mod Tests
use multi_mlton.Prelude.{
  ℕ, ◌+◌, ◌-◌, ◌*◌, ◌/◌, ◌%◌, ◌^◌, Bool, true, false, not, ◌&&◌, ◌==◌, ltb, leb, if◌then◌else◌,
}
use multi_mlton.Align.{size_mod, add_size, sub_size, mul_size, align}

abbrev pub card_size_log2 : ℕ
card_size_log2 = 8

abbrev pub card_size : ℕ
card_size = 256

-- CROSS_MAP_EMPTY
abbrev pub cross_map_empty : ℕ
cross_map_empty = 255

-- CARD_MAP_ELEM_SIZE and CROSS_MAP_ELEM_SIZE
abbrev pub map_elem_size : ℕ
map_elem_size = 1

unfoldable pub size_to_card_map_index : ℕ → ℕ
size_to_card_map_index z = z / 2 ^ card_size_log2

unfoldable pub card_map_index_to_size : ℕ → ℕ
card_map_index_to_size i = mul_size i (2 ^ card_size_log2)

unfoldable pub pointer_to_card_map_index_absolute : ℕ → ℕ
pointer_to_card_map_index_absolute p = p / 2 ^ card_size_log2

unfoldable pub size_to_cross_map_index : ℕ → ℕ
size_to_cross_map_index z = z / 2 ^ card_size_log2

-- `marks` is `s->mutatorMarksCards`, `page` is `s->sysvals.pageSize`.
module _ (marks : Bool) (page : ℕ) where
  unfoldable pub sizeof_card_map : ℕ → ℕ
  unfolding size_to_card_map_index
  sizeof_card_map heap_size =
      if not marks
      then 0
      else align (mul_size (size_to_card_map_index heap_size) map_elem_size) page

  unfoldable pub sizeof_cross_map : ℕ → ℕ
  unfolding size_to_cross_map_index
  sizeof_cross_map heap_size =
      if not marks
      then 0
      else align (mul_size (size_to_cross_map_index heap_size) map_elem_size) page

  unfoldable pub sizeof_card_map_and_cross_map : ℕ → ℕ
  unfolding sizeof_card_map sizeof_cross_map
  sizeof_card_map_and_cross_map heap_size =
      add_size (sizeof_card_map heap_size) (sizeof_cross_map heap_size)

unfoldable pub lenof_card_map : ℕ → ℕ
lenof_card_map card_map_size = card_map_size / map_elem_size

unfoldable pub lenof_cross_map : ℕ → ℕ
lenof_cross_map cross_map_size = cross_map_size / map_elem_size

-- `struct GC_generationalMaps`
pub record GenerationalMaps : Type 0 where
  pub card_map : ℕ
  pub card_map_absolute : ℕ
  pub card_map_length : ℕ
  pub cross_map : ℕ
  pub cross_map_length : ℕ
  pub cross_map_valid_size : ℕ

-- The bytes of memory.
abbrev pub Memory : Type 0
Memory = ℕ → ℕ

-- `memset` of n bytes from `start` on.
unfoldable pub memset : Memory → ℕ → ℕ → ℕ → Memory
memset mem start byte n a = if leb start a && ltb a (start + n) then byte else mem a

unfoldable pub set_card_map_absolute : Bool → ℕ → GenerationalMaps → GenerationalMaps
unfolding pointer_to_card_map_index_absolute
set_card_map_absolute marks heap_start m =
    if marks
    then record m {
      card_map_absolute = sub_size m.card_map (pointer_to_card_map_index_absolute heap_start);
    }
    else m

unfoldable pub clear_card_map : GenerationalMaps → Memory → Memory
clear_card_map m mem = memset mem m.card_map 0 (m.card_map_length * map_elem_size)

unfoldable pub clear_cross_map : GenerationalMaps → Memory → GenerationalMaps × Memory
clear_cross_map m mem = (
  record m { cross_map_valid_size = 0 },
  memset mem m.cross_map cross_map_empty (m.cross_map_length * map_elem_size),
)

unfoldable pub clear_card_map_and_cross_map : GenerationalMaps → Memory → GenerationalMaps × Memory
clear_card_map_and_cross_map m mem = clear_cross_map m (clear_card_map m mem)

-- setCardMapAndCrossMap, for a heap of the given start and size.
unfoldable pub set_card_map_and_cross_map :
    Bool → ℕ → ℕ → ℕ → GenerationalMaps → Memory → GenerationalMaps × Memory
set_card_map_and_cross_map marks page heap_start heap_size m mem =
    if not marks
    then (
      record m {
        card_map_length = 0;
        card_map = 0;
        card_map_absolute = 0;
        cross_map_length = 0;
        cross_map = 0;
      },
      mem,
    )
    else (let card_map_size = sizeof_card_map marks page heap_size in
        let cross_map_size = sizeof_cross_map marks page heap_size in
        clear_card_map_and_cross_map
          (set_card_map_absolute marks heap_start (record m {
            card_map_length = lenof_card_map card_map_size;
            cross_map_length = lenof_cross_map cross_map_size;
            card_map = add_size heap_start heap_size;
            cross_map = add_size (add_size heap_start heap_size) card_map_size;
          }))
          mem)

unfoldable pub pointer_to_card_map_addr : GenerationalMaps → ℕ → ℕ
unfolding pointer_to_card_map_index_absolute
pointer_to_card_map_addr m p = add_size m.card_map_absolute (pointer_to_card_map_index_absolute p)

unfoldable pub is_card_marked : GenerationalMaps → Memory → ℕ → Bool
is_card_marked m mem p = not (mem (pointer_to_card_map_addr m p) == 0)

-- markCard. `in_shared` is the test isPointerInHeap (s, s->sharedHeap, p).
unfoldable pub mark_card : Bool → (ℕ → Bool) → GenerationalMaps → ℕ → Memory → Memory
mark_card marks in_shared m p mem =
    if marks && not (in_shared p) then memset mem (pointer_to_card_map_addr m p) 1 1 else mem

-- getCrossMapCardStart
unfoldable pub get_cross_map_card_start : ℕ → ℕ → ℕ
get_cross_map_card_start heap_start p =
    if p == heap_start then heap_start else sub_size (sub_size p 1) (sub_size p 1 % card_size)
