-- ===== src/Gap.antt =====
-- runtime/gc/garbage-collection.c: fillGap, which writes an object over a part of the heap that holds
-- none, so that a walk over the heap can pass it. `exit (1)` is `none`.
pub mod Fillers
pub mod Walk
mod Tests
use multi_mlton.Prelude.{ℕ, ◌+◌, ◌-◌, ◌%◌, ◌^◌, ◌==◌, leb, if◌then◌else◌, Option, none, some}
use multi_mlton.Align.{add_size, sub_size}
use multi_mlton.CardMap.{Memory}
use multi_mlton.Object.{
  header_size, array_counter_size, array_length_size, array_header_size, objptr_size,
  small_gap_size_size, build_header_from_type_index,
}
use multi_mlton.ArrayAllocate.{store}

abbrev pub word8_vector_type_index : ℕ
word8_vector_type_index = 3

abbrev pub header_only_type_index : ℕ
header_only_type_index = 7

abbrev pub fill_type_index : ℕ
fill_type_index = 8

-- GC_BONUS_SLOP
abbrev pub bonus_slop : ℕ
bonus_slop = header_size + small_gap_size_size

-- An array of bytes, as long as the gap.
unfoldable pub fill_array : Memory → ℕ → ℕ → Memory
unfolding store build_header_from_type_index
fill_array mem start diff =
    let length_at = add_size start array_counter_size in
    let header_at = add_size length_at array_length_size in
    store header_size
      (store array_length_size (store array_counter_size mem start 0) length_at
        (sub_size diff array_header_size))
      header_at (build_header_from_type_index word8_vector_type_index)

-- The number of bytes filled, and memory.
unfoldable pub fill_gap : Memory → ℕ → ℕ → Option (ℕ × Memory)
unfolding fill_array store build_header_from_type_index
fill_gap mem start end =
    let diff = sub_size end start in
    if diff == 0
    then some (0, mem)
    else (if start == 0
        then some (0, mem)
        else (if leb (array_header_size + objptr_size) diff
            then some (diff, fill_array mem start diff)
            else (if diff == header_size
                then some (
                  diff,
                  store header_size mem start (build_header_from_type_index header_only_type_index),
                )
                else (if leb bonus_slop diff
                    then some (
                      diff,
                      store small_gap_size_size
                          (store header_size mem start
                            (build_header_from_type_index fill_type_index))
                          (add_size start header_size) (sub_size diff bonus_slop % 2 ^ 32),
                    )
                    else none))))
