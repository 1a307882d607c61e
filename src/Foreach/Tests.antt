-- ===== src/Foreach/Tests.antt =====
-- A pair of pointers at 64, walked by a callback that marks each slot.
use multi_mlton.Prelude.{ℕ, ◌+◌, ◌≡◌, ◌≢◌, ◌==◌, refl, false, some, [], ◌∷◌, arith, if◌then◌else◌}
use multi_mlton.CardMap.{Memory}
use multi_mlton.Object.{
  ObjectType, normal_tag, stack_tag, get_header, get_array_length, load, split_header,
}
use multi_mlton.ObjectSize.{object_bytes, element_bytes}
use multi_mlton.Heap.Types.{Heap, local_heap}
use multi_mlton.Foreach.{FrameLayout, foreach_objptr_in_object}
use multi_mlton.Foreach.Slots.{object_slots, visit_all}
use multi_mlton.Foreach.Whole.{Fits, foreach_objptr_in_object_lem}

abbrev pair_type : ObjectType
pair_type = record {
  tag = normal_tag;
  has_identity = false;
  bytes_non_objptrs = 8;
  num_objptrs = 2;
  has_identity_transitive = false;
  is_unbounded = false;
}

-- The object at 64: its header at 56 has type index 0; the first pointer, at 72, is 96.
abbrev pair_mem : Memory
pair_mem a = if a == 56 then 1 else (if a == 72 then 96 else (if a == 80 then 3 else 0))

abbrev overwrite : Memory → ℕ → Memory
overwrite mem p a = if a == p then 7 else mem a

abbrev no_frames : ℕ → FrameLayout
no_frames r = record { size = 8; offsets = [] }

abbrev no_heap : Heap
no_heap = record {
  kind = local_heap;
  nursery = 0;
  old_gen_size = 0;
  size = 0;
  start = 0;
  with_maps_size = 0;
  available_size = 0;
  frontier = 0;
}

pair_split : split_header (pair_type ∷ []) (get_header pair_mem 64) ≡ some pair_type
unfolding split_header get_header load
pair_split = refl

pair_not_stack : pair_type.tag ≢ stack_tag
pair_not_stack e = cc

pair_Fits : Fits 8 16 pair_mem pair_type 64
unfolding object_bytes element_bytes get_array_length load
pair_Fits = record {
  bytes_lt = omega arith;
  objptrs_lt = omega arith;
  objptrs_fuel = omega arith;
  ends = omega arith;
  elements = λ e. absurd (cc);
  elements_fuel = λ e. absurd (cc);
  weak_one = λ e. absurd (cc);
}

foreach_objptr_in_object_lem_example :
    foreach_objptr_in_object overwrite 8 no_frames false no_heap false 16
      (pair_type ∷ [])
      pair_mem
      64
    ≡ some (
      64 + object_bytes 8 pair_mem pair_type 64 64,
      visit_all overwrite
          (object_slots false (get_array_length pair_mem 64) pair_type.tag pair_type 64)
          pair_mem,
    )
foreach_objptr_in_object_lem_example =
    foreach_objptr_in_object_lem overwrite 8 no_frames false no_heap false 16 pair_mem 64
      (pair_type ∷ []) pair_split pair_not_stack pair_Fits
