-- ===== src/Forward/Tests.antt =====
-- The pair at 64, to which the slots at 200 and 216 point, goes to the to-space at 1000.
use multi_mlton.Prelude.{
  ◌+◌, ◌≡◌, refl, inl, inr, some, false, [], ◌∷◌, arith, ◌==◌, leb, ltb, ◌&&◌, if◌then◌else◌,
}
use multi_mlton.CardMap.{Memory}
use multi_mlton.Objptr.{is_objptr, is_pointer, objptr_to_pointer}
use multi_mlton.Object.{ObjectType, normal_tag, load, get_header, get_headerp, split_header}
use multi_mlton.ObjectSize.{forwarded, header_and_object_bytes, element_bytes}
use multi_mlton.Heap.Types.{Heap, local_heap, shared_heap}
use multi_mlton.Heap.Predicates.{is_object_lifted, is_objptr_in_from_space}
use multi_mlton.Stack.{Controls}
use multi_mlton.Forward.{Collector, returned, forward_objptr, fix_fwd_objptr}
use multi_mlton.Forward.Copy.{sizes, forward_objptr_lem}
use multi_mlton.Forward.Places.{Places, Forwarded}
use multi_mlton.Forward.Twice.{forward_objptr_twice}
use multi_mlton.Forward.Barrier.{Leads, object, hop, SameBut, fix_fwd_objptr_lem}

abbrev pair_type : ObjectType
pair_type = record {
  tag = normal_tag;
  has_identity = false;
  bytes_non_objptrs = 8;
  num_objptrs = 2;
  has_identity_transitive = false;
  is_unbounded = false;
}

abbrev pair_mem : Memory
pair_mem a =
    if a == 56
    then 1
    else (if a == 72 then 65 else (if a == 200 then 64 else (if a == 216 then 64 else 0)))

abbrev controls : Controls
controls = record {
  alignment = 8;
  max_frame_size = 64;
  ratios = record {
    current_grow = λ r. r;
    current_max_reserved = λ r. r;
    current_permit_reserved = λ r. r;
    current_shrink = λ r. r;
    max_reserved = λ r. r;
    shrink = λ r. r;
  };
}

abbrev from_heap : Heap
from_heap = record {
  kind = local_heap;
  nursery = 516;
  old_gen_size = 500;
  size = 600;
  start = 16;
  with_maps_size = 600;
  available_size = 600;
  frontier = 516;
}

abbrev collector : Collector
collector = record {
  state = record {
    heap = from_heap;
    shared_heap = record from_heap { kind = shared_heap; start = 4096; nursery = 4596 };
    frontier = 516;
    limit_plus_slop = 616;
    shared_frontier = 4596;
    shared_limit_plus_slop = 4696;
    can_minor = false;
  };
  mem = pair_mem;
  weaks = 0;
  forward_state = record {
    am_in_minor_gc = false;
    back = 1000;
    to_start = 1000;
    to_limit = 2000;
    force_stack_forwarding = false;
  };
}

pair_split : split_header (pair_type ∷ []) (get_header pair_mem 64) ≡ some pair_type
unfolding split_header get_header load
pair_split = refl

pair_unlifted : is_object_lifted (get_header pair_mem 64) ≡ false
unfolding is_object_lifted get_header load
pair_unlifted = refl

pair_fresh : (get_header pair_mem 64 == forwarded) ≡ false
unfolding get_header load
pair_fresh = refl

pair_Places :
    Places collector 200 64
      (sizes (pair_type ∷ []) controls (λ k. 0) 0 pair_type collector 64).0
      (sizes (pair_type ∷ []) controls (λ k. 0) 0 pair_type collector 64).1
unfolding header_and_object_bytes element_bytes load
pair_Places = record {
  points = refl;
  header_low = omega arith;
  header_in = omega arith;
  object_large = omega arith;
  object_in = omega arith;
  room = omega arith;
  limit_in = omega arith;
  slot_in = omega arith;
  copy_apart = inl (omega arith);
  slot_apart = inl (omega arith);
  slot_object = inr (omega arith);
}

pair_Places_again :
    Places collector 216 64
      (sizes (pair_type ∷ []) controls (λ k. 0) 0 pair_type collector 64).0
      (sizes (pair_type ∷ []) controls (λ k. 0) 0 pair_type collector 64).1
unfolding header_and_object_bytes element_bytes load
pair_Places_again = record {
  points = refl;
  header_low = omega arith;
  header_in = omega arith;
  object_large = omega arith;
  object_in = omega arith;
  room = omega arith;
  limit_in = omega arith;
  slot_in = omega arith;
  copy_apart = inl (omega arith);
  slot_apart = inl (omega arith);
  slot_object = inr (omega arith);
}

copy_outside :
    is_objptr_in_from_space collector.state collector.state.heap (
      collector.forward_state.back
      + (sizes (pair_type ∷ []) controls (λ k. 0) 0 pair_type collector 64).0)
    ≡ false
unfolding header_and_object_bytes is_objptr_in_from_space is_objptr is_pointer objptr_to_pointer
copy_outside = refl

forward_objptr_lem_example :
    (s' : Collector) × (forward_objptr (pair_type ∷ []) controls (λ k. 0) 0 2 collector 200
      ≡ returned s')
    × Forwarded collector s' 200 64
        (sizes (pair_type ∷ []) controls (λ k. 0) 0 pair_type collector 64).0
        (sizes (pair_type ∷ []) controls (λ k. 0) 0 pair_type collector 64).1
forward_objptr_lem_example =
    forward_objptr_lem (pair_type ∷ []) controls (λ k. 0) 0 0 collector 200 64 pair_type pair_split
      (inl refl) pair_unlifted pair_fresh pair_Places copy_outside

forward_objptr_twice_example :
    (s' s'' : Collector) × (forward_objptr (pair_type ∷ []) controls (λ k. 0) 0 2 collector 200
      ≡ returned s')
    × (forward_objptr (pair_type ∷ []) controls (λ k. 0) 0 2 s' 216 ≡ returned s'')
    × (load 8 s''.mem 200 ≡ load 8 s''.mem 216)
    × (load 8 s''.mem 216
        ≡ collector.forward_state.back
          + (sizes (pair_type ∷ []) controls (λ k. 0) 0 pair_type collector 64).0)
    × (s''.forward_state ≡ s'.forward_state)
forward_objptr_twice_example =
    forward_objptr_twice (pair_type ∷ []) controls (λ k. 0) 0 0 collector 200 216 64 pair_type
      pair_split (inl refl) pair_unlifted pair_fresh pair_Places pair_Places_again
      (inl (omega arith)) copy_outside

-- The object at 64 has gone to 128; the slot at 200 has not followed yet.
abbrev moved : Memory
moved a =
    if leb 56 a && ltb a 64
    then 255
    else (if a == 64 then 128 else (if a == 120 then 1 else (if a == 200 then 64 else 0)))

moved_slot : load 8 moved 200 ≡ 64
unfolding load
moved_slot = refl

moved_Leads : Leads moved 0 200 1 64 128
unfolding is_objptr get_header get_headerp load objptr_to_pointer
moved_Leads =
    hop refl refl (inr (omega arith)) (omega arith) (inr (omega arith)) (omega arith)
      (object refl (inr (omega arith)) (omega arith))

fix_fwd_objptr_lem_example :
    (m' : Memory) × (fix_fwd_objptr 2 0 moved 200 ≡ some m')
    × (load 8 m' 200 ≡ 128)
    × SameBut 200 moved m'
fix_fwd_objptr_lem_example =
    fix_fwd_objptr_lem 0 moved 200 (omega arith) 2 1 64 128 moved_slot refl moved_Leads
      (omega arith)
