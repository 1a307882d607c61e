-- ===== src/ObjectSize/Tests.antt =====
-- An object of two pointers, reached over one forwarding pointer, and the sizes of arrays.
use multi_mlton.Prelude.{
  ℕ, ◌+◌, ◌*◌, ◌^◌, ◌≤◌, ◌≡◌, ◌==◌, refl, false, [], ◌∷◌, some, arith, ltb, leb, ◌&&◌,
  if◌then◌else◌,
}
use multi_mlton.Align.{IsPow2, add_size, align, align_with_extra}
use multi_mlton.CardMap.{Memory}
use multi_mlton.Objptr.{objptr_to_pointer}
use multi_mlton.Object.{ObjectType, normal_tag, array_tag, get_header, load, split_header}
use multi_mlton.ObjectSize.{
  element_bytes, sizeof_array_no_header, sizeof_object, sizeof_object_no_header,
  sizeof_object_header,
}
use multi_mlton.ObjectSize.Chains.{Forwards, here, there, Threads, header}
use multi_mlton.ObjectSize.Agree.{sizeof_object_lem}

abbrev pub pair_type : ObjectType
pair_type = record {
  tag = normal_tag;
  has_identity = false;
  bytes_non_objptrs = 0;
  num_objptrs = 2;
  has_identity_transitive = false;
  is_unbounded = false;
}

abbrev pub word_array : ObjectType
word_array = record pair_type { tag = array_tag; bytes_non_objptrs = 8; num_objptrs = 0 }

-- The object at 64 is forwarded to the one at 96, whose header has type index 0.
abbrev moved : Memory
moved a = if leb 56 a && ltb a 64 then 255 else (if a == 64 then 96 else (if a == 88 then 1 else 0))

sizeof_object_runs : sizeof_object (pair_type ∷ []) 0 8 4 moved 64 ≡ some 24
unfolding sizeof_object
sizeof_object_runs = refl

moved-Forwards : Forwards moved 0 1 64 96
unfolding get_header load objptr_to_pointer
moved-Forwards = there refl (here refl)

moved-Threads : Threads moved 0 (get_header moved 96) 1
unfolding get_header load
moved-Threads = header refl

split : split_header (pair_type ∷ []) 1 ≡ some pair_type
unfolding split_header
split = refl

sizeof_object_lem_example :
    (header_bytes : ℕ) × (rest : ℕ) × (sizeof_object_header (pair_type ∷ []) 1 ≡ some header_bytes)
    × (sizeof_object_no_header (pair_type ∷ []) 0 8 2 moved 64 ≡ some rest)
    × (sizeof_object (pair_type ∷ []) 0 8 2 moved 64 ≡ some (add_size header_bytes rest))
sizeof_object_lem_example =
    sizeof_object_lem 8 (pair_type ∷ []) 2 moved-Forwards (omega arith) moved-Threads (omega arith)
      split

eight : IsPow2 8
eight = (3, refl, omega arith)

sizeof_array_no_header_runs : sizeof_array_no_header 8 5 word_array ≡ 40
unfolding sizeof_array_no_header align_with_extra align
sizeof_array_no_header_runs = refl

five_fit : 5 * element_bytes word_array + 32 + 8 ≤ 2 ^ 64
unfolding element_bytes
five_fit = omega arith
