-- ===== src/Object/Tests.antt =====
-- Headers, split and built.
use multi_mlton.Prelude.{◌+◌, ◌*◌, ◌^◌, ◌≡◌, refl, false, true, [], ◌∷◌, some, get_elem?, arith}
use multi_mlton.Object.{
  ObjectType, stack_tag, normal_tag, build_header_from_type_index, split_header,
}
use multi_mlton.Object.Header.{split_header-build_header_from_type_index}

abbrev stack_type : ObjectType
stack_type = record {
  tag = stack_tag;
  has_identity = false;
  bytes_non_objptrs = 0;
  num_objptrs = 0;
  has_identity_transitive = false;
  is_unbounded = true;
}

abbrev pair_type : ObjectType
pair_type = record stack_type { tag = normal_tag; bytes_non_objptrs = 8; num_objptrs = 2 }

build_runs : build_header_from_type_index 3 ≡ 7
unfolding build_header_from_type_index
build_runs = refl

split_runs : split_header (stack_type ∷ pair_type ∷ []) (3 + 524288) ≡ some pair_type
unfolding split_header
split_runs = refl

split_header-build_header_from_type_index_example :
    split_header (stack_type ∷ pair_type ∷ []) (build_header_from_type_index 1 + 5 * 2 ^ 17)
    ≡ get_elem? (stack_type ∷ pair_type ∷ []) 1
split_header-build_header_from_type_index_example =
    split_header-build_header_from_type_index (stack_type ∷ pair_type ∷ []) 1 5 (omega arith)
