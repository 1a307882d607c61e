-- ===== src/Gap/Fillers.antt =====
-- The types that fill gaps, and what is read of a gap that has been filled.
use multi_mlton.Prelude.{
  ℕ, suc, ◌+◌, ◌-◌, ◌*◌, ◌^◌, ◌≤◌, ◌<◌, ◌≡◌, ◌∙◌, inl, refl, false, ◌==◌, some, List, get_elem?,
  bit_and, arith,
}
use multi_mlton.Align.{size_mod, add_size, sub_size}
use multi_mlton.CardMap.{Memory}
use multi_mlton.Object.{
  ObjectType, array_tag, header_only_tag, fill_tag, load, get_header, split_header,
  build_header_from_type_index,
}
use multi_mlton.Object.Header.{split_header-build_header_from_type_index}
use multi_mlton.ObjectSize.{forwarded, header_and_object_bytes, sizeof_object}
use multi_mlton.ObjectSize.Chains.{here, header, type_of_object_lem}
use multi_mlton.ArrayAllocate.{store}
use multi_mlton.NewObject.Stores.{load-store, load-store_apart}
use multi_mlton.Gap.{word8_vector_type_index, header_only_type_index, fill_type_index, fill_array}

-- What the table of types of every program says of the types that fill gaps.
pub record Fillers (types : List ObjectType) : Type 0 where
  pub vector : ObjectType
  pub vector_at : get_elem? types word8_vector_type_index ≡ some vector
  pub vector_tag : vector.tag ≡ array_tag
  pub vector_bytes : vector.bytes_non_objptrs ≡ 1
  pub vector_objptrs : vector.num_objptrs ≡ 0
  pub header_only : ObjectType
  pub header_only_at : get_elem? types header_only_type_index ≡ some header_only
  pub header_only_is : header_only.tag ≡ header_only_tag
  pub fill : ObjectType
  pub fill_at : get_elem? types fill_type_index ≡ some fill
  pub fill_is : fill.tag ≡ fill_tag

pub vector_header : build_header_from_type_index word8_vector_type_index ≡ 7
unfolding build_header_from_type_index
vector_header = refl

pub header_only_header : build_header_from_type_index header_only_type_index ≡ 15
unfolding build_header_from_type_index
header_only_header = refl

pub fill_header : build_header_from_type_index fill_type_index ≡ 17
unfolding build_header_from_type_index
fill_header = refl

-- sizeofObject at an object whose header is one of those three.
module _ (types : List ObjectType) (base alignment fuel : ℕ) where
  pub size_at :
      (mem : Memory) (p k : ℕ) (t : ObjectType)
      → get_header mem p ≡ build_header_from_type_index k
      → k < 16
      → (build_header_from_type_index k == forwarded) ≡ false
      → (bit_and (build_header_from_type_index k) 1 == 0) ≡ false
      → get_elem? types k ≡ some t
      → sizeof_object types base alignment (suc fuel) mem p
        ≡ some (
            add_size
              (header_and_object_bytes alignment mem t p p).0
              (header_and_object_bytes alignment mem t p p).1)
  unfolding sizeof_object
  size_at mem p k t e small fresh unthreaded at =
      let plain : build_header_from_type_index k + 0 * 2 ^ 17 ≡ build_header_from_type_index k =
        omega arith in
      let split : split_header types (build_header_from_type_index k) ≡ some t =
        rw⁻¹ plain (split_header-build_header_from_type_index types k 0 (omega arith) ∙ at) in
      let found =
        type_of_object_lem types (suc fuel) {mem = mem} {base = base} {p = p} {t = t}
          (here (rw e fresh)) (omega arith) (header (rw e unthreaded)) (omega arith) (rw e split) in
      rw (sizeof_object, found) refl

-- The three kinds of filler: what is read at the start of the gap, and the size of the object.
module _ (mem : Memory) (start diff : ℕ) (fits : start + diff + 8 < size_mod) where
  abbrev pub arrayed : Memory
  arrayed =
      store 8 (store 8 (store 8 mem start 0) (start + 8) (diff - 24)) (start + 16)
        (build_header_from_type_index word8_vector_type_index)

  pub fill_array_lem : 32 ≤ diff → fill_array mem start diff ≡ arrayed
  unfolding fill_array
  fill_array_lem large =
      let e : add_size start 8 ≡ start + 8 = omega arith in
      let e' : add_size (start + 8) 8 ≡ start + 16 = omega arith in
      let e'' : sub_size diff 24 ≡ diff - 24 = omega arith in rw (e, e', e'') refl

  pub arrayed_counter : 32 ≤ diff → load 8 arrayed start ≡ 0
  arrayed_counter large =
      load-store_apart 8 8 (store 8 (store 8 mem start 0) (start + 8) (diff - 24)) (start + 16)
        (build_header_from_type_index word8_vector_type_index) start (omega arith) (omega arith)
        (inl (omega arith))
      ∙ load-store_apart 8 8 (store 8 mem start 0) (start + 8) (diff - 24) start (omega arith)
          (omega arith) (inl (omega arith))
      ∙ load-store 8 mem start 0 (omega arith) (omega arith)

  pub arrayed_length : 32 ≤ diff → load 8 arrayed (start + 8) ≡ diff - 24
  arrayed_length large =
      load-store_apart 8 8 (store 8 (store 8 mem start 0) (start + 8) (diff - 24)) (start + 16)
        (build_header_from_type_index word8_vector_type_index) (start + 8) (omega arith)
        (omega arith) (inl (omega arith))
      ∙ load-store 8 (store 8 mem start 0) (start + 8) (diff - 24) (omega arith) (omega arith)

  pub arrayed_header :
      32 ≤ diff → load 8 arrayed (start + 16) ≡ build_header_from_type_index word8_vector_type_index
  arrayed_header large =
      load-store 8 (store 8 (store 8 mem start 0) (start + 8) (diff - 24)) (start + 16)
        (build_header_from_type_index word8_vector_type_index) (omega arith)
        (omega (arith, vector_header))

  abbrev pub gapped : Memory
  gapped =
      store 4 (store 8 mem start (build_header_from_type_index fill_type_index)) (start + 8)
        (diff - 12)

  pub gapped_header : 12 ≤ diff → load 8 gapped start ≡ build_header_from_type_index fill_type_index
  gapped_header large =
      load-store_apart 8 4 (store 8 mem start (build_header_from_type_index fill_type_index))
        (start + 8) (diff - 12) start (omega arith) (omega arith) (inl (omega arith))
      ∙ load-store 8 mem start (build_header_from_type_index fill_type_index) (omega arith)
          (omega (arith, fill_header))

  pub gapped_rest : 12 ≤ diff → diff < 2 ^ 32 → load 4 gapped (start + 8) ≡ diff - 12
  gapped_rest large small =
      load-store 4 (store 8 mem start (build_header_from_type_index fill_type_index)) (start + 8)
        (diff - 12) (omega arith) (omega arith)
