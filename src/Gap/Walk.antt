-- ===== src/Gap/Walk.antt =====
-- A walk over the heap that comes to a gap that was filled goes on at its end.
use multi_mlton.Prelude.{
  ℕ, suc, ◌+◌, ◌-◌, ◌%◌, ◌^◌, ◌≤◌, ◌<◌, ◌≡◌, ◌≢◌, ◌⊎◌, inl, inr, refl, true, false, ◌==◌, ltb, leb,
  some, List, leb→le, not_leb→lt, ==_iff, Bool-cases, arith,
}
use multi_mlton.Align.{size_mod, IsPow2, add_size, sub_size, mul_size, is_aligned, align_with_extra}
use multi_mlton.Align.Laws.{align_self, pow-le}
use multi_mlton.CardMap.{Memory}
use multi_mlton.Object.{
  ObjectType, load, get_header, get_headerp, get_array_length, get_array_lengthp,
  advance_to_object_data, build_header_from_type_index,
}
use multi_mlton.ObjectSize.{
  element_bytes, sizeof_array_no_header, header_and_object_bytes, sizeof_object,
}
use multi_mlton.ArrayAllocate.{store}
use multi_mlton.NewObject.Stores.{load-store}
use multi_mlton.Gap.{
  word8_vector_type_index, header_only_type_index, fill_type_index, fill_array, fill_gap,
}
use multi_mlton.Gap.Fillers.{
  Fillers, vector_header, header_only_header, fill_header, size_at, arrayed, fill_array_lem,
  arrayed_counter, arrayed_length, arrayed_header, gapped, gapped_header, gapped_rest,
}

-- The size of an array of bytes that ends on an aligned address.
array_bytes :
    (alignment n : ℕ) (t : ObjectType)
    → t.bytes_non_objptrs ≡ 1
    → t.num_objptrs ≡ 0
    → IsPow2 alignment
    → 8 ≤ n
    → n + 24 + alignment ≤ size_mod
    → is_aligned (n + 24) alignment ≡ true
    → sizeof_array_no_header alignment n t ≡ n
unfolding sizeof_array_no_header element_bytes align_with_extra
array_bytes alignment n t one none_there pow large fits al =
    let element : element_bytes t ≡ 1 = omega (arith, one, none_there) in
    let bytes : mul_size n 1 ≡ n = omega (arith, fits) in
    let not_small : ltb n 8 ≡ false = ground arith in
    let sum : add_size n 24 ≡ n + 24 = omega (arith, fits, pow-le pow) in
    let same = align_self (n + 24) pow fits al in
    let back : sub_size (n + 24) 24 ≡ n = omega (arith, fits, pow-le pow) in
    rw (element, bytes, not_small, sum, same, back) refl

-- The header that is written is found, and the size of the object is the gap.
module _ (types : List ObjectType) (base alignment fuel : ℕ) (f : Fillers types) (mem : Memory)
    (start diff : ℕ) (fits : start + diff + 8 < size_mod) where
  header_behind : (m : Memory) (h : ℕ) → load 8 m start ≡ h → get_header m (start + 8) ≡ h
  unfolding get_header get_headerp
  header_behind m h e = let at : sub_size (start + 8) 8 ≡ start = omega arith in rw at e

  advance_plain :
      (m : Memory) (h : ℕ)
      → load 8 m start ≡ h
      → (0 == h) ≡ false
      → advance_to_object_data m start ≡ start + 8
  unfolding advance_to_object_data
  advance_plain m h e n = let at : add_size start 8 ≡ start + 8 = omega arith in rw (e, n, at) refl

  advance_array :
      (m : Memory) → 32 ≤ diff → load 8 m start ≡ 0 → advance_to_object_data m start ≡ start + 24
  unfolding advance_to_object_data
  advance_array m large e = let at : add_size start 24 ≡ start + 24 = omega arith in rw (e, at) refl

  array_header_behind :
      32 ≤ diff
      → get_header (arrayed mem start diff fits) (start + 24)
        ≡ build_header_from_type_index word8_vector_type_index
  unfolding get_header get_headerp
  array_header_behind large =
      let at : sub_size (start + 24) 8 ≡ start + 16 = omega arith in
      rw at (arrayed_header mem start diff fits large)

  array_bytes_found :
      32 ≤ diff
      → IsPow2 alignment
      → diff + alignment ≤ size_mod
      → is_aligned diff alignment ≡ true
      → add_size
          (header_and_object_bytes alignment
            (arrayed mem start diff fits)
            f.vector
            (start + 24)
            (start + 24)).0
          (header_and_object_bytes alignment
            (arrayed mem start diff fits)
            f.vector
            (start + 24)
            (start + 24)).1
        ≡ diff
  unfolding header_and_object_bytes get_array_length get_array_lengthp
  array_bytes_found large pow room al =
      let at : sub_size (sub_size (start + 24) 8) 8 ≡ start + 8 = omega arith in
      let whole : diff - 24 + 24 ≡ diff = omega arith in
      let al' : is_aligned (diff - 24 + 24) alignment ≡ true = rw whole al in
      let n =
        array_bytes alignment (diff - 24) f.vector f.vector_bytes f.vector_objptrs pow (omega arith)
          (omega arith) al' in
      let sum : add_size 24 (diff - 24) ≡ diff = omega arith in
      rw (f.vector_tag, at, arrayed_length mem start diff fits large, n) sum

  array_size :
      32 ≤ diff
      → IsPow2 alignment
      → diff + alignment ≤ size_mod
      → is_aligned diff alignment ≡ true
      → sizeof_object types base alignment
          (suc fuel)
          (fill_array mem start diff)
          (advance_to_object_data (fill_array mem start diff) start)
        ≡ some diff
  array_size large pow room al =
      let m = arrayed mem start diff fits in
      let behind = array_header_behind large in
      let sized =
        size_at types base alignment fuel m (start + 24) word8_vector_type_index f.vector behind
          (omega arith) (rw vector_header refl) (rw vector_header refl) f.vector_at in
      rw
        (
          fill_array_lem mem start diff fits large,
          advance_array m large (arrayed_counter mem start diff fits large),
          sized,
          array_bytes_found large pow room al,
        )
        refl

  abbrev headed : Memory
  headed = store 8 mem start (build_header_from_type_index header_only_type_index)

  header_only_size :
      diff ≡ 8
      → sizeof_object types base alignment (suc fuel) headed (advance_to_object_data headed start)
        ≡ some diff
  unfolding header_and_object_bytes
  header_only_size e =
      let there : load 8 headed start ≡ build_header_from_type_index header_only_type_index =
        load-store 8 mem start (build_header_from_type_index header_only_type_index) (omega arith)
          (omega (arith, header_only_header)) in
      let sized =
        size_at types base alignment fuel headed (start + 8) header_only_type_index f.header_only
          (header_behind headed _ there) (omega arith) (rw header_only_header refl)
          (rw header_only_header refl) f.header_only_at in
      rw
        (
          advance_plain headed (build_header_from_type_index header_only_type_index) there
              (rw header_only_header refl),
          sized,
          f.header_only_is,
          e,
        )
        refl

  fill_size :
      12 ≤ diff
      → diff < 32
      → sizeof_object types base alignment
          (suc fuel)
          (gapped mem start diff fits)
          (advance_to_object_data (gapped mem start diff fits) start)
        ≡ some diff
  unfolding header_and_object_bytes
  fill_size large small =
      let m = gapped mem start diff fits in
      let there = gapped_header mem start diff fits large in
      let sized =
        size_at types base alignment fuel m (start + 8) fill_type_index f.fill
          (header_behind m _ there) (omega arith) (rw fill_header refl) (rw fill_header refl)
          f.fill_at in
      let total : add_size 8 (add_size 4 (diff - 12)) ≡ diff = omega arith in
      rw
        (
          advance_plain m (build_header_from_type_index fill_type_index) there
              (rw fill_header refl),
          sized,
          f.fill_is,
          gapped_rest mem start diff fits large (omega arith),
          total,
        )
        refl

  -- For a gap of 8 bytes, or of 12 or more, that starts at an address other than 0 and ends before
  -- the last 8 bytes of the address space, with a table that has the three types that fill gaps, an
  -- alignment that is a power of two and divides the gap if that has 32 bytes or more: fillGap
  -- fills it, and sizeofObject at the data of the object found there gives exactly the bytes of the
  -- gap.
  pub fill_gap_lem :
      start ≢ 0
      → (diff ≡ 8) ⊎ (12 ≤ diff)
      → IsPow2 alignment
      → diff + alignment ≤ size_mod
      → (32 ≤ diff → is_aligned diff alignment ≡ true)
      → (mem' : Memory) × (fill_gap mem start (start + diff) ≡ some (diff, mem'))
        × (sizeof_object types base alignment (suc fuel) mem' (advance_to_object_data mem' start)
            ≡ some diff)
  unfolding fill_gap
  fill_gap_lem not_null length pow room al =
      let d : sub_size (start + diff) start ≡ diff = omega arith in
      let some_there : (diff == 0) ≡ false = elim length [
        | inl e ↦ ground arith
        | inr l ↦ ground arith
      ] in
      let real : (start == 0) ≡ false = ground arith in
      elim (Bool-cases (leb 32 diff)) [
        | inl large ↦ (
          fill_array mem start diff,
          rw (d, some_there, real, large) refl,
          array_size (leb→le 32 diff large) pow room (al (leb→le 32 diff large)),
        )
        | inr not_large ↦ (elim (Bool-cases (diff == 8)) [
          | inl eight ↦ (
            headed,
            rw (d, some_there, real, not_large, eight) refl,
            header_only_size ((==_iff diff 8).0 eight),
          )
          | inr other ↦
              (let large : 12 ≤ diff = elim length [ inl e ↦ absurd (ground arith) | inr l ↦ l ] in
                let enough : leb 12 diff ≡ true = ground arith in
                let rest : sub_size diff 12 % 2 ^ 32 ≡ diff - 12 =
                  omega (arith, not_leb→lt 32 diff not_large) in
                let at : add_size start 8 ≡ start + 8 = omega arith in
                (
                  gapped mem start diff fits,
                  rw (d, some_there, real, not_large, other, enough, rest, at) refl,
                  fill_size large (not_leb→lt 32 diff not_large),
                ))
        ])
      ]
