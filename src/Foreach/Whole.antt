-- ===== src/Foreach/Whole.antt =====
-- foreachObjptrInObject against the independent description of the slots and the size.
use multi_mlton.Prelude.{
  ℕ, zero, suc, ◌+◌, ◌*◌, ◌^◌, ◌≤◌, ◌<◌, ◌≡◌, ◌≢◌, refl, sym, ap, Bool, true, false, not, ◌==◌, ltb,
  if◌then◌else◌, some, List, [], ◌∷◌, arith, ltb→lt, not_ltb→le, Bool-cases, inl, inr, ==_iff,
}
use multi_mlton.Align.{size_mod, add_size, sub_size, mul_size, align_with_extra}
use multi_mlton.CardMap.{Memory}
use multi_mlton.Object.{
  ObjectTypeTag, ObjectType, array_tag, normal_tag, stack_tag, weak_tag, header_only_tag, fill_tag,
  load, objptr_size, array_header_size, small_gap_size_size, get_header, get_array_length,
  split_header,
}
use multi_mlton.ObjectSize.{element_bytes, object_bytes, sizeof_array_no_header}
use multi_mlton.Heap.Types.{Heap}
use multi_mlton.Foreach.{
  FrameLayout, call_if_is_objptr, for_objptrs, for_elements, foreach_in_array, foreach_in_weak,
  foreach_by_tag, foreach_objptr_in_object,
}
use multi_mlton.Foreach.Slots.{
  slots, element_slots, object_slots, visit_all, element_slots_none, element_slots_pure,
}
use multi_mlton.Foreach.Visits.{for_objptrs_lem, for_elements_lem}

-- The sizes of the object at p that the walk relies on: the fields of its type are `uint16_t`, the
-- object ends in the address space, an array does so also before its size is rounded, and a weak
-- object has one pointer or none.
pub record Fits (alignment fuel : ℕ) (mem : Memory) (t : ObjectType) (p : ℕ) : Type 0 where
  pub bytes_lt : t.bytes_non_objptrs < 2 ^ 16
  pub objptrs_lt : t.num_objptrs < 2 ^ 16
  pub objptrs_fuel : t.num_objptrs < fuel
  pub ends : p + object_bytes alignment mem t p p < size_mod
  pub elements :
      t.tag ≡ array_tag
      → p + get_array_length mem p * (t.bytes_non_objptrs + 8 * t.num_objptrs) < size_mod
  pub elements_fuel :
      t.tag ≡ array_tag → get_array_length mem p * (t.bytes_non_objptrs + 8 * t.num_objptrs) < fuel
  pub weak_one : t.tag ≡ weak_tag → t.num_objptrs ≤ 1

element_bytes_lem :
    (t : ObjectType)
    → t.bytes_non_objptrs < 2 ^ 16
    → t.num_objptrs < 2 ^ 16
    → element_bytes t ≡ t.bytes_non_objptrs + 8 * t.num_objptrs
unfolding element_bytes
element_bytes_lem t b n = omega arith

load_four-lt : (mem : Memory) (p : ℕ) → load 4 mem p < 2 ^ 32
unfolding load
load_four-lt mem p = omega arith

visit_if :
    (f : Memory → ℕ → Memory) (skip : Bool) (ps : List ℕ) (mem : Memory)
    → visit_all f (if skip then [] else ps) mem ≡ (if not skip then visit_all f ps mem else mem)
visit_if f true ps mem = refl
visit_if f false ps mem = refl

word_sum : (p bytes : ℕ) → p + bytes < size_mod → add_size p bytes ≡ p + bytes
word_sum p bytes lt = omega arith

-- An array of fewer than 8 bytes has no pointers, and takes 8 bytes.
element_slots_small : (count b n p : ℕ) → count * (b + 8 * n) < 8 → element_slots count b n p ≡ []
element_slots_small zero b n p lt = refl
element_slots_small (suc count) b zero p lt = element_slots_none (suc count) b p
element_slots_small (suc count) b (suc n) p lt = absurd (omega arith)

-- The word of a gap is shorter than a size, so that adding it in two steps is adding it in one.
gap_end :
    (p gap : ℕ)
    → gap < 2 ^ 32
    → p + add_size small_gap_size_size gap < size_mod
    → add_size (add_size p small_gap_size_size) gap ≡ p + add_size small_gap_size_size gap
gap_end p gap short ends = omega arith

module _ (alignment count : ℕ) (t : ObjectType) {bytes : ℕ}
    (e : mul_size count (element_bytes t) ≡ bytes) where
  size_small :
      ltb bytes 8 ≡ true
      → sizeof_array_no_header alignment count t
        ≡ align_with_extra alignment objptr_size array_header_size
  unfolding sizeof_array_no_header
  size_small small = rw (e, small) refl

  size_large :
      ltb bytes 8 ≡ false
      → sizeof_array_no_header alignment count t
        ≡ align_with_extra alignment bytes array_header_size
  unfolding sizeof_array_no_header
  size_large large = rw (e, large) refl

module _ (f : Memory → ℕ → Memory) (alignment : ℕ) (frame_of : ℕ → FrameLayout) (skip_thread : Bool)
    (heap : Heap) (skip_weaks : Bool) (fuel : ℕ) (mem : Memory) (p : ℕ) where
  in_normal :
      (t : ObjectType)
      → t.bytes_non_objptrs < 2 ^ 16
      → t.num_objptrs < 2 ^ 16
      → t.num_objptrs < fuel
      → p + element_bytes t < size_mod
      → foreach_by_tag f alignment frame_of skip_thread heap skip_weaks fuel normal_tag t mem p
        ≡ some
            (p + element_bytes t, visit_all f (slots t.num_objptrs (p + t.bytes_non_objptrs)) mem)
  unfolding foreach_by_tag
  in_normal t b n enough ends =
      let w = element_bytes_lem t b n in
      let first : add_size p t.bytes_non_objptrs ≡ p + t.bytes_non_objptrs =
        omega (arith, w, ends) in
      let last : add_size (p + t.bytes_non_objptrs) (mul_size t.num_objptrs 8)
          ≡ p + element_bytes t =
        omega (arith, w, ends) in
      rw (first, last)
        (for_objptrs_lem f fuel t.num_objptrs (p + t.bytes_non_objptrs) (p + element_bytes t) mem
          enough (omega (arith, w)) ends)

  in_weak :
      (t : ObjectType)
      → t.bytes_non_objptrs < 2 ^ 16
      → t.num_objptrs ≤ 1
      → p + element_bytes t < size_mod
      → foreach_in_weak f alignment frame_of skip_thread heap skip_weaks fuel t mem p ≡ (
        p + element_bytes t,
        visit_all f (if skip_weaks then [] else slots t.num_objptrs (p + t.bytes_non_objptrs)) mem,
      )
  unfolding foreach_in_weak
  in_weak t b n ends =
      let w = element_bytes_lem t b (omega (arith, n)) in
      let first : add_size p t.bytes_non_objptrs ≡ p + t.bytes_non_objptrs =
        omega (arith, w, ends) in
      rw (first, w) (at_most_one t.num_objptrs n (omega (arith, w, ends)))
    where
      at_most_one :
          (k : ℕ)
          → k ≤ 1
          → p + (t.bytes_non_objptrs + 8 * k) < size_mod
          → ◌≡◌ {A = ℕ × Memory}
              (if 1 == k
                then (
                  add_size (p + t.bytes_non_objptrs) 8,
                  if not skip_weaks then call_if_is_objptr f mem (p + t.bytes_non_objptrs) else mem,
                )
                else (p + t.bytes_non_objptrs, mem))
              (
                p + (t.bytes_non_objptrs + 8 * k),
                visit_all f (if skip_weaks then [] else slots k (p + t.bytes_non_objptrs)) mem,
              )
      at_most_one zero le lt =
          let e : p + t.bytes_non_objptrs ≡ p + (t.bytes_non_objptrs + 8 * 0) = omega arith in
          rw (e, visit_if f skip_weaks [] mem)
            (elim skip_weaks
              as (λ s.
                ◌≡◌ {A = ℕ × Memory} (p + (t.bytes_non_objptrs + 8 * 0), mem)
                  (p + (t.bytes_non_objptrs + 8 * 0), if not s then mem else mem)) [
                    | true ↦ refl
                    | false ↦ refl
                  ])
      at_most_one (suc zero) le lt =
          let e : add_size (p + t.bytes_non_objptrs) 8 ≡ p + (t.bytes_non_objptrs + 8) =
            omega arith in
          rw (e, visit_if f skip_weaks ((p + t.bytes_non_objptrs) ∷ []) mem) refl
      at_most_one (suc (suc k)) le lt = absurd (omega arith)

  in_elements :
      (count b n : ℕ)
      → 8 ≤ count * (b + 8 * n)
      → p + count * (b + 8 * n) < size_mod
      → count * (b + 8 * n) < fuel
      → (if 0 == b
          then for_objptrs f fuel mem p (p + count * (b + 8 * n))
          else for_elements f fuel fuel b (8 * n) mem p (p + count * (b + 8 * n)))
        ≡ some (p + count * (b + 8 * n), visit_all f (element_slots count b n p) mem)
  in_elements count zero n large fits enough = rw (← element_slots_pure count n p) (
      for_objptrs_lem f fuel (count * n) p (p + count * (0 + 8 * n)) mem (omega arith) (omega arith)
        fits)
  in_elements zero (suc b) n large fits enough = absurd (omega arith)
  in_elements (suc count) (suc b) n large fits enough =
      let mixed : (0 == suc b) ≡ false = ground arith in
      rw mixed (
        for_elements_lem f fuel fuel (suc count) (suc b) n p _ mem (omega arith) (omega arith)
          (omega arith) refl fits)

  in_array :
      (t : ObjectType)
      → t.bytes_non_objptrs < 2 ^ 16
      → t.num_objptrs < 2 ^ 16
      → p + sizeof_array_no_header alignment (get_array_length mem p) t < size_mod
      → p + get_array_length mem p * (t.bytes_non_objptrs + 8 * t.num_objptrs) < size_mod
      → get_array_length mem p * (t.bytes_non_objptrs + 8 * t.num_objptrs) < fuel
      → foreach_in_array f alignment frame_of skip_thread heap skip_weaks fuel t mem p
        ≡ some (
          p + sizeof_array_no_header alignment (get_array_length mem p) t,
          visit_all f
              (element_slots (get_array_length mem p) t.bytes_non_objptrs t.num_objptrs p)
              mem,
        )
  unfolding foreach_in_array
  in_array t b n ends fits enough =
      let w = element_bytes_lem t b n in
      let bytes : mul_size (get_array_length mem p) (element_bytes t)
          ≡ get_array_length mem p * (t.bytes_non_objptrs + 8 * t.num_objptrs) =
        rw w (omega (arith, fits)) in
      rw bytes
        (elim (Bool-cases
          (ltb (get_array_length mem p * (t.bytes_non_objptrs + 8 * t.num_objptrs)) 8)) [
            | inl small ↦
                (let size = size_small alignment (get_array_length mem p) t bytes small in
                  let unseen =
                    element_slots_small (get_array_length mem p) t.bytes_non_objptrs t.num_objptrs p
                      (ltb→lt _ _ small) in
                  rw (small, size, word_sum p _ (rw size at ends), unseen) refl)
            | inr large ↦
                (let size = size_large alignment (get_array_length mem p) t bytes large in
                  rw (large, size, word_sum p _ (rw size at ends))
                    (elim (Bool-cases (0 == t.num_objptrs)) [
                      | inl none_there ↦
                          (let z : t.num_objptrs ≡ 0 =
                              sym ((==_iff 0 t.num_objptrs).0 none_there) in
                            let unseen : element_slots (get_array_length mem p) t.bytes_non_objptrs
                                  t.num_objptrs p
                                ≡ [] =
                              rw z (
                                element_slots_none (get_array_length mem p) t.bytes_non_objptrs
                                  p) in
                            rw (none_there, unseen) refl)
                      | inr some_there ↦
                          (let last = word_sum p _ fits in
                            let cells : mul_size t.num_objptrs 8 ≡ 8 * t.num_objptrs =
                              omega (arith, n) in
                            let seen =
                              in_elements (get_array_length mem p) t.bytes_non_objptrs t.num_objptrs
                                (not_ltb→le _ _ large) fits enough in
                            let back : sub_size
                                  (p
                                    + get_array_length mem p
                                      * (t.bytes_non_objptrs + 8 * t.num_objptrs))
                                  (get_array_length mem p
                                    * (t.bytes_non_objptrs + 8 * t.num_objptrs))
                                ≡ p =
                              omega (arith, fits) in
                            rw
                              (
                                some_there,
                                last,
                                cells,
                                seen,
                                bytes,
                                back,
                                word_sum p _ (rw size at ends),
                              )
                              refl)
                    ]))
          ])

  by_tag :
      (g : ObjectTypeTag) (t : ObjectType)
      → g ≢ stack_tag
      → Fits alignment fuel mem (record t { tag = g }) p
      → foreach_by_tag f alignment frame_of skip_thread heap skip_weaks fuel g
          (record t { tag = g })
          mem
          p
        ≡ some (
          p + object_bytes alignment mem (record t { tag = g }) p p,
          visit_all f
              (object_slots skip_weaks (get_array_length mem p) g (record t { tag = g }) p)
              mem,
        )
  unfolding foreach_by_tag object_bytes
  by_tag array_tag t ok fit =
      in_array (record t { tag = array_tag }) fit.bytes_lt fit.objptrs_lt fit.ends
        (fit.elements refl) (fit.elements_fuel refl)
  by_tag normal_tag t ok fit =
      in_normal (record t { tag = normal_tag }) fit.bytes_lt fit.objptrs_lt fit.objptrs_fuel
        fit.ends
  by_tag stack_tag t ok fit = absurd (ok refl)
  by_tag weak_tag t ok fit =
      ap some (in_weak (record t { tag = weak_tag }) fit.bytes_lt (fit.weak_one refl) fit.ends)
  by_tag header_only_tag t ok fit = let e : p + 0 ≡ p = omega arith in rw e refl
  by_tag fill_tag t ok fit = rw (gap_end p (load 4 mem p) (load_four-lt mem p) fit.ends) refl

  -- At an object whose header names a type of the table that is not a stack, where the fields of
  -- the type are below 2^16, the object ends in the address space, an array does so also before its
  -- size is rounded, a weak object has at most one pointer, and the fuel exceeds the number of
  -- pointers and the bytes of an array, foreachObjptrInObject applies the callback to exactly the
  -- slots of the type that hold object pointers, in order, and ends where sizeofObjectNoHeader says
  -- that the object ends.
  pub foreach_objptr_in_object_lem :
      (types : List ObjectType) {t : ObjectType}
      → split_header types (get_header mem p) ≡ some t
      → t.tag ≢ stack_tag
      → Fits alignment fuel mem t p
      → foreach_objptr_in_object f alignment frame_of skip_thread heap skip_weaks fuel types mem p
        ≡ some (
          p + object_bytes alignment mem t p p,
          visit_all f (object_slots skip_weaks (get_array_length mem p) t.tag t p) mem,
        )
  unfolding foreach_objptr_in_object
  foreach_objptr_in_object_lem types {t} e ok fit =
      rw (foreach_objptr_in_object, e) (by_tag t.tag t ok fit)
