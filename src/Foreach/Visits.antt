-- ===== src/Foreach/Visits.antt =====
-- foreachObjptrInObject visits the slots of the object, and ends where the object ends.
use multi_mlton.Prelude.{
  ℕ, zero, suc, ◌+◌, ◌*◌, ◌<◌, ◌≡◌, refl, true, false, ltb, some, List, [], ◌∷◌, ◌++◌, arith,
  lt→ltb,
}
use multi_mlton.Align.{size_mod, add_size}
use multi_mlton.CardMap.{Memory}
use multi_mlton.Foreach.{call_if_is_objptr, for_objptrs, for_elements}
use multi_mlton.Foreach.Slots.{slots, element_slots, visit_all}

module _ (f : Memory → ℕ → Memory) where
  visit_all-append :
      (xs ys : List ℕ) (mem : Memory)
      → visit_all f (xs ++ ys) mem ≡ visit_all f ys (visit_all f xs mem)
  visit_all-append [] ys mem = refl
  visit_all-append (x ∷ xs) ys mem = visit_all-append xs ys (call_if_is_objptr f mem x)

  -- The inner loop visits n slots and stops behind them.
  pub for_objptrs_lem :
      (fuel n p last : ℕ) (mem : Memory)
      → n < fuel
      → p + 8 * n ≡ last
      → last < size_mod
      → for_objptrs f fuel mem p last ≡ some (last, visit_all f (slots n p) mem)
  unfolding for_objptrs
  for_objptrs_lem zero n p last mem enough e lt = absurd (omega arith)
  for_objptrs_lem (suc fuel) zero p last mem enough e lt =
      let same : p ≡ last = omega arith in
      let stop : ltb p last ≡ false = ground arith in rw (stop, same) refl
  for_objptrs_lem (suc fuel) (suc n) p last mem enough e lt =
      let go : ltb p last ≡ true = lt→ltb p last (omega arith) in
      let next : add_size p 8 ≡ p + 8 = omega arith in
      rw (go, next)
        (for_objptrs_lem fuel n (p + 8) last (call_if_is_objptr f mem p) (omega arith) (omega arith)
          lt)

  -- The loop over k elements.
  pub for_elements_lem :
      (fuel inner k b n p last : ℕ) (mem : Memory)
      → k < fuel
      → n < inner
      → 0 < b + 8 * n
      → p + k * (b + 8 * n) ≡ last
      → last < size_mod
      → for_elements f fuel inner b (8 * n) mem p last
        ≡ some (last, visit_all f (element_slots k b n p) mem)
  unfolding for_elements
  for_elements_lem zero inner k b n p last mem enough low pos e lt = absurd (omega arith)
  for_elements_lem (suc fuel) inner zero b n p last mem enough low pos e lt =
      let same : p ≡ last = omega arith in
      let stop : ltb p last ≡ false = ground arith in rw (stop, same) refl
  for_elements_lem (suc fuel) inner (suc k) b n p last mem enough low pos e lt =
      let whole : p + (b + 8 * n) + k * (b + 8 * n) ≡ last = omega arith in
      let go : ltb p last ≡ true = lt→ltb p last (omega (arith, whole)) in
      let first : add_size p b ≡ p + b = omega (arith, whole) in
      let next : add_size (p + b) (8 * n) ≡ p + b + 8 * n = omega (arith, whole) in
      let mem' = visit_all f (slots n (p + b)) mem in
      let here =
        for_objptrs_lem inner n (p + b) (p + b + 8 * n) mem low refl (omega (arith, whole)) in
      rw
        (
          go,
          first,
          next,
          here,
          visit_all-append (slots n (p + b)) (element_slots k b n (p + b + 8 * n)) mem,
        )
        (for_elements_lem fuel inner k b n (p + b + 8 * n) last mem' (omega arith) low pos
          (omega (arith, whole)) lt)
