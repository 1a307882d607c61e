-- ===== src/DanglingStacks/Refine.antt =====
-- The array with its two counts as a list of object pointers.
use multi_mlton.Prelude.{
  ℕ, suc, ◌-◌, ◌*◌, ◌≤◌, ◌<◌, ◌≡◌, not, ltb, leb, ◌^◌, false, some, List, [], ◌∷◌, ◌++◌, length,
  length-set, length-replicate, replicate, ◌⊎◌, take, sym, ap, ◌∙◌, arith, Bool-cases, inl, inr,
  not_ltb→le, ltb→lt, set,
}
use multi_mlton.Heap.Types.{Heap}
use multi_mlton.Heap.Predicates.{is_pointer_in_heap}
use multi_mlton.DanglingStacks.{
  DanglingStacks, Realloc, IsRealloc, add, update_if_dangling, is_in, refresh,
}
use multi_mlton.DanglingStacks.Loops.{
  elem, replace, filter, take-set, is_in_from_lem, update_from_lem, refresh_from_lem,
}

-- The array is as long as the list says, is not empty, has room for what is in use, and its length
-- is an `int32_t`.
pub record IsValid (d : DanglingStacks) : Type 0 where
  pub storage : length d.items ≡ d.max_size
  pub positive : 0 < d.max_size
  pub size_le : d.size ≤ d.max_size
  pub bounded : d.max_size < 2 ^ 31

-- The object pointers in the list, in order.
abbrev pub contents : DanglingStacks → List ℕ
contents d = take d.size d.items

small : (n : ℕ) → n < 2 ^ 31 → leb (2 ^ 31) n ≡ false
small n lt = ground arith

-- With a `realloc` that keeps the old elements, on a valid list, the length of its array being an
-- `int32_t`, that has room, or has fewer than 2^30 slots and is granted the doubled array,
-- addToDanglingStackList answers with a valid list that has the new object pointer behind the old
-- ones.
pub add_refines :
    {realloc : Realloc}
    → IsRealloc realloc
    → (d : DanglingStacks) (op : ℕ) → IsValid d
    → (d.size < d.max_size)
      ⊎ ((d.max_size < 2 ^ 30) × (ys : List ℕ) × (realloc d.items (d.max_size * 2) ≡ some ys))
    → (d' : DanglingStacks) × (add realloc d op ≡ some d')
      × IsValid d'
      × (contents d' ≡ contents d ++ (op ∷ []))
unfolding add
add_refines {realloc} law d op v granted = elim (Bool-cases (ltb d.max_size (suc d.size))) [
  | inr room ↦
      (let le = not_ltb→le d.max_size (suc d.size) room in
        let counted : leb (2 ^ 31) (suc d.size) ≡ false =
          small (suc d.size) (omega (arith, le, v.bounded)) in
        (
          record { items = set d.items d.size op; size = suc d.size; max_size = d.max_size },
          rw (counted, room)
              (ap
                (λ (i : ℕ).
                  some
                    (record { items = set d.items i op; size = suc d.size; max_size = d.max_size }))
                pred),
          record {
            storage = length-set d.items d.size op ∙ v.storage;
            positive = v.positive;
            size_le = le;
            bounded = v.bounded;
          },
          take-set d.items d.size op (omega (arith, v, le)),
        ))
  | inl full ↦ elim granted [
    | inl room ↦ absurd (omega (arith, room, ltb→lt d.max_size (suc d.size) full))
    | inr (few, ys, got) ↦
        (let now = law d.items ys (d.max_size * 2) got in
          let counted : leb (2 ^ 31) (suc d.size) ≡ false =
            small (suc d.size) (omega (arith, v.size_le, few)) in
          let doubled : leb (2 ^ 31) (d.max_size * 2) ≡ false =
            small (d.max_size * 2) (omega (arith, few)) in
          (
            record { items = set ys d.size op; size = suc d.size; max_size = d.max_size * 2 },
            rw (counted, full, doubled, got)
                (ap
                  (λ (i : ℕ).
                    some (record {
                      items = set ys i op;
                      size = suc d.size;
                      max_size = d.max_size * 2;
                    }))
                  pred),
            record {
              storage = length-set ys d.size op ∙ now.0;
              positive = omega (arith, v);
              size_le = omega (arith, v);
              bounded = omega (arith, few);
            },
            take-set ys d.size op (omega (arith, v, now.0))
                ∙ ap (λ (t : List ℕ). t ++ (op ∷ []))
                    (now.1 d.size (omega (arith, v)) (omega (arith, v))),
          ))
  ]
]
  where
    pred : suc d.size - 1 ≡ d.size
    pred = omega arith

-- On a valid list isInDanglingStackList decides membership among the object pointers of the list.
pub is_in_lem : (d : DanglingStacks) (p : ℕ) → IsValid d → is_in d p ≡ elem p (contents d)
unfolding is_in
is_in_lem d p v = is_in_from_lem d.size 0 d.items p (omega (arith, v))

-- On a valid list updateStackIfDangling answers what isInDanglingStackList answers for the old
-- object pointer, replaces its first occurrence by the new one and nothing else, and leaves a valid
-- list.
pub update_if_dangling_lem :
    (d : DanglingStacks) (old new : ℕ)
    → IsValid d
    → let r = update_if_dangling d old new in
      (r.0 ≡ is_in d old) × IsValid r.1 × (contents r.1 ≡ replace old new (contents d))
unfolding update_if_dangling
update_if_dangling_lem d old new v =
    let r = update_from_lem d.size 0 d.items old new (omega (arith, v)) in
    (
      r.0 ∙ sym (is_in_lem d old v),
      record {
        storage = r.2 ∙ v.storage;
        positive = v.positive;
        size_le = v.size_le;
        bounded = v.bounded;
      },
      r.1,
    )

-- On a valid list refreshDanglingStackList keeps, in order, exactly the stacks whose thread is not
-- in the local heap, and leaves a valid list.
pub refresh_lem :
    (h : Heap) (thread_of : ℕ → ℕ) (d : DanglingStacks)
    → IsValid d
    → let r = refresh h thread_of d in
      IsValid r
      × (contents r ≡ filter (λ op. not (is_pointer_in_heap h (thread_of op))) (contents d))
unfolding refresh
refresh_lem h thread_of d v =
    let r =
      refresh_from_lem h thread_of d.size 0 d.items 0 (replicate d.max_size 0) (omega (arith, v))
        (omega (arith, fresh, v)) in
    (
      record {
        storage = r.1 ∙ fresh;
        positive = v.positive;
        size_le = omega (arith, r.2, v);
        bounded = v.bounded;
      },
      r.0,
    )
  where
    fresh : length (replicate {A = ℕ} d.max_size 0) ≡ d.max_size
    fresh = length-replicate d.max_size 0
