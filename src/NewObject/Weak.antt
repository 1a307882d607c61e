-- ===== src/NewObject/Weak.antt =====
-- A weak pointer gives back the object that it was made for.
use multi_mlton.Prelude.{ℕ, ◌+◌, ◌-◌, ◌^◌, ◌≤◌, ◌<◌, ◌≡◌, refl, not, ◌==◌, arith}
use multi_mlton.Align.{IsPow2, size_mod, add_size, sub_size, align}
use multi_mlton.Align.Laws.{align_bounds, pow-le}
use multi_mlton.Objptr.{native64, pointer_to_objptr}
use multi_mlton.Objptr.Laws.{objptr_to_pointer-pointer_to_objptr}
use multi_mlton.Object.{build_header_from_type_index}
use multi_mlton.ArrayAllocate.{Machine, store}
use multi_mlton.NewObject.{
  sizeof_weak, offsetof_weak, new_object, weak_new, weak_get, weak_can_get, weak_gone_type_index,
}
use multi_mlton.NewObject.Stores.{load-store, get_header-store, get_header-store_above}

less_header : (x : ℕ) → 24 ≤ x → x < size_mod → sub_size x 24 + 24 ≡ x
less_header x le lt = omega arith

pointer_to_objptr-lt : (p b : ℕ) → pointer_to_objptr native64 p b < 2 ^ 64
unfolding pointer_to_objptr
pointer_to_objptr-lt p b = omega arith

sizeof_weak_lem :
    (alignment : ℕ)
    → IsPow2 alignment
    → (24 ≤ sizeof_weak alignment)
      × (offsetof_weak alignment + 24 ≡ sizeof_weak alignment)
      × (sizeof_weak alignment < 24 + alignment)
unfolding sizeof_weak offsetof_weak
sizeof_weak_lem alignment pow =
    let bounds = align_bounds 24 pow (omega (arith, pow-le pow)) in
    let high = pow-le pow in
    (
      omega (arith, bounds),
      less_header (align 24 alignment) (omega (arith, bounds)) (omega (arith, bounds, high)),
      omega (arith, bounds),
    )

module _ (alignment header p : ℕ) (m : Machine) where
  -- For an alignment that is a power of two, room for a weak pointer before the last bytes of the
  -- address space, and a header and a pointer of 64 bits, GC_weakGet gives back the pointer that
  -- GC_weakNew was given, and GC_weakCanGet answers true exactly when the header is not
  -- GC_WEAK_GONE_HEADER.
  pub weak_get-weak_new :
      IsPow2 alignment
      → m.state.frontier + sizeof_weak alignment < size_mod - 8
      → header < 2 ^ 64
      → p < 2 ^ 64
      → (weak_get alignment (weak_new alignment header p m).1 (weak_new alignment header p m).0 ≡ p)
        × (weak_can_get (weak_new alignment header p m).1.mem (weak_new alignment header p m).0
            ≡ not (build_header_from_type_index weak_gone_type_index == header))
  unfolding weak_get weak_new weak_can_get new_object
  weak_get-weak_new pow room word lt =
      let sizes = sizeof_weak_lem alignment pow in
      let r : add_size m.state.frontier 8 ≡ m.state.frontier + 8 = omega (arith, sizes, room) in
      let slot : add_size (add_size (add_size m.state.frontier 8) (offsetof_weak alignment)) 8
          ≡ m.state.frontier + (offsetof_weak alignment + 16) =
        omega (arith, sizes, room) in
      let whole : pointer_to_objptr native64 p m.state.heap.start < 2 ^ 64 =
        pointer_to_objptr-lt p m.state.heap.start in
      let header_there =
        get_header-store m.mem m.state.frontier header (omega (arith, sizes, room)) word in
      let at = add_size (add_size (add_size m.state.frontier 8) (offsetof_weak alignment)) 8 in
      let made = store 8 m.mem m.state.frontier header in
      let v = pointer_to_objptr native64 p m.state.heap.start in
      let read = load-store 8 made at v (omega (arith, sizes, room, slot)) whole in
      let kept =
        get_header-store_above made at v (add_size m.state.frontier 8) (omega (arith, r))
          (omega (arith, r, slot)) (omega (arith, sizes, room, slot)) in
      (
        rw (weak_get, read)
            (objptr_to_pointer-pointer_to_objptr native64 p m.state.heap.start lt (omega arith)
              (omega arith) (omega arith)),
        rw (weak_can_get, kept, header_there) refl,
      )
