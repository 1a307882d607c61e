-- ===== src/NewObject/Bounds.antt =====
-- newObject in the nursery keeps the frontier aligned and within the limit.
use multi_mlton.Prelude.{
  ℕ, ◌+◌, ◌-◌, ◌%◌, ◌^◌, ◌≤◌, ◌<◌, ◌≡◌, sym, ap, ◌∙◌, Bool, true, false, ==_iff, ◌&&◌, leb→le,
  arith,
}
use native.Mathlib.Nat.{add-mod, zero-mod}
use multi_mlton.Align.{IsPow2, size_mod, add_size, sub_size, is_aligned, is_frontier_aligned}
use multi_mlton.Object.{get_header}
use multi_mlton.ArrayAllocate.{Machine}
use multi_mlton.Heap.Types.{local_heap}
use multi_mlton.Heap.Predicates.{has_heap_bytes_free}
use multi_mlton.NewObject.{new_object}
use multi_mlton.NewObject.Stores.{get_header-store}

sum_aligned : (a b k : ℕ) → a % k ≡ 0 → b % k ≡ 0 → (a + b) % k ≡ 0
sum_aligned a b k e f = add-mod a b k ∙ rw (e, f) (zero-mod k)

and_right : (a b : Bool) → (a && b) ≡ true → b ≡ true
and_right true b e = e
and_right false b e = absurd (cc)

-- What the nursery has free, where the frontier is not above the limit.
nursery_free :
    (m : Machine) (bytes : ℕ)
    → has_heap_bytes_free m.state local_heap 0 bytes ≡ true
    → m.state.frontier ≤ m.state.limit_plus_slop
    → m.state.limit_plus_slop < size_mod
    → m.state.frontier + bytes ≤ m.state.limit_plus_slop
unfolding has_heap_bytes_free
nursery_free m bytes free le lt =
    let room =
      leb→le bytes (sub_size m.state.limit_plus_slop m.state.frontier) (and_right _ _ free) in
    omega (arith, room)

module _ (alignment header bytes : ℕ) (m : Machine) where
  -- With a frontier that is aligned and not above a limit below the last bytes of the address
  -- space, an aligned number of bytes, at least 8, that hasHeapBytesFree says the nursery has, and
  -- a header of 64 bits, newObject in the nursery gives an aligned object with that header, which
  -- ends at the new frontier; and the new frontier is aligned and not above the limit.
  pub new_object_bounds :
      IsPow2 alignment
      → is_frontier_aligned alignment m.state.frontier ≡ true
      → is_aligned bytes alignment ≡ true
      → 8 ≤ bytes
      → header < 2 ^ 64
      → has_heap_bytes_free m.state local_heap 0 bytes ≡ true
      → m.state.frontier ≤ m.state.limit_plus_slop
      → m.state.limit_plus_slop + 8 < size_mod
      → (is_aligned (new_object header bytes false m).0 alignment ≡ true)
        × (get_header (new_object header bytes false m).1.mem (new_object header bytes false m).0
            ≡ header)
        × (is_frontier_aligned alignment (new_object header bytes false m).1.state.frontier ≡ true)
        × ((new_object header bytes false m).0 + (bytes - 8)
            ≡ (new_object header bytes false m).1.state.frontier)
        × ((new_object header bytes false m).1.state.frontier ≤ m.state.limit_plus_slop)
  unfolding new_object is_frontier_aligned is_aligned get_header
  new_object_bounds pow at_frontier whole least word free le lt =
      let room = nursery_free m bytes free le (omega arith) in
      let moved : add_size m.state.frontier bytes ≡ m.state.frontier + bytes =
        omega (arith, room) in
      let total : add_size (add_size m.state.frontier bytes) 8
          ≡ add_size m.state.frontier 8 + bytes =
        omega (arith, room) in
      (
        at_frontier,
        get_header-store m.mem m.state.frontier header (omega arith) word,
        (==_iff 0 (add_size (add_size m.state.frontier bytes) 8 % alignment)).1 (
            sym (
              ap (λ (x : ℕ). x % alignment) total
              ∙ sum_aligned (add_size m.state.frontier 8) bytes alignment
                  (sym ((==_iff 0 (add_size m.state.frontier 8 % alignment)).0 at_frontier))
                  (sym ((==_iff 0 (bytes % alignment)).0 whole)))),
        omega (arith, room, moved),
        omega (arith, room, moved),
      )
