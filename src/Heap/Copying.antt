-- ===== src/Heap/Copying.antt =====
-- What shrinkHeap, the copying loop of growHeap and the resizing of a secondary heap achieve.
use multi_mlton.Prelude.{
  ℕ, zero, suc, ◌+◌, ◌*◌, ◌≤◌, ◌<◌, ◌≡◌, refl, true, false, some, List, [], ◌∷◌, ltb, lt→ltb, arith,
  dec_lt,
}
use multi_mlton.Align.{size_mod, sub_size, IsPow2, is_aligned, align}
use multi_mlton.Align.Laws.{align_bounds, align_least}
use multi_mlton.Heap.Types.{Heap, Os, Platform, init_heap}
use multi_mlton.Heap.Shrink.{Move, copy_chunk_size, release_heap, shrink_heap, copy_down}

-- The moves carry the n bytes at `start` to `new`, from the top down, without a gap or an overlap,
-- and each reads only what the old heap still had.
abbrev pub Covers : (start new : ℕ) → List Move → ℕ → Type 0
Covers start new [] n = n ≡ 0
Covers start new (m ∷ ms) n =
    (offset : ℕ) × (offset + m.bytes ≡ n)
    × (0 < m.bytes → (m.from ≡ start + offset) × (m.to ≡ new + offset) × (n ≤ m.old_size))
    × Covers start new ms offset

-- The old heap still has the n bytes that are not copied yet, at the address where it started.
abbrev pub Holds : ℕ → Heap → ℕ → Type 0
Holds start h n = 0 < n → (h.start ≡ start) × (n ≤ h.size)

module _ (os : Os) (pf : Platform) where
  -- A released heap has no memory, and its own kind.
  pub release_heap_lem :
      (st : os.State) (h : Heap)
      → ((release_heap os pf st h).0.start ≡ 0) × ((release_heap os pf st h).0.kind ≡ h.kind)
  unfolding release_heap init_heap
  release_heap_lem st h = ground arith

  shrink_heap-Holds :
      (st : os.State) (h : Heap) (start n keep : ℕ)
      → IsPow2 pf.page_size
      → keep + pf.page_size ≤ size_mod
      → 0 < n
      → keep ≤ n
      → Holds start h n
      → Holds start (shrink_heap os pf st h keep).0 keep
  unfolding shrink_heap
  shrink_heap-Holds st h start n keep w room some_left le old low =
      let b = align_bounds keep w room in let now = old some_left in ground (arith, b, now, low)

  -- With pages of a power of two, live bytes of the old heap from which rounding to pages does not
  -- lead past 2^64, places for them in both heaps that end below 2^64, `from` and `to` at their
  -- ends, and more than one unit of fuel for each 32M: the copying loop of growHeap ends; its moves
  -- carry each live byte to the same offset of the new heap, without gap or overlap from the top
  -- down, and read only bytes that the old heap has not given back yet; and the old heap has been
  -- released at the end.
  pub copy_down-Covers :
      (fuel : ℕ) (st : os.State) (h : Heap) (start new_start from to remaining : ℕ)
      → IsPow2 pf.page_size
      → remaining + pf.page_size ≤ size_mod
      → Holds start h remaining
      → from ≡ start + remaining
      → to ≡ new_start + remaining
      → from < size_mod
      → to < size_mod
      → remaining < fuel * copy_chunk_size
      → (moves : List Move) × (h' : Heap) × (st' : os.State) × (copy_down os pf fuel st h new_start
            from to remaining
          ≡ some (moves, h', st'))
        × Covers start new_start moves remaining
        × (h'.start ≡ 0)
  unfolding copy_down
  copy_down-Covers zero st h start new from to n w room old f t fl tl enough = absurd (omega arith)
  copy_down-Covers (suc fuel) st h start new from to n w room old f t fl tl enough =
      elim (dec_lt n copy_chunk_size) [
        | yes p ↦ (
          record { from = h.start; to = new; bytes = n; old_size = h.size } ∷ [],
          (release_heap os pf st h).0,
          (release_heap os pf st h).1,
          rw (lt→ltb n copy_chunk_size p),
          (
            0,
            omega arith,
            (λ low. let now = old low in (omega (arith, now), omega arith, now.1)),
            refl,
          ),
          (release_heap_lem st h).0,
        )
        | no p ↦
            let rest = sub_size n copy_chunk_size in
            let from' = sub_size from copy_chunk_size in
            let to' = sub_size to copy_chunk_size in
            let r : rest + copy_chunk_size ≡ n = omega (arith, f, fl) in
            let f' : from' ≡ start + rest = omega (arith, f, fl, r) in
            let t' : to' ≡ new + rest = omega (arith, t, tl, r) in
            let s = shrink_heap os pf st h rest in
            let kept =
              shrink_heap-Holds st h start n rest w (omega (arith, r, room)) (omega (arith, r))
                (omega (arith, r)) old in
            let (moves, h', st', e, covers, gone) =
              copy_down-Covers fuel s.1 s.0 start new from' to' rest w (omega (arith, r, room)) kept
                f' t' (omega (arith, f', f, fl, r)) (omega (arith, t', t, tl, r))
                (omega (arith, r)) in
            let no_lt : ltb n copy_chunk_size ≡ false = ground arith in
            (
              record { from = from'; to = to'; bytes = copy_chunk_size; old_size = h.size } ∷ moves,
              h',
              st',
              rw (no_lt, e),
              (rest, r, (λ low. (f', t', (old (omega (arith, r))).1)), covers),
              gone,
            )
      ]

  -- For a heap of whole pages and a size to keep that is not 0, not above the heap's and leaves
  -- room for rounding, shrinkHeap leaves the kept size rounded up to pages, never more than there
  -- was, at the same start and with the same old generation.
  pub shrink_heap_lem :
      (st : os.State) (h : Heap) (keep_size : ℕ)
      → IsPow2 pf.page_size
      → keep_size + pf.page_size ≤ size_mod
      → is_aligned h.size pf.page_size ≡ true
      → h.size + pf.page_size ≤ size_mod
      → 0 < keep_size
      → keep_size ≤ h.size
      → let h' = (shrink_heap os pf st h keep_size).0 in
        (h'.size ≡ align keep_size pf.page_size)
        × (keep_size ≤ h'.size)
        × (h'.size ≤ h.size)
        × (h'.start ≡ h.start)
        × (h'.old_gen_size ≡ h.old_gen_size)
  unfolding shrink_heap
  shrink_heap_lem st h keep w room al fits pos le =
      let b = align_bounds keep w room in
      let top = align_least keep h.size w room al le in ground (arith, b, top)
