-- ===== src/SchedulerQueue/Buffer/Walk.antt =====
-- foreachObjptrInSQ: the walk from the read pointer to the write pointer visits each key once.
use multi_mlton.Prelude.{
  ℕ, zero, suc, ◌+◌, ◌<◌, ◌≡◌, ◌≢◌, ◌⊎◌, refl, ap, ap₂, ◌∙◌, some, List, ◌∷◌, map, length,
  length-set, get_or, set, arith,
}
use multi_mlton.SchedulerQueue.Buffer.{u32_mod, CircularBuffer, walk}
use multi_mlton.SchedulerQueue.Buffer.Inv.{IsValid, next_index, next_index_lem, distance}
use multi_mlton.SchedulerQueue.Buffer.Refine.{
  keys_from, contents, get_or-set_self, get_or-set_ne, IsAt, distance-lt-size, writer-IsAt,
}

-- Writing outside a stretch of keys does not change it.
keys_from-set_outside :
    (ks : List ℕ) (size i n j v : ℕ)
    → size < u32_mod
    → i < size
    → j < size
    → n < size
    → ((d : ℕ) → d < n → IsAt size i d j → ⊥)
    → keys_from (set ks j v) size i n ≡ keys_from ks size i n
keys_from-set_outside ks size i zero j v sm hi hj hn out = refl
keys_from-set_outside ks size i (suc n) j v sm hi hj hn out = ap₂ ◌∷◌ (get_or-set_ne ks j i v ne) (
    keys_from-set_outside ks size (next_index size i) n j v sm
      (omega (arith, next_index_lem size i sm hi)) hj (omega arith) later)
  where
    ne : j ≢ i
    ne e = out 0 (omega arith) (omega arith)

    later : (d : ℕ) → d < n → IsAt size (next_index size i) d j → ⊥
    later d hd at = out (suc d) (omega arith) (omega (arith, next_index_lem size i sm hi))

visited-IsValid :
    (i v : ℕ) {b : CircularBuffer} → IsValid b → IsValid (record b { keys = set b.keys i v })
visited-IsValid i v {b} ok = ground (arith, length-set b.keys i v)

module _ (visit : ℕ → ℕ) where
  -- What the walk over the `n` keys from index `i` on leaves: each key of the stretch visited, and
  -- the rest of the buffer as it was.
  record Walked (i n : ℕ) (b b' : CircularBuffer) : Type 0 where
    write_same : b'.write_pointer ≡ b.write_pointer
    read_same : b'.read_pointer ≡ b.read_pointer
    size_same : b'.size ≡ b.size
    length_same : length b'.keys ≡ length b.keys
    inside : keys_from b'.keys b.size i n ≡ map visit (keys_from b.keys b.size i n)
    outside :
        (j : ℕ) → ((d : ℕ) → d < n → IsAt b.size i d j → ⊥) → get_or b'.keys j 0 ≡ get_or b.keys j 0

  -- The buffer after one visit, at index `i`.
  abbrev visited : ℕ → CircularBuffer → CircularBuffer
  visited i b = record b { keys = set b.keys i (visit (get_or b.keys i 0)) }

  Walked-IsValid : {i n : ℕ} {b b' : CircularBuffer} → IsValid b → Walked i n b b' → IsValid b'
  Walked-IsValid v w = record {
    positive = omega (arith, v, w);
    small = omega (arith, v, w);
    power = rw w.size_same v.power;
    write_in = omega (arith, v, w);
    read_in = omega (arith, v, w);
    storage = omega (arith, v, w);
  }

  contents-Walked :
      {b b' : CircularBuffer}
      → Walked b.read_pointer (distance b) b b'
      → contents b' ≡ map visit (contents b)
  contents-Walked w = rw (w.write_same, w.read_same, w.size_same) w.inside

  -- Visiting index `i` and then walking on is a walk from `i`.
  Walked-visit :
      (n i : ℕ) {b b' : CircularBuffer}
      → IsValid b
      → i < b.size
      → suc n < b.size
      → Walked (next_index b.size i) n (visited i b) b'
      → Walked i (suc n) b b'
  Walked-visit n i {b} {b'} v hi hn w = record {
    write_same = w.write_same;
    read_same = w.read_same;
    size_same = w.size_same;
    length_same = w.length_same ∙ length-set b.keys i new;
    inside = ap₂ ◌∷◌ (w.outside i ahead ∙ get_or-set_self b.keys i new (omega (arith, v))) (
        w.inside
        ∙ ap (map visit) (
            keys_from-set_outside b.keys b.size next n i new v.small in_range hi (omega arith)
              ahead));
    outside = λ j out.
        w.outside j (later j out)
        ∙ get_or-set_ne b.keys i j new (λ e. out 0 (omega arith) (omega arith));
  }
    where
      new : ℕ
      new = visit (get_or b.keys i 0)

      next : ℕ
      next = next_index b.size i

      step : ((next ≡ i + 1) × (i + 1 < b.size)) ⊎ ((next ≡ 0) × (i + 1 ≡ b.size))
      step = next_index_lem b.size i v.small hi

      in_range : next < b.size
      in_range = omega (arith, step)

      ahead : (d : ℕ) → d < n → IsAt b.size next d i → ⊥
      ahead d hd at = omega (arith, step)

      later :
          (j : ℕ)
          → ((d : ℕ) → d < suc n → IsAt b.size i d j → ⊥)
          → (d : ℕ) → d < n
          → IsAt b.size next d j
          → ⊥
      later j out d hd at = out (suc d) (omega arith) (omega (arith, step))

  walk-Walked :
      (fuel n i : ℕ) {b : CircularBuffer}
      → IsValid b
      → n < fuel
      → i < b.size
      → n < b.size
      → IsAt b.size i n b.write_pointer
      → (b' : CircularBuffer) × (walk visit fuel i b ≡ some b') × Walked i n b b'
  unfolding walk
  walk-Walked zero n i v lt hi hn at = absurd (omega arith)
  walk-Walked (suc fuel) zero i {b} v lt hi hn at =
      let e : i ≡ b.write_pointer = omega arith in
      (
        b,
        ground arith,
        record {
          write_same = refl;
          read_same = refl;
          size_same = refl;
          length_same = refl;
          inside = refl;
          outside = λ j out. refl;
        },
      )
  walk-Walked (suc fuel) (suc n) i {b} v lt hi hn at =
      let ne : i ≢ b.write_pointer = omega arith in
      let step = next_index_lem b.size i v.small hi in
      let (b', e, w) =
        walk-Walked fuel n (next_index b.size i) {b = visited i b}
          (visited-IsValid i (visit (get_or b.keys i 0)) v) (omega arith) (omega (arith, step))
          (omega arith) (omega (arith, step)) in
      (b', ground arith, Walked-visit n i v hi hn w)

  -- With as much fuel as the buffer has slots the walk ends. It leaves each key as the callback
  -- leaves it, in order, visited once, and the buffer's shape as it was.
  pub walk_lem :
      {b : CircularBuffer}
      → IsValid b
      → (b' : CircularBuffer) × (walk visit b.size b.read_pointer b ≡ some b')
        × IsValid b'
        × (contents b' ≡ map visit (contents b))
  walk_lem {b} v =
      let (b', e, w) =
        walk-Walked b.size (distance b) b.read_pointer v (distance-lt-size v) v.read_in
          (distance-lt-size v) (writer-IsAt v) in
      (b', e, Walked-IsValid v w, contents-Walked w)
