-- ===== src/HashCons/Grow/Invariant.antt =====
-- What hashConsPointer relies on from call to call: a table of 2^k slots that is at most half full,
-- or takes no more entries.
use multi_mlton.Prelude.{
  ℕ, ◌+◌, ◌*◌, ◌%◌, ◌^◌, ◌≤◌, ◌<◌, ◌≡◌, ◌≢◌, refl, sym, ap, ◌∙◌, true, false, arith, Bool-cases,
  inl, inr, ◌⊎◌, some, List,
}
use native.Mathlib.Nat.{pow-le-pow_right}
use multi_mlton.CardMap.{Memory}
use multi_mlton.Object.{ObjectType}
use multi_mlton.HashCons.{HashTable, word32, same_object, add_elem, insert_hash_table_elem}
use multi_mlton.HashCons.Entries.{
  occupied, free_slot, occupied-set_slot, add_elem-elements, add_elem-counts, add_elem-length,
}
use multi_mlton.HashCons.Insert.{IsSized, Comparable, Ends, insert_lem}

-- `extra` is 0 between two calls, and 1 between the insertion and growHashTableMaybe.
pub record IsTable (extra : ℕ) (t : HashTable) : Type 0 where
  pub sized : IsSized t
  pub log2_low : 6 ≤ t.elements_length_max_log2
  pub used : occupied t.elements t.elements_length_max * 2 ≤ t.elements_length_max + 2
  pub counts :
      t.may_insert ≡ true
      → (occupied t.elements t.elements_length_max ≤ t.elements_length_cur)
        × (occupied t.elements t.elements_length_max * 2 ≤ t.elements_length_max + 2 * extra)
        × (t.elements_length_cur < t.elements_length_max + extra)

pub IsTable-bounds :
    (t : HashTable) (extra : ℕ)
    → IsTable extra t
    → (64 ≤ t.elements_length_max) × (t.elements_length_max ≤ 2 ^ 31)
IsTable-bounds t extra v =
    let k = t.elements_length_max_log2 in
    let low = pow-le-pow_right {n = 2} (omega arith) {i = 6} {j = k} v.log2_low in
    let high =
      pow-le-pow_right {n = 2} (omega arith) {i = k} {j = 31} (omega (arith, v.sized.log2_high)) in
    (omega (arith, low, v.sized.length), omega (arith, high, v.sized.length))

pub length_small :
    (t : HashTable) → IsSized t → t.elements_length_max_log2 < 31 → t.elements_length_max ≤ 2 ^ 30
length_small t v high =
    rw v.length (
      pow-le-pow_right {n = 2} (omega arith) {i = t.elements_length_max_log2} {j = 30}
        (omega arith))

weaken : (t : HashTable) → IsTable 0 t → IsTable 1 t
weaken t v = record {
  sized = v.sized;
  log2_low = v.log2_low;
  used = v.used;
  counts = λ may. let (a, b, c) = v.counts may in (a, omega (arith, b), omega (arith, c));
}

-- A table that takes no more entries.
pub closed-IsTable :
    (t : HashTable) (extra more : ℕ)
    → IsTable extra t
    → IsTable more (record t { may_insert = false })
closed-IsTable t extra more v = record {
  sized = record { length = v.sized.length; log2_high = v.sized.log2_high };
  log2_low = v.log2_low;
  used = v.used;
  counts = λ (x : false ≡ true). absurd (cc);
}

add_elem-IsTable :
    (t : HashTable) (slot hash object : ℕ)
    → IsTable 0 t
    → slot < t.elements_length_max
    → (t.elements slot).object ≡ 0
    → object ≢ 0
    → IsTable 1 (add_elem t slot hash object)
unfolding add_elem
add_elem-IsTable t slot hash object v lt free nz = elim (Bool-cases t.may_insert) [
  | inr no_more ↦ rw (add_elem, no_more) (closed-IsTable t 0 1 v)
  | inl may ↦
      (let n = add_elem-counts t slot hash object may in
        let (low, half, short) = v.counts may in
        let bounds = IsTable-bounds t 0 v in
        let counted : (t.elements_length_cur + 1) % word32 ≡ t.elements_length_cur + 1 =
          omega (arith, short, bounds) in
        let one_more =
          occupied-set_slot t.elements slot (record { hash = hash; object = object })
            t.elements_length_max lt free nz in
        record {
          sized = record {
            length = n.1 ∙ v.sized.length ∙ ap (λ (k : ℕ). 2 ^ k) (sym n.2);
            log2_high = rw n.2 v.sized.log2_high;
          };
          log2_low = rw n.2 v.log2_low;
          used = rw (n.1, add_elem-elements t slot hash object may, one_more) (omega (arith, half));
          counts = λ x.
              rw (n.0, n.1, add_elem-elements t slot hash object may, one_more, counted)
                (omega (arith, low), omega (arith, half), omega (arith, short));
        })
]

module _ (types : List ObjectType) (mem : Memory) (words mult : ℕ) where
  -- What insertHashTableElem gives back: the object, or one that compared equal.
  pub insert-IsTable :
      (fuel : ℕ) (t : HashTable) (hash object max : ℕ)
      → IsTable 0 t
      → object ≢ 0
      → Comparable types mem words t hash object max true
      → t.elements_length_max ≤ fuel
      → (r : ℕ) × (t' : HashTable) × (insert_hash_table_elem types mem words mult fuel t hash object
            max true
          ≡ some (r, t'))
        × IsTable 1 t'
        × (t'.elements_length_max ≡ t.elements_length_max)
        × (t'.elements_length_max_log2 ≡ t.elements_length_max_log2)
        × ((r ≡ object) ⊎ (same_object types mem words object r max ≡ some true))
  unfolding Ends
  insert-IsTable fuel t hash object max v nz cmp enough =
      let bounds = IsTable-bounds t 0 v in
      let (j, lj, free) =
        free_slot t.elements t.elements_length_max (omega (arith, v.used, bounds)) in
      let (r, t', e, ends) =
        insert_lem types mem words t hash object max true mult fuel j v.sized cmp lj free enough in
      elim ends [
        | inl (slot, lt, empty, is, same) ↦ (
          r,
          t',
          e,
          rw same (add_elem-IsTable t slot hash object v lt empty nz),
          rw same (add_elem-length t slot hash object).0,
          rw same (add_elem-length t slot hash object).1,
          inl is,
        )
        | inr (slot, at, h, might, equal, same) ↦
            (r, t', e, rw same (weaken t v), rw same refl, rw same refl, inr equal)
      ]
