-- ===== src/HashCons/Insert.antt =====
-- insertHashTableElem finds the object, or an equal one, or a free slot.
use multi_mlton.Prelude.{
  ℕ, zero, suc, ◌+◌, ◌-◌, ◌*◌, ◌/◌, ◌%◌, ◌^◌, ◌≤◌, ◌<◌, ◌≡◌, refl, sym, Bool, true, ◌==◌, ==_iff,
  Option, some, List, arith, Bool-cases, inl, inr, ◌⊎◌,
}
use native.Mathlib.Nat.{mod-lt, pow-le-pow_right, div-lt_iff_lt-mul}
use multi_mlton.Prelude.Bits.{pow-mul_of_add, pow-pos}
use multi_mlton.CardMap.{Memory}
use multi_mlton.Object.{ObjectType}
use multi_mlton.HashCons.{
  HashTable, word32, same_object, add_elem, look, first_slot, probe_of, insert_hash_table_elem,
}
use multi_mlton.HashCons.Probes.{
  Congruent, probes_reach, Congruent-eq, mod-mod_Congruent, step_Congruent,
}

-- The number of slots is a power of two, and a `uint32_t`.
pub record IsSized (t : HashTable) : Type 0 where
  pub length : t.elements_length_max ≡ 2 ^ t.elements_length_max_log2
  pub log2_high : t.elements_length_max_log2 < 32

module _ (types : List ObjectType) (mem : Memory) (words : ℕ) (table : HashTable)
    (hash object max : ℕ) (might_be_there : Bool) where
  -- The two ways to end: a free slot, or a slot that holds an equal object.
  unfoldable pub Ends : ℕ → HashTable → Type 0
  Ends r t' =
      ((slot : ℕ) × (slot < table.elements_length_max)
        × ((table.elements slot).object ≡ 0)
        × (r ≡ object)
        × (t' ≡ add_elem table slot hash object))
      ⊎ ((slot : ℕ) × ((table.elements slot).object ≡ r)
          × ((table.elements slot).hash ≡ hash)
          × (might_be_there ≡ true)
          × (same_object types mem words object r max ≡ some true)
          × (t' ≡ table))

  -- The comparisons that the search may ask for have an answer.
  abbrev pub Comparable : Type 0
  Comparable =
      might_be_there ≡ true
      → (p : ℕ) → (b : Bool) × (same_object types mem words object p max ≡ some b)

  abbrev pub Found : Option (ℕ × HashTable) → Type 0
  Found o = (r : ℕ) × (t' : HashTable) × (o ≡ some (r, t')) × Ends r t'

  at_free :
      (fuel slot probe : ℕ)
      → slot < table.elements_length_max
      → (table.elements slot).object ≡ 0
      → Found (look types mem words (suc fuel) table hash object max might_be_there slot probe)
  unfolding look Ends
  at_free fuel slot probe ls free =
      let here : (0 == (table.elements slot).object) ≡ true = rw free refl in
      (
        object,
        add_elem table slot hash object,
        rw (look, here) refl,
        inl (slot, ls, free, refl, refl),
      )

  -- A turn at a slot that is full ends there, or goes on where the next turn starts.
  one_turn :
      (fuel slot probe : ℕ)
      → Comparable
      → slot < table.elements_length_max
      → Found (
          look types mem words fuel table hash object max might_be_there
            ((slot + probe) % word32 % table.elements_length_max)
            probe)
      → Found (look types mem words (suc fuel) table hash object max might_be_there slot probe)
  unfolding look Ends
  one_turn fuel slot probe cmp ls (r, t', e, ends) =
      elim (Bool-cases (0 == (table.elements slot).object)) [
        | inl here ↦
            at_free fuel slot probe ls (sym ((==_iff 0 (table.elements slot).object).0 here))
        | inr full ↦ elim (Bool-cases (hash == (table.elements slot).hash)) [
          | inr other ↦ (r, t', rw (look, full, other, e) refl, ends)
          | inl same ↦ elim (Bool-cases might_be_there) [
            | inr sure ↦ (r, t', rw (look, full, same, sure) (rw sure at e), ends)
            | inl maybe ↦
                (let (b, compared) = cmp maybe (table.elements slot).object in
                  elim (Bool-cases b) [
                    | inl equal ↦ (
                      (table.elements slot).object,
                      table,
                      rw (look, full, same, maybe, compared, equal) refl,
                      inr (
                        slot,
                        refl,
                        sym ((==_iff hash (table.elements slot).hash).0 same),
                        maybe,
                        rw (compared, equal) refl,
                        refl,
                      ),
                    )
                    | inr differs ↦ (r, t', rw (look, full, same, maybe, compared, differs) e, ends)
                  ])
          ]
        ]
      ]

  look_lem :
      (fuel i slot d j : ℕ)
      → IsSized table
      → Comparable
      → slot < table.elements_length_max
      → j < table.elements_length_max
      → (table.elements j).object ≡ 0
      → i < fuel
      → Congruent table.elements_length_max (slot + i * (2 * d + 1)) j
      → Found (look types mem words fuel table hash object max might_be_there slot (2 * d + 1))
  look_lem zero i slot d j sized cmp ls lj free lt c = absurd (omega arith)
  look_lem (suc fuel) zero slot d j sized cmp ls lj free lt (x, y, e) =
      let here : slot ≡ j =
        Congruent-eq table.elements_length_max slot j ls lj (x, y, omega (arith, e)) in
      at_free fuel slot (2 * d + 1) ls (rw here free)
  look_lem (suc fuel) (suc i) slot d j sized cmp ls lj free lt c =
      let m = table.elements_length_max in
      let p = 2 * d + 1 in
      let whole : word32 ≡ 2 ^ (32 - table.elements_length_max_log2) * m = rw sized.length (
        sym (
          pow-mul_of_add (32 - table.elements_length_max_log2) table.elements_length_max_log2 32
            (omega (arith, sized.log2_high)))) in
      let step = mod-mod_Congruent m word32 _ (slot + p) whole in
      let ls' : (slot + p) % word32 % m < m = mod-lt ((slot + p) % word32) (omega (arith, ls)) in
      one_turn fuel slot p cmp ls (
        look_lem fuel i ((slot + p) % word32 % m) d j sized cmp ls' lj free (omega arith)
          (step_Congruent m slot ((slot + p) % word32 % m) i p j step c))

  -- The first probe, and the step, which is odd.
  module _ (mult : ℕ) where
    first_slot-lt : (log2 : ℕ) → log2 < 32 → first_slot mult log2 hash < 2 ^ log2
    unfolding first_slot
    first_slot-lt log2 high =
        let whole = pow-mul_of_add log2 (32 - log2) 32 (omega arith) in
        (div-lt_iff_lt-mul (pow-pos (32 - log2))).1
          (rw whole (mod-lt (mult * hash % 2 ^ 64) (omega arith)))

    probe_of-odd : (slot : ℕ) → slot < word32 → (d : ℕ) × (probe_of slot ≡ 2 * d + 1)
    unfolding probe_of
    probe_of-odd slot lt = elim (Bool-cases (1 == slot % 2)) [
      | inl odd ↦ (let r = (==_iff 1 (slot % 2)).0 odd in (slot / 2, rw odd (omega (arith, r))))
      | inr even ↦
          (let r : slot % 2 ≡ 0 = ground arith in
            ((slot + word32 - 2) % word32 / 2, rw even (omega (arith, r))))
    ]

    insert_from :
        (fuel j d i : ℕ)
        → IsSized table
        → Comparable
        → first_slot mult table.elements_length_max_log2 hash < table.elements_length_max
        → j < table.elements_length_max
        → (table.elements j).object ≡ 0
        → i < fuel
        → probe_of (first_slot mult table.elements_length_max_log2 hash) ≡ 2 * d + 1
        → Congruent table.elements_length_max
            (first_slot mult table.elements_length_max_log2 hash + i * (2 * d + 1))
            j
        → Found
            (insert_hash_table_elem types mem words mult fuel table hash object max might_be_there)
    unfolding insert_hash_table_elem
    insert_from fuel j d i sized cmp ls lj free lt odd c =
        rw (insert_hash_table_elem, odd) (look_lem fuel i _ d j sized cmp ls lj free lt c)

    -- With a free slot, and as much fuel as there are slots.
    pub insert_lem :
        (fuel j : ℕ)
        → IsSized table
        → Comparable
        → j < table.elements_length_max
        → (table.elements j).object ≡ 0
        → table.elements_length_max ≤ fuel
        → Found
            (insert_hash_table_elem types mem words mult fuel table hash object max might_be_there)
    unfolding insert_hash_table_elem
    insert_lem fuel j sized cmp lj free enough =
        let slot = first_slot mult table.elements_length_max_log2 hash in
        let ls : slot < table.elements_length_max =
          rw sized.length (first_slot-lt table.elements_length_max_log2 sized.log2_high) in
        let ls' : slot < word32 = omega (
          arith,
          ls,
          sized.length,
          pow-le-pow_right {n = 2} (omega arith) {i = table.elements_length_max_log2} {j = 32}
              (omega (arith, sized.log2_high)),
        ) in
        let (d, odd) = probe_of-odd slot ls' in
        let (i, lt, c) =
          probes_reach table.elements_length_max table.elements_length_max_log2 slot d j
            sized.length in
        insert_from fuel j d i sized cmp ls lj free (omega (arith, lt, enough)) odd c
