-- ===== src/HashCons/Grow/Whole.antt =====
-- growHashTableMaybe as a whole: it keeps the invariant and the entries. Its counter is another
-- matter.
use multi_mlton.Prelude.{
  ℕ, suc, ◌+◌, ◌*◌, ◌%◌, ◌^◌, ◌≤◌, ◌<◌, ◌≡◌, ◌≢◌, refl, sym, ap, subst, ◌∙◌, Bool, true, false, not,
  ◌||◌, leb, leb→le, arith, Bool-cases, inl, inr, ◌⊎◌, ◌↔◌, some, List,
}
use native.Mathlib.Nat.{pow-suc}
use multi_mlton.CardMap.{Memory}
use multi_mlton.Object.{ObjectType}
use multi_mlton.HashCons.{Element, HashTable, no_elements, word32, reinsert, grow_hash_table_maybe}
use multi_mlton.HashCons.Entries.{occupied, HasEntry, occupied-no_elements}
use multi_mlton.HashCons.Grow.Invariant.{IsTable, IsTable-bounds, length_small, closed-IsTable}
use multi_mlton.HashCons.Grow.{Moved, reinsert_lem}

implies_cases : (a b : Bool) → (not a || b) ≡ true → (a ≡ false) ⊎ (b ≡ true)
implies_cases true b e = inr e
implies_cases false b e = inl refl

both_fail : (a b : Bool) → a ≡ true → b ≡ false → (not a || b) ≡ false
both_fail true b x y = y
both_fail false b x y = absurd (cc)

lt→not_leb : (a b : ℕ) → b < a → leb a b ≡ false
lt→not_leb a b h = ground arith

implies_fails : (a b : Bool) → (not a || b) ≡ false → (a ≡ true) × (b ≡ false)
implies_fails true b e = (refl, e)
implies_fails false b e = absurd (cc)

module _ (types : List ObjectType) (mem : Memory) (words mult : ℕ) where
  -- Whether it grows.
  grows : HashTable → Bool
  grows t = not t.may_insert || leb (t.elements_length_cur * 2 % word32) t.elements_length_max

  abbrev emptied : HashTable → HashTable
  emptied t = record t {
    elements = no_elements;
    elements_is_in_heap = false;
    elements_length_max = t.elements_length_max * 2 % word32;
    elements_length_max_log2 = (t.elements_length_max_log2 + 1) % word32;
  }

  stays :
      (fuel : ℕ) (granted : ℕ → Bool) (t : HashTable)
      → grows t ≡ true
      → grow_hash_table_maybe types mem words mult fuel granted t ≡ some t
  unfolding grow_hash_table_maybe grows
  stays fuel granted t e = rw (grow_hash_table_maybe, e) refl

  at_rest :
      (t : HashTable) → IsTable 1 t → t.elements_length_max_log2 < 31 → grows t ≡ true → IsTable 0 t
  unfolding grows
  at_rest t v high fits = record {
    sized = v.sized;
    log2_low = v.log2_low;
    used = v.used;
    counts = λ may.
        let (low, half, short) = v.counts may in
        let bounds = IsTable-bounds t 1 v in
        let most = length_small t v.sized high in
        elim (implies_cases t.may_insert _ fits) [
          | inl closed ↦ absurd (cc)
          | inr sparse ↦
              (let fewer = leb→le _ _ sparse in
                (
                  low,
                  omega (arith, fewer, low, short, most),
                  omega (arith, fewer, short, bounds, most),
                ))
        ];
  }

  refused :
      (fuel : ℕ) (granted : ℕ → Bool) (t : HashTable)
      → grows t ≡ false
      → granted (t.elements_length_max * 2 % word32) ≡ false
      → grow_hash_table_maybe types mem words mult fuel granted t
        ≡ some (record t { may_insert = false })
  unfolding grow_hash_table_maybe grows
  refused fuel granted t e denied = rw (grow_hash_table_maybe, e, denied) refl

  moves :
      (fuel : ℕ) (granted : ℕ → Bool) (t : HashTable)
      → grows t ≡ false
      → granted (t.elements_length_max * 2 % word32) ≡ true
      → grow_hash_table_maybe types mem words mult fuel granted t
        ≡ reinsert types mem words mult fuel t.elements t.elements_length_max 0 (emptied t)
  unfolding grow_hash_table_maybe grows
  moves fuel granted t e given = rw (grow_hash_table_maybe, e, given) refl

  emptied-Moved :
      (t : HashTable)
      → t.may_insert ≡ true
      → Moved t.elements
          (t.elements_length_max * 2 % word32)
          ((t.elements_length_max_log2 + 1) % word32)
          t.elements_length_cur
          0
          (emptied t)
  emptied-Moved t may = record {
    max_eq = refl;
    log2_eq = refl;
    may = may;
    used = occupied-no_elements (t.elements_length_max * 2 % word32);
    cur = omega arith;
    kept = λ j lt full. absurd (omega arith);
    only = λ e full has. absurd (full (ap (λ (x : Element). x.object) (sym has.2)));
  }

  -- After all slots have moved.
  Moved-IsTable :
      (t t' : HashTable) (m log2 : ℕ)
      → IsTable 1 t
      → t.may_insert ≡ true
      → m ≡ t.elements_length_max * 2
      → m ≡ 2 ^ log2
      → log2 ≡ suc t.elements_length_max_log2
      → t.elements_length_max_log2 < 31
      → Moved t.elements m log2 t.elements_length_cur t.elements_length_max t'
      → IsTable 0 t'
  Moved-IsTable t t' m log2 v may twice power more high moved =
      let bounds = IsTable-bounds t 1 v in
      let (low, half, short) = v.counts may in
      record {
        sized = record {
          length = moved.max_eq ∙ power ∙ ap (λ (k : ℕ). 2 ^ k) (sym moved.log2_eq);
          log2_high = rw (moved.log2_eq, more) (omega (arith, high));
        };
        log2_low = rw (moved.log2_eq, more) (omega (arith, v.log2_low));
        used = rw (moved.max_eq, moved.used, twice) (omega (arith, v.used, bounds));
        counts = λ x.
            rw (moved.max_eq, moved.used, moved.cur, twice)
              (omega arith, omega (arith, v.used, bounds), omega (arith, v.used, bounds, short));
      }

  Moved-entries :
      (t t' : HashTable) {m log2 c : ℕ}
      → Moved t.elements m log2 c t.elements_length_max t'
      → (e : Element) → e.object ≢ 0
      → HasEntry t e ↔ HasEntry t' e
  Moved-entries t t' moved e nz = (
    λ (j, lt, at).
        subst (λ (x : Element). HasEntry t' x) at
          (moved.kept j lt (λ z. nz (ap (λ (x : Element). x.object) (sym at) ∙ z))),
    λ h. moved.only e nz h,
  )

  -- The table that it makes when it grows.
  moved_lem :
      (fuel : ℕ) (granted : ℕ → Bool) (t : HashTable)
      → IsTable 1 t
      → t.elements_length_max_log2 < 31
      → t.elements_length_max * 2 ≤ fuel
      → grows t ≡ false
      → granted (t.elements_length_max * 2 % word32) ≡ true
      → (t' : HashTable) × (m : ℕ) × (log2 : ℕ) × (grow_hash_table_maybe types mem words mult fuel
            granted t
          ≡ some t')
        × (m ≡ t.elements_length_max * 2)
        × (m ≡ 2 ^ log2)
        × (log2 ≡ suc t.elements_length_max_log2)
        × Moved t.elements m log2 t.elements_length_cur t.elements_length_max t'
  unfolding grows
  moved_lem fuel granted t v high enough full given =
      let (may, more) = implies_fails t.may_insert _ full in
      let bounds = IsTable-bounds t 1 v in
      let (low, half, short) = v.counts may in
      let most = length_small t v.sized high in
      let twice : t.elements_length_max * 2 % word32 ≡ t.elements_length_max * 2 =
        omega (arith, most) in
      let next : (t.elements_length_max_log2 + 1) % word32 ≡ suc t.elements_length_max_log2 =
        omega (arith, high) in
      let power : t.elements_length_max * 2 % word32
          ≡ 2 ^ ((t.elements_length_max_log2 + 1) % word32) =
        rw next (
          twice
          ∙ ap (λ (k : ℕ). k * 2) v.sized.length
          ∙ sym (pow-suc 2 t.elements_length_max_log2)) in
      let (t', e, moved) =
        reinsert_lem t.elements (t.elements_length_max * 2 % word32)
          ((t.elements_length_max_log2 + 1) % word32) t.elements_length_cur types mem words mult
          fuel t.elements_length_max 0 t.elements_length_max (emptied t) (omega arith) power
          (omega (arith, next, high)) (omega (arith, twice, enough))
          (omega (arith, twice, v.used, bounds)) (omega (arith, v.used, short, most))
          (emptied-Moved t may) in
      (
        t',
        t.elements_length_max * 2 % word32,
        (t.elements_length_max_log2 + 1) % word32,
        moves fuel granted t full given ∙ e,
        twice,
        power,
        next,
        moved,
      )

  -- After an insertion into a table that satisfied the invariant, with fewer than 2^31 slots and
  -- fuel for twice as many, growHashTableMaybe returns, whether calloc gives the new table or not;
  -- the invariant holds again; and an entry with an object is in the new table exactly when it was
  -- in the old one.
  pub grow_hash_table_maybe_lem :
      (fuel : ℕ) (granted : ℕ → Bool) (t : HashTable)
      → IsTable 1 t
      → t.elements_length_max_log2 < 31
      → t.elements_length_max * 2 ≤ fuel
      → (t' : HashTable) × (grow_hash_table_maybe types mem words mult fuel granted t ≡ some t')
        × IsTable 0 t'
        × ((e : Element) → e.object ≢ 0 → HasEntry t e ↔ HasEntry t' e)
  unfolding grows
  grow_hash_table_maybe_lem fuel granted t v high enough = elim (Bool-cases (grows t)) [
    | inl fits ↦ (t, stays fuel granted t fits, at_rest t v high fits, λ e nz. (λ h. h, λ h. h))
    | inr full ↦ elim (Bool-cases (granted (t.elements_length_max * 2 % word32))) [
      | inr denied ↦ (
        record t { may_insert = false },
        refused fuel granted t full denied,
        closed-IsTable t 1 0 v,
        λ e nz. (λ h. h, λ h. h),
      )
      | inl given ↦
          (let (may, more) = implies_fails t.may_insert _ full in
            let (t', m, log2, e, twice, power, next, moved) =
              moved_lem fuel granted t v high enough full given in
            (
              t',
              e,
              Moved-IsTable t t' m log2 v may twice power next high moved,
              Moved-entries t t' moved,
            ))
    ]
  ]

  -- After an insertion into a table that satisfied the invariant, with fewer than 2^31 slots, when
  -- growHashTableMaybe grows the table the slots in use stay as many as before, but
  -- elementsLengthCur has grown by their number.
  pub grow_counts_twice :
      (fuel : ℕ) (granted : ℕ → Bool) (t : HashTable)
      → IsTable 1 t
      → t.elements_length_max_log2 < 31
      → t.elements_length_max * 2 ≤ fuel
      → t.may_insert ≡ true
      → t.elements_length_max < t.elements_length_cur * 2
      → granted (t.elements_length_max * 2) ≡ true
      → (t' : HashTable) × (grow_hash_table_maybe types mem words mult fuel granted t ≡ some t')
        × (t'.elements_length_max ≡ t.elements_length_max * 2)
        × (occupied t'.elements t'.elements_length_max ≡ occupied t.elements t.elements_length_max)
        × (t'.elements_length_cur
            ≡ t.elements_length_cur + occupied t.elements t.elements_length_max)
  unfolding grows
  grow_counts_twice fuel granted t v high enough may more given =
      let most = length_small t v.sized high in
      let (low, half, short) = v.counts may in
      let twice : t.elements_length_max * 2 % word32 ≡ t.elements_length_max * 2 =
        omega (arith, most) in
      let dense : leb (t.elements_length_cur * 2 % word32) t.elements_length_max ≡ false =
        lt→not_leb _ _ (omega (arith, more, short, most)) in
      let full : grows t ≡ false = both_fail t.may_insert _ may dense in
      let (t', m, log2, e, same, power, next, moved) =
        moved_lem fuel granted t v high enough full (rw twice given) in
      (t', e, moved.max_eq ∙ same, rw moved.max_eq moved.used, moved.cur)
