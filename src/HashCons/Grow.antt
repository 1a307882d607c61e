-- ===== src/HashCons/Grow.antt =====
-- growHashTableMaybe moves every entry to the new table, and nothing else.
pub mod Invariant
pub mod Whole
use multi_mlton.Prelude.{
  ℕ, zero, suc, ◌+◌, ◌*◌, ◌%◌, ◌^◌, ◌≤◌, ◌<◌, ◌≡◌, ◌≢◌, refl, sym, ap, subst, ◌∙◌, Bool, true,
  false, ◌==◌, ==_iff, if◌then◌else◌, arith, Bool-cases, inl, inr, ◌⊎◌, Option, some, none, List,
}
use multi_mlton.CardMap.{Memory}
use multi_mlton.Object.{ObjectType}
use multi_mlton.HashCons.{
  Element, HashTable, no_elements, word32, add_elem, insert_hash_table_elem, reinsert,
  grow_hash_table_maybe,
}
use multi_mlton.HashCons.Entries.{
  occupied, in_use, in_use_free, in_use_full, set_slot, HasEntry, free_slot, occupied-set_slot,
  occupied_mono, add_elem-elements, add_elem-counts, add_elem_keeps, add_elem_has, add_elem_only,
}
use multi_mlton.HashCons.Insert.{IsSized, Ends, insert_lem}

-- The table holds the entries of the first i old slots; its counter has counted them from c on.
pub record Moved (old : ℕ → Element) (m log2 c i : ℕ) (t : HashTable) : Type 0 where
  pub max_eq : t.elements_length_max ≡ m
  pub log2_eq : t.elements_length_max_log2 ≡ log2
  pub may : t.may_insert ≡ true
  pub used : occupied t.elements m ≡ occupied old i
  pub cur : t.elements_length_cur ≡ c + occupied old i
  pub kept : (j : ℕ) → j < i → (old j).object ≢ 0 → HasEntry t (old j)
  pub only : (e : Element) → e.object ≢ 0 → HasEntry t e → (j : ℕ) × (j < i) × (old j ≡ e)

module _ (old : ℕ → Element) (m log2 c : ℕ) where
  Moved-free :
      (i : ℕ) (t : HashTable)
      → (old i).object ≡ 0
      → Moved old m log2 c i t
      → Moved old m log2 c (suc i) t
  Moved-free i t free v = record {
    max_eq = v.max_eq;
    log2_eq = v.log2_eq;
    may = v.may;
    used = rw (in_use_free (old i) free) (omega (arith, v.used));
    cur = rw (in_use_free (old i) free) (omega (arith, v.cur));
    kept = λ j lt full. elim (Bool-cases (j == i)) [
      | inl here ↦ absurd (full (rw ((==_iff j i).0 here) free))
      | inr other ↦ v.kept j (ground arith) full
    ];
    only = λ e full has. let (j, lt, at) = v.only e full has in (j, omega (arith, lt), at);
  }

  Moved-full :
      (i slot : ℕ) (t : HashTable)
      → (old i).object ≢ 0
      → slot < t.elements_length_max
      → (t.elements slot).object ≡ 0
      → c + occupied old (suc i) < word32
      → Moved old m log2 c i t
      → Moved old m log2 c (suc i) (add_elem t slot (old i).hash (old i).object)
  Moved-full i slot t full lt free short v =
      let one : in_use (old i) ≡ 1 = in_use_full (old i) full in
      let counts = add_elem-counts t slot (old i).hash (old i).object v.may in
      record {
        max_eq = counts.1 ∙ v.max_eq;
        log2_eq = counts.2 ∙ v.log2_eq;
        may = counts.3;
        used =
            rw
              (
                add_elem-elements t slot (old i).hash (old i).object v.may,
                occupied-set_slot t.elements slot (old i) m (rw v.max_eq at lt) free full,
                v.used,
                one,
              )
              (omega arith);
        cur = rw (counts.0, one) (omega (arith, one, v.cur, short));
        kept = λ j less nz. elim (Bool-cases (j == i)) [
          | inl here ↦
              rw ((==_iff j i).0 here) (add_elem_has t slot (old i).hash (old i).object v.may lt)
          | inr other ↦
              add_elem_keeps t slot (old i).hash (old i).object v.may (old j) free nz
                (v.kept j (ground arith) nz)
        ];
        only = λ e nz has. elim (add_elem_only t slot (old i).hash (old i).object v.may e has) [
          | inl same ↦ (i, omega arith, sym same)
          | inr before ↦ (let (j, less, at) = v.only e nz before in (j, omega (arith, less), at))
        ];
      }

  module _ (types : List ObjectType) (mem : Memory) (words mult : ℕ) where
    -- The turn for an old slot that is full.
    insert_one :
        (fuel i : ℕ) (t : HashTable)
        → (old i).object ≢ 0
        → m ≡ 2 ^ log2
        → log2 < 32
        → m ≤ fuel
        → occupied old (suc i) ≤ m
        → c + occupied old (suc i) < word32
        → Moved old m log2 c i t
        → (p : ℕ) × (t' : HashTable) × (insert_hash_table_elem types mem words mult fuel t
              (old i).hash
              (old i).object
              0
              false
            ≡ some (p, t'))
          × Moved old m log2 c (suc i) t'
    unfolding Ends
    insert_one fuel i t full power high enough fits short v =
        let one : in_use (old i) ≡ 1 = in_use_full (old i) full in
        let (j, lj, free) = free_slot t.elements m (omega (arith, one, v.used)) in
        let sized : IsSized t = record {
          length = v.max_eq ∙ power ∙ ap (λ (k : ℕ). 2 ^ k) (sym v.log2_eq);
          log2_high = rw v.log2_eq high;
        } in
        let (p, t', e, ends) =
          insert_lem types mem words t (old i).hash (old i).object 0 false mult fuel j sized
            (λ (x : false ≡ true). absurd (cc)) (rw v.max_eq lj) free (rw v.max_eq enough) in
        elim ends [
          | inl (slot, lt, empty, r, same) ↦
              (p, t', e, rw same (Moved-full i slot t full lt empty short v))
          | inr (slot, r, h, might, equal, same) ↦ absurd (cc)
        ]

    -- The loop, up to slot `last`.
    reinsert_lem :
        (fuel n i last : ℕ) (t : HashTable)
        → n + i ≡ last
        → m ≡ 2 ^ log2
        → log2 < 32
        → m ≤ fuel
        → occupied old last ≤ m
        → c + occupied old last < word32
        → Moved old m log2 c i t
        → (t' : HashTable) × (reinsert types mem words mult fuel old n i t ≡ some t')
          × Moved old m log2 c last t'
    unfolding reinsert
    reinsert_lem fuel zero i last t e power high enough fits short v =
        let same : i ≡ last = omega arith in
        (t, refl, subst (λ (k : ℕ). Moved old m log2 c k t) same v)
    reinsert_lem fuel (suc n) i last t e power high enough fits short v =
        let there : n + suc i ≡ last = omega arith in
        let mono : occupied old (suc i) ≤ occupied old last =
          subst (λ (k : ℕ). occupied old (suc i) ≤ occupied old k) there
            (occupied_mono old n (suc i)) in
        let next : i + 1 ≡ suc i = omega arith in
        elim (Bool-cases (0 == (old i).object)) [
          | inl free ↦
              (let (t', e', v') =
                  reinsert_lem fuel n (suc i) last t there power high enough fits short
                    (Moved-free i t (sym ((==_iff 0 (old i).object).0 free)) v) in
                (t', rw (reinsert, free, next) e', v'))
          | inr full ↦
              (let nz : (old i).object ≢ 0 = λ z. absurd (ground arith) in
                let (p, t₁, e₁, v₁) =
                  insert_one fuel i t nz power high enough (omega arith) (omega arith) v in
                let (t', e', v') =
                  reinsert_lem fuel n (suc i) last t₁ there power high enough fits short v₁ in
                (t', rw (reinsert, full, e₁, next) e', v'))
        ]
