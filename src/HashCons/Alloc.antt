-- ===== src/HashCons/Alloc.antt =====
-- allocHashTable's choice of a size: the loop that looks for the largest power of two that fits.
use multi_mlton.Prelude.{
  ℕ, zero, suc, ◌+◌, ◌-◌, ◌*◌, ◌/◌, ◌%◌, ◌^◌, ◌≤◌, ◌<◌, ◌≡◌, refl, sym, ◌∙◌, Bool, true, false, ltb,
  leb, none, some, arith, Bool-cases, inl, inr, leb→le, ltb→lt, not_leb→lt, not_ltb→le,
}
use native.Mathlib.Nat.{pow-suc, mod-eq_of_lt, pow-le-pow_right, one-le-pow}
use multi_mlton.Align.{sub_size}
use multi_mlton.HashCons.{sizeof_element, word32, empty_table, fit_length, alloc_hash_table}

pub log2_small : (j k n : ℕ) → 2 ^ k ≤ n → n < 2 ^ j → k < j
log2_small j k n le lt = elim (Bool-cases (ltb k j)) [
  | inl less ↦ ltb→lt k j less
  | inr more ↦ absurd (omega (arith, pow-le-pow_right {n = 2} (omega arith) (not_ltb→le k j more)))
]

one_turn :
    (fuel k limit : ℕ)
    → limit < 2 ^ 31
    → leb (2 ^ suc k) limit ≡ true
    → k < 31
    → fit_length (suc fuel) limit (2 ^ suc k) (suc k)
      ≡ fit_length fuel limit (2 ^ suc (suc k)) (suc (suc k))
unfolding fit_length
one_turn fuel k limit lt more low =
    let fits : 2 ^ suc k ≤ limit = leb→le _ _ more in
    let short : 2 ^ suc k * 2 < word32 = omega (arith, fits) in
    let doubled : 2 ^ suc k * 2 % word32 ≡ 2 ^ suc (suc k) =
      mod-eq_of_lt short ∙ sym (pow-suc 2 (suc k)) in
    let next : (suc k + 1) % word32 ≡ suc (suc k) = omega (arith, low) in
    rw (more, doubled, next) refl

le-mul : (a q : ℕ) → 1 ≤ q → a ≤ a * q
le-mul a zero pos = absurd (omega arith)
le-mul a (suc q) pos = omega arith

-- From 2^(k+1) on, where 2^k fits: the loop stops at the first power of two that does not.
fit_length_lem :
    (fuel k limit : ℕ)
    → limit < 2 ^ 31
    → 2 ^ k ≤ limit
    → 31 ≤ fuel + k
    → (j : ℕ) × (fit_length fuel limit (2 ^ suc k) (suc k) ≡ some (2 ^ suc j, suc j))
      × (k ≤ j)
      × (2 ^ j ≤ limit)
      × (limit < 2 ^ suc j)
      × (j < 31)
unfolding fit_length
fit_length_lem zero k limit lt fits enough = absurd (omega (arith, log2_small 31 k limit fits lt))
fit_length_lem (suc fuel) k limit lt fits enough =
    let low = log2_small 31 k limit fits lt in
    elim (Bool-cases (leb (2 ^ suc k) limit)) [
      | inl more ↦
          (let fits' = leb→le _ _ more in
            let found = fit_length_lem fuel (suc k) limit lt fits' (omega arith) in
            let same = one_turn fuel k limit lt more low in
            (found.0, same ∙ found.1, omega (arith, found.2), found.3, found.4, found.5))
      | inr stop ↦ (k, rw stop refl, omega arith, fits, not_leb→lt _ _ stop, low)
    ]

no_end_at_zero : (fuel limit log2 : ℕ) → fit_length fuel limit 0 log2 ≡ none
unfolding fit_length
no_end_at_zero zero limit log2 = refl
no_end_at_zero (suc fuel) limit log2 =
    let go : leb 0 limit ≡ true = ground arith in
    rw go (no_end_at_zero fuel limit ((log2 + 1) % word32))

-- Doubling a power of two comes to 2^32, that is 0, before it passes a limit of 2^31 or more.
no_end :
    (j fuel limit length log2 : ℕ)
    → 2 ^ 31 ≤ limit
    → length * 2 ^ suc j ≡ word32
    → fit_length fuel limit length log2 ≡ none
unfolding fit_length
no_end j zero limit length log2 high e = refl
no_end zero (suc fuel) limit length log2 high e =
    let half : length ≡ 2 ^ 31 = omega arith in
    let go : leb length limit ≡ true = ground (arith, half) in
    let wraps : length * 2 % word32 ≡ 0 = omega (arith, half) in
    rw (go, wraps) (no_end_at_zero fuel limit ((log2 + 1) % word32))
no_end (suc j) (suc fuel) limit length log2 high e =
    let half : length * 2 * 2 ^ suc j ≡ word32 = omega (arith, rw (pow-suc 2 (suc j)) at e) in
    let small : length * 4 ≤ word32 = omega (
      arith,
      pow-suc 2 j,
      half,
      rw (pow-suc 2 j) at half,
      le-mul length (2 ^ j) (one-le-pow j 2 (omega arith)),
    ) in
    let go : leb length limit ≡ true = ground (arith, small) in
    let doubled : length * 2 % word32 ≡ length * 2 = mod-eq_of_lt (omega (arith, small)) in
    rw (go, doubled) (no_end j fuel limit (length * 2) ((log2 + 1) % word32) high half)

module _ (fuel region_start region_end : ℕ) where
  -- With fuel 31 or more, and a region that holds fewer than 2^31 elements, allocHashTable ends
  -- with an empty table of 2^k slots, k from 6 to 30 being its logarithm; and if the table is in
  -- the heap, 2^k is the largest power of two that the region holds.
  pub alloc_hash_table_lem :
      sub_size region_end region_start / sizeof_element % word32 < 2 ^ 31
      → 31 ≤ fuel
      → (in_heap : Bool) × (k : ℕ) × (alloc_hash_table fuel region_start region_end
          ≡ some (empty_table in_heap (2 ^ k) k))
        × (6 ≤ k)
        × (k < 31)
        × (in_heap ≡ true
            → (2 ^ k ≤ sub_size region_end region_start / sizeof_element % word32)
              × (sub_size region_end region_start / sizeof_element % word32 < 2 ^ suc k))
  unfolding alloc_hash_table
  alloc_hash_table_lem lt enough =
      let limit = sub_size region_end region_start / sizeof_element % word32 in
      elim (Bool-cases (ltb limit 64)) [
        | inl small ↦
            (false, 6, rw small refl, omega arith, omega arith, λ (e : false ≡ true). absurd (cc))
        | inr large ↦
            (let found =
                fit_length_lem fuel 5 limit lt (omega (arith, not_ltb→le _ _ large))
                  (omega arith) in
              let halved : 2 ^ suc (found.0) / 2 ≡ 2 ^ found.0 =
                rw (pow-suc 2 (found.0)) (omega arith) in
              let back : (suc (found.0) + word32 - 1) % word32 ≡ found.0 = omega (arith, found.5) in
              let least : 6 < suc (found.0) =
                log2_small (suc (found.0)) 6 limit (not_ltb→le _ _ large) found.4 in
              (
                true,
                found.0,
                rw (large, found.1, halved, back) refl,
                omega (arith, least),
                found.5,
                λ (e : true ≡ true). (found.3, found.4),
              ))
      ]

  -- For a region whose number of elements, cut to 32 bits, is 2^31 or more, the number of slots
  -- wraps to 0 before it passes that number, and the loop of allocHashTable does not end, whatever
  -- the fuel.
  pub alloc_hash_table_runaway :
      2 ^ 31 ≤ sub_size region_end region_start / sizeof_element % word32
      → alloc_hash_table fuel region_start region_end ≡ none
  unfolding alloc_hash_table
  alloc_hash_table_runaway high =
      let limit = sub_size region_end region_start / sizeof_element % word32 in
      let big : ltb limit 64 ≡ false = ground arith in
      rw (big, no_end 25 fuel limit 64 6 high refl) refl
