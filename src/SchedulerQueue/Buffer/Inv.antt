-- ===== src/SchedulerQueue/Buffer/Inv.antt =====
-- When a circular buffer is well formed, and that every operation keeps it so.
use multi_mlton.Prelude.{
  ℕ, ◌+◌, ◌-◌, ◌*◌, ◌%◌, ◌^◌, ◌≤◌, ◌<◌, ◌≡◌, ◌⊎◌, inl, inr, length, length-set, arith, ltb,
  if◌then◌else◌, dec_lt,
}
use multi_mlton.Align.{size_mod, IsPow2}
use multi_mlton.Prelude.Bits.{pow-mul_of_add}
use multi_mlton.SchedulerQueue.Buffer.{u32_mod, CircularBuffer, clean, enque, deque, count}
use native.Mathlib.Nat.{mod-eq_of_lt, pow-le-pow_right, add-mul-mod_self_right, add-mod_right}

-- The sizes are 1024, 2048, ...: a power of two divides the range of the 32-bit pointers.
pub record IsValid (b : CircularBuffer) : Type 0 where
  pub positive : 0 < b.size
  pub small : b.size < u32_mod
  pub power : IsPow2 b.size
  pub write_in : b.write_pointer < b.size
  pub read_in : b.read_pointer < b.size
  pub storage : b.size ≤ length b.keys

-- The index after `i`, as the code computes it.
abbrev pub next_index : ℕ → ℕ → ℕ
next_index size i = (i + 1) % u32_mod % size

pub next_index_lem :
    (size i : ℕ)
    → size < u32_mod
    → i < size
    → ((next_index size i ≡ i + 1) × (i + 1 < size)) ⊎ ((next_index size i ≡ 0) × (i + 1 ≡ size))
next_index_lem size i s h = elim (dec_lt (i + 1) size) [
  | yes p ↦ inl (omega (arith, mod-eq_of_lt {n = (i + 1) % u32_mod} {m = size} (omega arith)))
  | no p ↦ inr (grind arith)
]

-- The number of keys, with no wrapping.
abbrev pub distance : CircularBuffer → ℕ
distance b =
    if ltb b.write_pointer b.read_pointer
    then b.write_pointer + b.size - b.read_pointer
    else b.write_pointer - b.read_pointer

module _ {b : CircularBuffer} (v : IsValid b) where
  open b use {write_pointer as wp, read_pointer as rp, size}

  pub log_lt : v.power.0 < 32
  log_lt = elim (dec_lt v.power.0 32) [
    | yes p ↦ p
    | no p ↦ absurd (
        omega
          (arith, v, pow-le-pow_right {n = 2} (omega arith) {i = 32} {j = v.power.0} (omega arith)))
  ]

  laps : ℕ
  laps = 2 ^ (32 - v.power.0)

  whole_laps : laps * size ≡ u32_mod
  unfolding laps
  whole_laps = rw v.power.1 (pow-mul_of_add (32 - v.power.0) v.power.0 32 (omega (arith, log_lt)))

  -- The writer has gone round and the 32-bit difference is negative: it is a multiple of the size
  -- above the difference that is meant.
  count_wrapped : wp < rp → count b ≡ wp + size - rp
  unfolding count
  count_wrapped p =
      let e : ((wp + u32_mod - rp) % u32_mod + size) % size_mod ≡ wp + size - rp + laps * size =
        omega (arith, whole_laps, v) in
      rw (e, add-mul-mod_self_right (wp + size - rp) laps size) (mod-eq_of_lt (omega (arith, v)))

  count_straight : ¬ (wp < rp) → count b ≡ wp - rp
  unfolding count
  count_straight p =
      let e : ((wp + u32_mod - rp) % u32_mod + size) % size_mod ≡ wp - rp + size =
        omega (arith, v) in
      rw (e, add-mod_right (wp - rp) size) (mod-eq_of_lt (omega (arith, v)))

-- The arithmetic of the code, with its wrap in 32 bits, counts the keys.
pub count-eq-distance : {b : CircularBuffer} → IsValid b → count b ≡ distance b
count-eq-distance {b} v = elim (dec_lt b.write_pointer b.read_pointer) [
  | yes p ↦ ground (arith, count_wrapped v p)
  | no p ↦ ground (arith, count_straight v p)
]

pub clean-IsValid : {b : CircularBuffer} → IsValid b → IsValid (clean b)
unfolding clean
clean-IsValid v = ground arith

pub enque-IsValid : {b : CircularBuffer} (k : ℕ) → IsValid b → IsValid (enque b k).0
unfolding enque
enque-IsValid {b} k v = ground (arith, length-set b.keys b.write_pointer k)

pub deque-IsValid : {b : CircularBuffer} → IsValid b → IsValid (deque b).1
unfolding deque
deque-IsValid v = ground arith
