-- ===== src/SchedulerQueue/Buffer/Refine.antt =====
-- A valid circular buffer behaves as the list of the keys that it holds, oldest first.
use multi_mlton.Prelude.{
  ℕ, zero, suc, ◌+◌, ◌≤◌, ◌<◌, ◌≡◌, ◌≢◌, ◌⊎◌, inl, inr, refl, ap, ◌∙◌, true, false, none, some,
  List, [], ◌∷◌, ◌++◌, length, get_or, set, ◌==◌, arith, Bool-cases,
}
use multi_mlton.SchedulerQueue.Buffer.{u32_mod, CircularBuffer, enque, deque, is_full, is_empty}
use multi_mlton.SchedulerQueue.Fifo.{push, pop}
use multi_mlton.SchedulerQueue.Buffer.Inv.{IsValid, next_index, next_index_lem, distance}

pub get_or-set_self : (xs : List ℕ) (i v : ℕ) → i < length xs → get_or (set xs i v) i 0 ≡ v
get_or-set_self [] i v h = absurd (omega arith)
get_or-set_self (x ∷ xs) zero v h = refl
get_or-set_self (x ∷ xs) (suc i) v h = get_or-set_self xs i v (omega arith)

pub get_or-set_ne : (xs : List ℕ) (i j v : ℕ) → i ≢ j → get_or (set xs i v) j 0 ≡ get_or xs j 0
get_or-set_ne [] i j v h = refl
get_or-set_ne (x ∷ xs) zero zero v h = absurd (h refl)
get_or-set_ne (x ∷ xs) zero (suc j) v h = refl
get_or-set_ne (x ∷ xs) (suc i) zero v h = refl
get_or-set_ne (x ∷ xs) (suc i) (suc j) v h = get_or-set_ne xs i j v (λ e. h (ap suc e))

-- The `n` keys from index `i` on, in the order in which they leave.
abbrev pub keys_from : List ℕ → ℕ → ℕ → ℕ → List ℕ
keys_from ks size i zero = []
keys_from ks size i (suc n) = get_or ks i 0 ∷ keys_from ks size (next_index size i) n

abbrev pub contents : CircularBuffer → List ℕ
contents b = keys_from b.keys b.size b.read_pointer (distance b)

pub length-keys_from : (ks : List ℕ) (size i n : ℕ) → length (keys_from ks size i n) ≡ n
length-keys_from ks size i zero = refl
length-keys_from ks size i (suc n) = ap suc (length-keys_from ks size (next_index size i) n)

-- `count` is the length of the contents, which is below the size.
pub length-contents : (b : CircularBuffer) → length (contents b) ≡ distance b
length-contents b = length-keys_from b.keys b.size b.read_pointer (distance b)

-- `w` is the index that is `n` places after `i`, going round at most once.
abbrev pub IsAt : ℕ → ℕ → ℕ → ℕ → Type 0
IsAt size i n w = (i + n ≡ w) ⊎ (i + n ≡ w + size)

-- A key written just after a stretch of keys extends the stretch by it.
keys_from-set :
    (ks : List ℕ) (size i n w k : ℕ)
    → size ≤ length ks
    → size < u32_mod
    → i < size
    → w < size
    → n < size
    → IsAt size i n w
    → keys_from (set ks w k) size i (suc n) ≡ keys_from ks size i n ++ (k ∷ [])
keys_from-set ks size i zero w k st sm hi hw hn at =
    let e : i ≡ w = omega arith in rw (e, get_or-set_self ks w k (omega arith))
keys_from-set ks size i (suc n) w k st sm hi hw hn at =
    let ne : w ≢ i = omega arith in
    rw (
      get_or-set_ne ks w i k ne,
      keys_from-set ks size (next_index size i) n w k st sm
          (omega (arith, next_index_lem size i sm hi)) hw (omega arith)
          (omega (arith, next_index_lem size i sm hi)),
    )

module _ {b : CircularBuffer} (v : IsValid b) where
  open b use {write_pointer as wp, read_pointer as rp, size, keys}

  pub writer-IsAt : IsAt size rp (distance b) wp
  writer-IsAt = ground (arith, v)

  empty_distance : is_empty b ≡ (distance b == 0)
  unfolding is_empty
  empty_distance = ground (arith, v)

  pub full_distance : is_full b ≡ (distance b + 1 == size)
  unfolding is_full
  full_distance = ground (arith, next_index_lem size wp)

  distance-enque : (k : ℕ) → is_full b ≡ false → distance (enque b k).0 ≡ suc (distance b)
  unfolding enque is_full
  distance-enque k nf = ground (arith, next_index_lem size wp)

  pub distance-lt-size : distance b < size
  distance-lt-size = ground (arith, v)

  distance-deque : is_empty b ≡ false → distance b ≡ suc (distance (deque b).1)
  unfolding deque is_empty
  distance-deque ne = ground (arith, next_index_lem size rp)

  -- The test for emptiness answers whether the contents are empty, the test for fullness whether
  -- one more key would reach the size.
  pub tests_lem :
      (is_empty b ≡ (length (contents b) == 0)) × (is_full b ≡ (length (contents b) + 1 == size))
  tests_lem = rw (length-contents b) (empty_distance, full_distance)

  -- On a valid buffer that is not full, CircularBufferEnque does not report a full buffer and puts
  -- the key behind the others.
  pub enque_refines :
      (k : ℕ)
      → is_full b ≡ false
      → ((enque b k).1 ≡ false) × (contents (enque b k).0 ≡ push (contents b) k)
  unfolding enque push
  enque_refines k nf = (
    nf,
    rw (distance-enque k nf) (
        keys_from-set keys size rp (distance b) wp k v.storage v.small v.read_in v.write_in
          distance-lt-size writer-IsAt),
  )

  -- On a valid buffer that is full, CircularBufferEnque reports it, but has made the write all the
  -- same, and all keys of the buffer are lost.
  pub enque_full :
      (k : ℕ) → is_full b ≡ true → ((enque b k).1 ≡ true) × (contents (enque b k).0 ≡ [])
  unfolding enque is_full
  enque_full k full =
      let e : distance (enque b k).0 ≡ 0 = ground (arith, next_index_lem size wp) in
      (full, ap (keys_from (set keys wp k) size rp) e)

  pub deque_of_empty : is_empty b ≡ true → (deque b ≡ (none, b)) × (contents b ≡ [])
  unfolding deque is_empty
  deque_of_empty e =
      let z : distance b ≡ 0 = ground arith in (ground arith, ap (keys_from keys size rp) z)

  pub deque_of_nonempty :
      is_empty b ≡ false
      → ((deque b).0 ≡ some (get_or keys rp 0))
        × (contents b ≡ get_or keys rp 0 ∷ contents (deque b).1)
  unfolding deque is_empty
  deque_of_nonempty e = (ground arith, ap (keys_from keys size rp) (distance-deque e) ∙ (rw e))

  -- On a valid buffer CircularBufferDeque takes the oldest key out and answers it, or answers that
  -- there is none and changes nothing.
  pub deque_refines : let (k, b') = deque b in (k, contents b') ≡ pop (contents b)
  unfolding pop
  deque_refines = elim (Bool-cases (is_empty b)) [
    | inl e ↦ rw ((deque_of_empty e).0, (deque_of_empty e).1)
    | inr e ↦ rw ((deque_of_nonempty e).0, (deque_of_nonempty e).1)
  ]
