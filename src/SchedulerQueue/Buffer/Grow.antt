-- ===== src/SchedulerQueue/Buffer/Grow.antt =====
-- growCircularBuffer: the doubled buffer holds the same keys.
use multi_mlton.Prelude.{
  ℕ, zero, suc, ◌+◌, ◌-◌, ◌*◌, ◌%◌, ◌^◌, ◌≤◌, ◌<◌, ◌≡◌, refl, ap, ap₂, subst, sym, ◌∙◌, false, some,
  lt→ltb, List, [], ◌∷◌, ◌++◌, length, length-append, length-take, length-drop, get_or, take, drop,
  ltb, if◌then◌else◌, arith, dec_lt,
}
use multi_mlton.Align.{mul_size}
use multi_mlton.SchedulerQueue.Buffer.{
  u32_mod, CircularBuffer, Malloc, IsMalloc, memcpy, through_int, is_full, count, init, grow,
}
use multi_mlton.SchedulerQueue.Buffer.Inv.{
  IsValid, next_index, next_index_lem, distance, count-eq-distance, log_lt,
}
use multi_mlton.SchedulerQueue.Buffer.Refine.{
  keys_from, contents, distance-lt-size, full_distance, length-contents,
}
use Prim.Native.Nat.add
use native.Mathlib.Nat.{zero-add, pow-suc}
use mathlib.Core.List.{append_assoc}

drop-step : (ks : List ℕ) (i : ℕ) → i < length ks → drop i ks ≡ get_or ks i 0 ∷ drop (suc i) ks
drop-step [] i h = absurd (omega arith)
drop-step (k ∷ ks) zero h = refl
drop-step (k ∷ ks) (suc i) h = drop-step ks i (omega arith)

take-append_exact : (n : ℕ) (xs ys : List ℕ) → length xs ≡ n → take n (xs ++ ys) ≡ xs
take-append_exact zero [] ys e = refl
take-append_exact zero (x ∷ xs) ys e = absurd (omega arith)
take-append_exact (suc n) [] ys e = absurd (omega arith)
take-append_exact (suc n) (x ∷ xs) ys e =
    ap (λ zs. x ∷ zs) (take-append_exact n xs ys (omega arith))

get_or-append_right : (xs ys : List ℕ) (y : ℕ) → get_or (xs ++ (y ∷ ys)) (length xs) 0 ≡ y
get_or-append_right [] ys y = refl
get_or-append_right (x ∷ xs) ys y = get_or-append_right xs ys y

one_add : (n : ℕ) → 1 + n ≡ suc n
one_add n = omega arith

module _ (ks : List ℕ) (size : ℕ) (small : size < u32_mod) where
  -- A stretch that does not reach the end of the array is a slice of it.
  keys_from_straight :
      (n i : ℕ) → size ≤ length ks → i + n < size → keys_from ks size i n ≡ take n (drop i ks)
  keys_from_straight zero i st h = refl
  keys_from_straight (suc n) i st h =
      let e : next_index size i ≡ suc i =
        omega (arith, next_index_lem size i small (omega arith)) in
      rw (e, drop-step ks i (omega arith), keys_from_straight n (suc i) st (omega arith))

  -- One that goes on from the start is two slices.
  keys_from_round :
      (m n i : ℕ)
      → size ≤ length ks
      → i < size
      → i + m ≡ size
      → n < size
      → keys_from ks size i (m + n) ≡ take m (drop i ks) ++ take n ks
  keys_from_round zero n i st hi e hn = absurd (omega arith)
  keys_from_round (suc zero) n i st hi e hn =
      let next : next_index size i ≡ 0 = omega (arith, next_index_lem size i small hi) in
      rw (one_add n, next, drop-step ks i (omega arith), keys_from_straight n 0 st (omega arith))
  keys_from_round (suc (suc m)) n i st hi e hn =
      let next : next_index size i ≡ suc i = omega (arith, next_index_lem size i small hi) in
      rw (add.suc (suc m) n, next, drop-step ks i (omega arith))
        (ap (λ zs. get_or ks i 0 ∷ zs)
          (keys_from_round (suc m) n (suc i) st (omega arith) (omega arith) hn))

-- Keys laid out from some index on are read back.
keys_from_laid_out :
    (size : ℕ) (pre xs ys : List ℕ)
    → size < u32_mod
    → length pre + length xs < size
    → keys_from (pre ++ (xs ++ ys)) size (length pre) (length xs) ≡ xs
keys_from_laid_out size pre [] ys sm h = refl
keys_from_laid_out size pre (x ∷ xs) ys sm h = ap₂ ◌∷◌ (get_or-append_right pre (xs ++ ys) x) (
    subst (λ zs. keys_from zs size (next_index size (length pre)) (length xs) ≡ xs) (sym regroup)
      (rw next (keys_from_laid_out size (pre ++ (x ∷ [])) xs ys sm short)))
  where
    regroup : pre ++ ((x ∷ xs) ++ ys) ≡ (pre ++ (x ∷ [])) ++ (xs ++ ys)
    regroup = sym (append_assoc pre (x ∷ []) (xs ++ ys))

    next : next_index size (length pre) ≡ length (pre ++ (x ∷ []))
    next =
        omega (arith, length-append pre (x ∷ []), next_index_lem size (length pre) sm (omega arith))

    short : length (pre ++ (x ∷ [])) + length xs < size
    short = omega (arith, length-append pre (x ∷ []))

length-memcpy :
    (dst src : List ℕ) (i j n : ℕ)
    → i + n ≤ length dst
    → j + n ≤ length src
    → length (memcpy dst i src j n) ≡ length dst
length-memcpy dst src i j n hi hj = omega (
  arith,
  length-append (take i dst) (take n (drop j src) ++ drop (i + n) dst),
  length-append (take n (drop j src)) (drop (i + n) dst),
  length-take i dst,
  length-take n (drop j src),
  length-drop j src,
  length-drop (i + n) dst,
)

-- The two shapes in which `memcpy` leaves the new array: the old contents, then something.
module _ {b : CircularBuffer} (v : IsValid b) (new : List ℕ) where
  open b use {write_pointer as wp, read_pointer as rp, size, keys}

  abbrev new_keys : List ℕ
  new_keys =
      if ltb rp wp
      then memcpy new 0 keys rp (wp - rp)
      else memcpy (memcpy new 0 keys rp (size - rp)) (size - rp) keys 0 wp

  length-new_keys : size ≤ length new → length new_keys ≡ length new
  length-new_keys h = elim (dec_lt rp wp) [
    | yes p ↦ ground (arith, v, length-memcpy new keys 0 rp (wp - rp))
    | no p ↦ ground (
      arith,
      v,
      length-memcpy new keys 0 rp (size - rp),
      length-memcpy (memcpy new 0 keys rp (size - rp)) keys (size - rp) 0 wp,
    )
  ]

  straight_contents : rp < wp → contents b ≡ take (wp - rp) (drop rp keys)
  straight_contents p =
      let d : distance b ≡ wp - rp = ground arith in
      ap (keys_from keys size rp) d
      ∙ keys_from_straight keys size v.small (wp - rp) rp v.storage (omega (arith, v))

  round_contents : wp < rp → contents b ≡ take (size - rp) (drop rp keys) ++ take wp keys
  round_contents p =
      let d : distance b ≡ (size - rp) + wp = ground (arith, v) in
      ap (keys_from keys size rp) d
      ∙ keys_from_round keys size v.small (size - rp) wp rp v.storage v.read_in (omega (arith, v))
          v.write_in

  empty_contents : rp ≡ wp → contents b ≡ []
  empty_contents e = let d : distance b ≡ 0 = ground arith in ap (keys_from keys size rp) d

  laid_straight : rp < wp → (r : List ℕ) × (new_keys ≡ contents b ++ r)
  laid_straight p = (drop (wp - rp) new, rw (straight_contents p, lt→ltb rp wp p, zero-add))

  laid_round : wp < rp → (r : List ℕ) × (new_keys ≡ contents b ++ r)
  laid_round p =
      let m = size - rp in
      let first = take m (drop rp keys) in
      let inner = first ++ drop (0 + m) new in
      let no_lt : ltb rp wp ≡ false = ground arith in
      let exact : take m inner ≡ first =
        take-append_exact m first (drop (0 + m) new)
          (omega (arith, v, length-take m (drop rp keys), length-drop rp keys)) in
      (
        drop (m + wp) inner,
        rw (no_lt, round_contents p, exact)
            (sym (append_assoc first (take wp keys) (drop (m + wp) inner))),
      )

  laid : (r : List ℕ) × (new_keys ≡ contents b ++ r)
  laid = elim (dec_lt rp wp) [
    | yes p ↦ laid_straight p
    | no p ↦ elim (dec_lt wp rp) [
      | yes q ↦ laid_round q
      | no q ↦ (new_keys, rw (empty_contents (omega arith)))
    ]
  ]

  -- What `grow` builds from the block `new`.
  grown : CircularBuffer
  grown = record { write_pointer = distance b; read_pointer = 0; size = 2 * size; keys = new_keys }

  distance-grown : distance grown ≡ distance b
  unfolding grown
  distance-grown = ground arith

  contents-grown : size ≤ 2 ^ 26 → contents grown ≡ contents b
  unfolding grown
  contents-grown small =
      let (r, e) = laid in
      let n : distance grown ≡ length (contents b) = distance-grown ∙ sym (length-contents b) in
      ap₂ (λ zs k. keys_from zs (2 * size) 0 k) e n
      ∙ keys_from_laid_out (2 * size) [] (contents b) r (omega arith)
          (omega (arith, length-contents b, distance-lt-size v, v))

  grown-IsValid : size ≤ 2 ^ 26 → 2 * size ≤ length new → IsValid grown
  unfolding grown
  grown-IsValid small room = record {
    positive = omega (arith, v);
    small = omega arith;
    power = (suc v.power.0, rw (pow-suc 2 v.power.0) (omega (arith, v)), omega (arith, log_lt v));
    write_in = omega (arith, distance-lt-size v);
    read_in = omega (arith, v);
    storage = omega (arith, length-new_keys (omega arith));
  }

  is_full-grown : size ≤ 2 ^ 26 → 2 * size ≤ length new → is_full grown ≡ false
  unfolding grown
  is_full-grown small room =
      full_distance (grown-IsValid small room) ∙ ground (arith, distance-grown, distance-lt-size v)

  grow-eq-grown :
      (malloc : Malloc)
      → size ≤ 2 ^ 26
      → malloc (size * 16 + 16) ≡ some new
      → grow malloc b ≡ some grown
  unfolding grow grown
  grow-eq-grown malloc small got = rw (made, grow, c)
    where
      s2 : through_int (mul_size size 2) ≡ 2 * size
      s2 = ground arith

      sz : through_int (2 * size * 8 + 16) ≡ size * 16 + 16
      sz = ground arith

      made :
          init malloc (through_int (mul_size size 2))
          ≡ some (record { write_pointer = 0; read_pointer = 0; size = 2 * size; keys = new })
      made = rw (s2, sz, init) (rw got (rw s2))

      c : count b % u32_mod ≡ distance b
      c = omega (arith, count-eq-distance v, distance-lt-size v, v)

-- For a valid buffer of at most 2^26 slots and a `malloc` that gives blocks as large as asked and
-- grants this one, growCircularBuffer gives a valid buffer twice as large that has the same keys in
-- the same order and is not full.
pub grow_lem :
    (malloc : Malloc) {b : CircularBuffer} (ks : List ℕ)
    → IsMalloc malloc
    → IsValid b
    → b.size ≤ 2 ^ 26
    → malloc (b.size * 16 + 16) ≡ some ks
    → (b' : CircularBuffer) × (grow malloc b ≡ some b')
      × IsValid b'
      × (b'.size ≡ 2 * b.size)
      × (contents b' ≡ contents b)
      × (is_full b' ≡ false)
unfolding grown
grow_lem malloc {b} ks ok v small got = (
  grown v ks,
  grow-eq-grown v ks malloc small got,
  grown-IsValid v ks small room,
  refl,
  contents-grown v ks small,
  is_full-grown v ks small room,
)
  where
    room : 2 * b.size ≤ length ks
    room = omega (arith, ok (b.size * 16 + 16) ks got)
