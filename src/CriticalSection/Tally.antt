-- ===== src/CriticalSection/Tally.antt =====
-- How many of the first n numbers pass a test.
use multi_mlton.Prelude.{
  ℕ, zero, suc, ◌+◌, ◌≤◌, ◌<◌, ◌≡◌, ◌≢◌, Bool, true, false, if◌then◌else◌, Bool-cases, inl, inr,
  refl, arith, dec_lt,
}

abbrev pub tally : (ℕ → Bool) → ℕ → ℕ
tally f zero = 0
tally f (suc n) = (if f n then 1 else 0) + tally f n

pub tally-le : (f : ℕ → Bool) (n : ℕ) → tally f n ≤ n
tally-le f zero = omega arith
tally-le f (suc n) = ground (arith, tally-le f n)

-- A full tally has every number below n in it, and an empty one none.
pub tally_full : (f : ℕ → Bool) (n i : ℕ) → tally f n ≡ n → i < n → f i ≡ true
tally_full f zero i e lt = absurd (omega arith)
tally_full f (suc n) i e lt = elim (Bool-cases (f n)) [
  | inr out ↦ absurd (ground (arith, tally-le f n, out))
  | inl here ↦ elim (dec_lt i n) [
    | yes low ↦ tally_full f n i (ground (arith, here)) low
    | no top ↦ (let same : i ≡ n = omega arith in rw same here)
  ]
]

pub tally_none : (f : ℕ → Bool) (n : ℕ) → ((j : ℕ) → j < n → f j ≡ false) → tally f n ≡ 0
tally_none f zero h = refl
tally_none f (suc n) h = ground (arith, h n, tally_none f n (λ j lt. h j (omega arith)))

pub tally_same : (f g : ℕ → Bool) (n : ℕ) → ((j : ℕ) → j < n → f j ≡ g j) → tally f n ≡ tally g n
tally_same f g zero h = refl
tally_same f g (suc n) h = rw (h n (omega arith), tally_same f g n (λ j lt. h j (omega arith))) refl

-- One more number in the tally.
pub tally_more :
    (f g : ℕ → Bool) (n i : ℕ)
    → i < n
    → f i ≡ false
    → g i ≡ true
    → ((j : ℕ) → j ≢ i → f j ≡ g j)
    → tally g n ≡ suc (tally f n)
tally_more f g zero i lt out now h = absurd (omega arith)
tally_more f g (suc n) i lt out now h = elim (dec_lt i n) [
  | yes low ↦
      (let below = tally_more f g n i low out now h in
        let top : f n ≡ g n = h n (omega arith) in rw (top, below) (omega arith))
  | no high ↦
      (let same : i ≡ n = omega arith in
        let below = tally_same f g n (λ j jn. h j (omega arith)) in
        let at_f : f n ≡ false = rw (← same) out in
        let at_g : g n ≡ true = rw (← same) now in rw (at_f, at_g, below) (omega arith))
]

pub tally_pos : (f : ℕ → Bool) (n i : ℕ) → i < n → f i ≡ true → 0 < tally f n
tally_pos f zero i lt e = absurd (omega arith)
tally_pos f (suc n) i lt e = elim (dec_lt i n) [
  | yes low ↦ omega (arith, tally_pos f n i low e)
  | no high ↦
      (let same : i ≡ n = omega arith in let at : f n ≡ true = rw (← same) e in rw at (omega arith))
]

pub tally_missing : (f : ℕ → Bool) (n : ℕ) → tally f n < n → (j : ℕ) × (j < n) × (f j ≡ false)
tally_missing f zero few = absurd (omega arith)
tally_missing f (suc n) few = elim (Bool-cases (f n)) [
  | inr here ↦ (n, omega arith, here)
  | inl at ↦
      (let few' : tally f n < n = ground (arith, at) in
        let rest = tally_missing f n few' in (rest.0, omega (arith, rest.1), rest.2))
]
