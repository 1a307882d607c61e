-- ===== src/Heap/Retry.antt =====
-- The backing-off loop of createHeap and remapHeap: what it ends with, and where it runs away.
use multi_mlton.Prelude.{
  ℕ, zero, suc, ◌+◌, ◌-◌, ◌*◌, ◌/◌, ◌%◌, ◌≤◌, ◌<◌, ◌≡◌, ◌⊎◌, inl, inr, refl, subst, true, false,
  Option, none, some, leb, arith, dec_lt,
}
use multi_mlton.Align.{size_mod, sub_size}
use multi_mlton.Heap.Alloc.{Outcome, made, failed, next_size, retry}
use native.Mathlib.Nat.{div-add-mod', mul-mod_right, mul-sub}

sub_multiple : (a b p : ℕ) → a % p ≡ 0 → b % p ≡ 0 → (a - b) % p ≡ 0
sub_multiple a b p ha hb =
    let e : a - b ≡ p * (a / p - b / p) =
      omega (arith, mul-sub p (a / p) (b / p), div-add-mod' a p, div-add-mod' b p) in
    rw (e, mul-mod_right p (a / p - b / p))

module _ (backoff least size : ℕ) (le : backoff ≤ least) (lt : size < size_mod) where
  next_far : least + backoff ≤ size → next_size backoff least size ≡ size - backoff
  unfolding next_size
  next_far h = let e : sub_size size backoff ≡ size - backoff = omega arith in rw e (ground arith)

  next_near : least < size → size < least + backoff → next_size backoff least size ≡ least
  unfolding next_size
  next_near h k =
      let e : sub_size size backoff ≡ size - backoff = omega arith in rw e (ground arith)

  next_last : size ≡ least → next_size backoff least size ≡ least - backoff
  unfolding next_size
  next_last h = let e : sub_size size backoff ≡ size - backoff = omega arith in rw e (ground arith)

-- A size that the loop may ask for.
pub record InRange (least most page size : ℕ) : Type 0 where
  pub low : least ≤ size
  pub high : size ≤ most
  pub whole : size % page ≡ 0

-- What the loop needs of its arguments: whole pages, and a step that does not exceed the least
-- size, so that no subtraction wraps.
pub record IsSafe (backoff least most page : ℕ) : Type 0 where
  pub step_pos : 0 < backoff
  pub step_le : backoff ≤ least
  pub fits : most < size_mod
  pub whole_least : least % page ≡ 0
  pub whole_step : backoff % page ≡ 0

module _ {State : Type 0} (try : State → ℕ → Option ℕ × State) (backoff least most page : ℕ) where
  -- How the loop may end: with what the system gave for a size in range, in whole pages; or with a
  -- refusal of the least size.
  pub data Ending : Outcome → Type 0 where
    granted :
        (st st' : State) (start size : ℕ)
        → try st size ≡ (some start, st')
        → least ≤ size
        → size ≤ most
        → size % page ≡ 0
        → Ending (made start size)
    refused : (st st' : State) → try st least ≡ (none, st') → Ending failed

  -- From above the least size, the next size is in range again and nearer to it.
  next_InRange :
      (size : ℕ)
      → IsSafe backoff least most page
      → InRange least most page size
      → least < size
      → InRange least most page (next_size backoff least size)
        × ((next_size backoff least size ≡ least) ⊎ (next_size backoff least size + backoff ≡ size))
  next_InRange size safe r h = elim (dec_lt size (least + backoff)) [
    | yes k ↦
        let e = next_near backoff least size safe.step_le (omega (arith, safe, r)) h k in
        rw e (
          record { low = omega arith; high = omega (arith, r); whole = safe.whole_least },
          inl refl,
        )
    | no k ↦
        let e = next_far backoff least size safe.step_le (omega (arith, safe, r)) (omega arith) in
        rw e (
          record {
            low = omega arith;
            high = omega (arith, r);
            whole = sub_multiple size backoff page r.whole safe.whole_step;
          },
          inr (omega arith),
        )
  ]

  retry-granted :
      (fuel : ℕ) (st st' : State) (size start : ℕ)
      → try st size ≡ (some start, st')
      → (retry try backoff least (suc fuel) st size).0 ≡ made start size
  unfolding retry
  retry-granted fuel st st' size start e = rw (e, retry)

  retry-refused :
      (fuel : ℕ) (st st' : State) (size : ℕ)
      → try st size ≡ (none, st')
      → leb least (next_size backoff least size) ≡ true
      → retry try backoff least (suc fuel) st size
        ≡ retry try backoff least fuel st' (next_size backoff least size)
  unfolding retry
  retry-refused fuel st st' size e more = rw (e, retry, more, e)

  retry-failed :
      (fuel : ℕ) (st st' : State) (size : ℕ)
      → try st size ≡ (none, st')
      → leb least (next_size backoff least size) ≡ false
      → (retry try backoff least (suc fuel) st size).0 ≡ failed
  unfolding retry
  retry-failed fuel st st' size e last = rw (e, retry, last)

  -- One round, for either answer of the system; `rest` is the loop from the next size on.
  round-Ending :
      (fuel : ℕ) (st : State) (size : ℕ)
      → IsSafe backoff least most page
      → InRange least most page size
      → ((st' : State)
          → least < size
          → Ending (retry try backoff least fuel st' (next_size backoff least size)).0)
      → (answer : Option ℕ) (st' : State) → try st size ≡ (answer, st')
      → Ending (retry try backoff least (suc fuel) st size).0
  round-Ending fuel st size safe r rest (some start) st' e =
      rw (retry-granted fuel st st' size start e) (granted st st' start size e r.low r.high r.whole)
  round-Ending fuel st size safe r rest none st' e = elim (dec_lt least size) [
    | yes h ↦
        let more : leb least (next_size backoff least size) ≡ true =
          ground (arith, (next_InRange size safe r h).0) in
        rw (retry-refused fuel st st' size e more) (rest st' h)
    | no h ↦
        let at : size ≡ least = omega (arith, r) in
        let last : leb least (next_size backoff least size) ≡ false =
          ground
            (arith, next_last backoff least size safe.step_le (omega (arith, safe, r)) at, safe) in
        rw (retry-failed fuel st st' size e last)
          (refused st st' (subst (λ k. try st k ≡ (none, st')) at e))
  ]

  -- With fuel for each step from `size` down to the least size and one more, the loop ends, with
  -- memory of a size in range or after the refusal of the least size.
  pub retry-Ending :
      (fuel : ℕ) (st : State) (size : ℕ)
      → IsSafe backoff least most page
      → InRange least most page size
      → size ≤ least + fuel * backoff
      → Ending (retry try backoff least (suc fuel) st size).0
  retry-Ending zero st size safe r enough =
      round-Ending zero st size safe r (λ st' h. absurd (omega arith)) (try st size).0
        (try st size).1 refl
  retry-Ending (suc fuel) st size safe r enough =
      round-Ending (suc fuel) st size safe r
        (λ st' h.
          retry-Ending fuel st' (next_size backoff least size) safe (next_InRange size safe r h).0
            (omega (arith, next_InRange size safe r h)))
        (try st size).0 (try st size).1 refl
