-- ===== src/CommaString/Groups.antt =====
-- The loop over the digits writes a number as it is to be written.
use multi_mlton.Prelude.{
  ℕ, zero, suc, ◌+◌, ◌/◌, ◌%◌, ◌^◌, ◌≤◌, ◌<◌, ◌≡◌, refl, ltb, Bool-cases, inl, inr, ltb→lt,
  not_ltb→le, List, [], ◌∷◌, ◌++◌, arith,
}
use mathlib.Core.List.{append_assoc}
use native.Mathlib.Nat.{pow-suc, div-lt_iff_lt-mul}
use multi_mlton.CommaString.{Buffer, put_char}
use multi_mlton.CommaString.Digits.{leading, three, with_commas, Holds, Holds-put_char}
use multi_mlton.CommaString.Loop.{
  no_comma_here, comma_here, Written, Written-plain, Written-comma, Holds-digit, first_group,
}

-- Three digits and a comma in front of them, if there are more.
module _ (fuel n j : ℕ) (cs out : List ℕ) (buf : Buffer) (low : ℕ) (large : 1000 ≤ n)
    (at : j % 4 ≡ 3) (h : Holds buf (suc (suc (suc (suc (suc j))))) out) where
  abbrev grouped : Buffer
  grouped =
      put_char
        (put_char
          (put_char (put_char buf (suc (suc (suc (suc j)))) (n % 10 + 48)) (suc (suc (suc j)))
            (n / 10 % 10 + 48))
          (suc (suc j)) (n / 10 / 10 % 10 + 48))
        (suc j) 44

  grouped-Holds : Holds grouped (suc j) (44 ∷ (three (n % 1000) ++ out))
  grouped-Holds =
      let hundreds : n % 1000 / 100 % 10 ≡ n / 10 / 10 % 10 = omega arith in
      let tens : n % 1000 / 10 % 10 ≡ n / 10 % 10 = omega arith in
      let ones : n % 1000 % 10 ≡ n % 10 = omega arith in
      rw (hundreds, tens, ones)
        (Holds-put_char _ (suc j) 44 _ (λ e. absurd (omega arith))
          (Holds-digit _ (suc (suc j)) (n / 10 / 10) _ (
            Holds-digit _ (suc (suc (suc j))) (n / 10) _
              (Holds-digit buf (suc (suc (suc (suc j)))) n out h))))

  next_group :
      Written fuel (n / 1000) j cs grouped low
      → Written (suc (suc (suc fuel))) n (suc (suc (suc (suc j)))) cs buf low
  next_group rest =
      let e : n / 1000 ≡ n / 10 / 10 / 10 = omega arith in
      let rest' : Written fuel (n / 10 / 10 / 10) j cs grouped low = rw e at rest in
      Written-plain (suc (suc fuel)) n (suc (suc (suc j))) low cs buf (omega arith)
        (no_comma_here (suc (suc (suc j))) (n / 10) (λ f. absurd (omega arith)))
        (Written-plain (suc fuel) (n / 10) (suc (suc j)) low cs _ (omega arith)
          (no_comma_here (suc (suc j)) (n / 10 / 10) (λ f. absurd (omega arith)))
          (Written-comma fuel (n / 10 / 10) j low cs _ (omega arith)
            (comma_here (suc j) (n / 10 / 10 / 10) (omega arith) (omega arith)) rest'))

-- Three turns of the loop for each group, and one more to leave it.
abbrev pub groups_fuel : ℕ → ℕ
groups_fuel zero = 4
groups_fuel (suc k) = suc (suc (suc (groups_fuel k)))

-- The place of the last digit, if there is room for k more groups.
abbrev pub last_place : ℕ → ℕ → ℕ
last_place zero j = suc (suc (suc j))
last_place (suc k) j = suc (suc (suc (suc (last_place k j))))

last_place_mod : (k j : ℕ) → j % 4 ≡ 0 → last_place k j % 4 ≡ 3
last_place_mod zero j at = omega arith
last_place_mod (suc k) j at = omega (arith, last_place_mod k j at)

last_place_low : (k j : ℕ) → suc j ≤ last_place k j
last_place_low zero j = omega arith
last_place_low (suc k) j = omega (arith, last_place_low k j)

groups_fuel_pos : (k : ℕ) → (e : ℕ) × (groups_fuel k ≡ suc e)
groups_fuel_pos zero = (3, refl)
groups_fuel_pos (suc k) = (suc (suc (groups_fuel k)), refl)

Written-low :
    (fuel n i : ℕ) (cs : List ℕ) (buf : Buffer) (low low' : ℕ)
    → low ≤ low'
    → Written fuel n i cs buf low'
    → Written fuel n i cs buf low
Written-low fuel n i cs buf low low' le w = record {
  index = w.index;
  buffer = w.buffer;
  done = w.done;
  string = w.string;
  above = omega (arith, w.above);
  below = w.below;
}

-- A last group, with room for more.
last_group :
    (k n j : ℕ) (out : List ℕ) (buf : Buffer)
    → 0 < n
    → n < 1000
    → j % 4 ≡ 0
    → Holds buf (suc (last_place (suc k) j)) out
    → Written (groups_fuel (suc k)) n (last_place (suc k) j) (leading n ++ out) buf (suc j)
last_group k n j out buf pos lt at h =
    let e = groups_fuel_pos k in
    Written-low _ n (last_place (suc k) j) _ buf (suc j) (suc (suc (last_place k j)))
      (omega (arith, last_place_low k j))
      (rw e.1 (
        first_group e.0 n (suc (last_place k j)) out buf pos lt
          (omega (arith, last_place_mod k j at)) h))

pub put_digits_lem :
    (k n j : ℕ) (out : List ℕ) (buf : Buffer)
    → 0 < n
    → n < 1000 ^ suc k
    → j % 4 ≡ 0
    → Holds buf (suc (last_place k j)) out
    → Written (groups_fuel k) n (last_place k j) (with_commas k n ++ out) buf (suc j)
put_digits_lem zero n j out buf pos lt at h = first_group 0 n j out buf pos lt at h
put_digits_lem (suc k) n j out buf pos lt at h = elim (Bool-cases (ltb n 1000)) [
  | inl y ↦ rw y (last_group k n j out buf pos (ltb→lt n 1000 y) at h)
  | inr m ↦
      (let large = not_ltb→le n 1000 m in
        let place = last_place_mod k j at in
        let less : n / 1000 < 1000 ^ suc k =
          (div-lt_iff_lt-mul {k = 1000} (omega arith)).1 (rw (← pow-suc 1000 (suc k)) lt) in
        let there = grouped-Holds (groups_fuel k) n (last_place k j) [] out buf 0 large place h in
        let rest =
          put_digits_lem k (n / 1000) j (44 ∷ (three (n % 1000) ++ out)) _ (omega arith) less at
            there in
        rw (m, append_assoc (with_commas k (n / 1000)) (44 ∷ three (n % 1000)) out)
          (next_group (groups_fuel k) n (last_place k j) _ out buf (suc j) large place h rest))
]
