-- ===== src/CommaString/Loop.antt =====
-- The turns of the loop over the digits, and the digits of the first group.
use multi_mlton.Prelude.{
  ℕ, suc, ◌+◌, ◌-◌, ◌/◌, ◌%◌, ◌≤◌, ◌<◌, ◌≡◌, ◌≢◌, refl, ◌∙◌, true, false, ◌&&◌, ◌==◌, ltb,
  Bool-cases, inl, inr, ltb→lt, lt→ltb, not_ltb→le, some, List, ◌∷◌, ◌++◌, arith,
}
use multi_mlton.CommaString.{Buffer, put_char, put_digits}
use multi_mlton.CommaString.Digits.{leading, three, Holds, Holds-put_char}

stop_step : (fuel i : ℕ) (buf : Buffer) → put_digits (suc fuel) 0 i buf ≡ some (i, buf)
unfolding put_digits
stop_step fuel i buf = refl

module _ (fuel n i : ℕ) (buf : Buffer) (pos : 0 < n) where
  plain_step :
      (i % 4 == 0 && ltb 0 (n / 10)) ≡ false
      → put_digits (suc fuel) n (suc i) buf
        ≡ put_digits fuel (n / 10) i (put_char buf (suc i) (n % 10 + 48))
  unfolding put_digits
  plain_step e = let at : suc i - 1 ≡ i = omega arith in rw (at, e, lt→ltb 0 n pos) refl

  comma_step :
      (suc i % 4 == 0 && ltb 0 (n / 10)) ≡ true
      → put_digits (suc fuel) n (suc (suc i)) buf
        ≡ put_digits fuel
            (n / 10)
            i
            (put_char (put_char buf (suc (suc i)) (n % 10 + 48)) (suc i) 44)
  unfolding put_digits
  comma_step e =
      let at : suc (suc i) - 1 ≡ suc i = omega arith in
      let at' : suc i - 1 ≡ i = omega arith in rw (at, at', e, lt→ltb 0 n pos) refl

pub no_comma_here : (i n : ℕ) → i % 4 ≢ 0 → (i % 4 == 0 && ltb 0 n) ≡ false
no_comma_here i n ne = let e : (i % 4 == 0) ≡ false = ground arith in rw e refl

no_comma_last : (i n : ℕ) → n ≡ 0 → (i % 4 == 0 && ltb 0 n) ≡ false
no_comma_last i n z = elim (Bool-cases (i % 4 == 0)) [ inl y ↦ rw (y, z) refl | inr m ↦ rw m refl ]

pub comma_here : (i n : ℕ) → i % 4 ≡ 0 → 0 < n → (i % 4 == 0 && ltb 0 n) ≡ true
comma_here i n z pos = rw (z, lt→ltb 0 n pos) refl

digit_ne_zero : (d : ℕ) → d + 48 ≢ 0
digit_ne_zero d e = absurd (omega arith)

-- What the loop leaves of a number, with the string `out` already behind index i.
pub record Written (fuel n i : ℕ) (cs : List ℕ) (buf : Buffer) (low : ℕ) : Type 0 where
  pub index : ℕ
  pub buffer : Buffer
  pub done : put_digits fuel n i buf ≡ some (index, buffer)
  pub string : Holds buffer (suc index) cs
  pub above : low ≤ suc index
  pub below : index ≤ i

-- One digit, then the rest.
module _ (fuel n i low : ℕ) (cs : List ℕ) (buf : Buffer) (pos : 0 < n) where
  pub Written-plain :
      (i % 4 == 0 && ltb 0 (n / 10)) ≡ false
      → Written fuel (n / 10) i cs (put_char buf (suc i) (n % 10 + 48)) low
      → Written (suc fuel) n (suc i) cs buf low
  Written-plain e w = record {
    index = w.index;
    buffer = w.buffer;
    done = plain_step fuel n i buf pos e ∙ w.done;
    string = w.string;
    above = w.above;
    below = omega (arith, w.below);
  }

  pub Written-comma :
      (suc i % 4 == 0 && ltb 0 (n / 10)) ≡ true
      → Written fuel
          (n / 10)
          i
          cs
          (put_char (put_char buf (suc (suc i)) (n % 10 + 48)) (suc i) 44)
          low
      → Written (suc fuel) n (suc (suc i)) cs buf low
  Written-comma e w = record {
    index = w.index;
    buffer = w.buffer;
    done = comma_step fuel n i buf pos e ∙ w.done;
    string = w.string;
    above = w.above;
    below = omega (arith, w.below);
  }

Written-stop :
    (fuel n i low : ℕ) (cs : List ℕ) (buf : Buffer)
    → n ≡ 0
    → Holds buf (suc i) cs
    → low ≤ suc i
    → Written (suc fuel) n i cs buf low
Written-stop fuel n i low cs buf z h le = record {
  index = i;
  buffer = buf;
  done = rw z (stop_step fuel i buf);
  string = h;
  above = le;
  below = omega arith;
}

-- One more digit in front of the string.
pub Holds-digit :
    (buf : Buffer) (i n : ℕ) (out : List ℕ)
    → Holds buf (suc i) out
    → Holds (put_char buf i (n % 10 + 48)) i ((n % 10 + 48) ∷ out)
Holds-digit buf i n out h = Holds-put_char buf i (n % 10 + 48) out (digit_ne_zero (n % 10)) h

-- The digits of the first group.
module _ (e n j : ℕ) (out : List ℕ) (buf : Buffer) (pos : 0 < n) (at : j % 4 ≡ 0)
    (h : Holds buf (suc (suc (suc (suc j)))) out) where
  one_digit : n < 10 → Written (suc (suc e)) n (suc (suc (suc j))) ((n % 10 + 48) ∷ out) buf (suc j)
  one_digit lt =
      Written-plain (suc e) n (suc (suc j)) (suc j) _ buf pos
        (no_comma_here (suc (suc j)) (n / 10) (λ f. absurd (omega arith)))
        (Written-stop e (n / 10) (suc (suc j)) (suc j) _ _ (omega arith)
          (Holds-digit buf (suc (suc (suc j))) n out h) (omega arith))

  two_digits :
      10 ≤ n
      → n < 100
      → Written
          (suc (suc (suc e)))
          n
          (suc (suc (suc j)))
          ((n / 10 % 10 + 48) ∷ (n % 10 + 48) ∷ out)
          buf
          (suc j)
  two_digits low lt =
      Written-plain (suc (suc e)) n (suc (suc j)) (suc j) _ buf pos
        (no_comma_here (suc (suc j)) (n / 10) (λ f. absurd (omega arith)))
        (Written-plain (suc e) (n / 10) (suc j) (suc j) _ _ (omega arith)
          (no_comma_here (suc j) (n / 10 / 10) (λ f. absurd (omega arith)))
          (Written-stop e (n / 10 / 10) (suc j) (suc j) _ _ (omega arith)
            (Holds-digit _ (suc (suc j)) (n / 10) _ (Holds-digit buf (suc (suc (suc j))) n out h))
            (omega arith)))

  hundreds_first : n / 100 % 10 ≡ n / 10 / 10 % 10
  hundreds_first = omega arith

  three_there :
      Holds
        (put_char
          (put_char
            (put_char buf (suc (suc (suc j))) (n % 10 + 48))
            (suc (suc j))
            (n / 10 % 10 + 48))
          (suc j)
          (n / 10 / 10 % 10 + 48))
        (suc j)
        (three n ++ out)
  three_there = rw hundreds_first (
      Holds-digit _ (suc j) (n / 10 / 10) _
        (Holds-digit _ (suc (suc j)) (n / 10) _ (Holds-digit buf (suc (suc (suc j))) n out h)))

  three_digits :
      100 ≤ n
      → n < 1000
      → Written (suc (suc (suc (suc e)))) n (suc (suc (suc j))) (three n ++ out) buf (suc j)
  three_digits low lt =
      Written-plain (suc (suc (suc e))) n (suc (suc j)) (suc j) _ buf pos
        (no_comma_here (suc (suc j)) (n / 10) (λ f. absurd (omega arith)))
        (Written-plain (suc (suc e)) (n / 10) (suc j) (suc j) _ _ (omega arith)
          (no_comma_here (suc j) (n / 10 / 10) (λ f. absurd (omega arith)))
          (Written-plain (suc e) (n / 10 / 10) j (suc j) _ _ (omega arith)
            (no_comma_last j (n / 10 / 10 / 10) (omega arith))
            (Written-stop e (n / 10 / 10 / 10) j (suc j) _ _ (omega arith) three_there
              (omega arith))))

pub first_group :
    (e n j : ℕ) (out : List ℕ) (buf : Buffer)
    → 0 < n
    → n < 1000
    → j % 4 ≡ 0
    → Holds buf (suc (suc (suc (suc j)))) out
    → Written (suc (suc (suc (suc e)))) n (suc (suc (suc j))) (leading n ++ out) buf (suc j)
first_group e n j out buf pos lt at h = elim (Bool-cases (ltb n 10)) [
  | inl one ↦ rw one (one_digit (suc (suc e)) n j out buf pos at h (ltb→lt n 10 one))
  | inr more ↦ elim (Bool-cases (ltb n 100)) [
    | inl two ↦
        rw (more, two)
          (two_digits (suc e) n j out buf pos at h (not_ltb→le n 10 more) (ltb→lt n 100 two))
    | inr all ↦ rw (more, all) (three_digits e n j out buf pos at h (not_ltb→le n 100 all) lt)
  ]
]
