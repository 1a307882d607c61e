-- ===== src/CommaString/Digits.antt =====
-- How a number is written, said without the loop: the groups of digits, and the number that a string
-- with commas denotes; and strings in a buffer.
use multi_mlton.Prelude.{
  ℕ, zero, suc, ◌+◌, ◌-◌, ◌*◌, ◌/◌, ◌%◌, ◌^◌, ◌<◌, ◌≡◌, ◌≢◌, refl, ◌∙◌, true, false, ◌==◌, ltb,
  if◌then◌else◌, Bool-cases, inl, inr, ltb→lt, List, [], ◌∷◌, ◌++◌, arith,
}
use native.Mathlib.Nat.{pow-suc, div-lt_iff_lt-mul}
use multi_mlton.CommaString.{Buffer, put_char, put_string}

-- A number below 1000, without leading zeros; and with them.
abbrev pub leading : ℕ → List ℕ
leading n =
    if ltb n 10
    then (n % 10 + 48) ∷ []
    else (if ltb n 100
        then (n / 10 % 10 + 48) ∷ (n % 10 + 48) ∷ []
        else (n / 100 % 10 + 48) ∷ (n / 10 % 10 + 48) ∷ (n % 10 + 48) ∷ [])

abbrev pub three : ℕ → List ℕ
three n = (n / 100 % 10 + 48) ∷ (n / 10 % 10 + 48) ∷ (n % 10 + 48) ∷ []

-- A number of at most k + 1 groups of three digits.
abbrev pub with_commas : ℕ → ℕ → List ℕ
with_commas zero n = leading n
with_commas (suc k) n =
    if ltb n 1000 then leading n else with_commas k (n / 1000) ++ (44 ∷ three (n % 1000))

-- The string is in the buffer from p on, with the zero behind it, and has no zero inside.
pub data Holds (buf : Buffer) : ℕ → List ℕ → Type 0 where
  ends : {p : ℕ} → buf p ≡ 0 → Holds buf p []
  char : {p c : ℕ} {cs : List ℕ} → buf p ≡ c → c ≢ 0 → Holds buf (suc p) cs → Holds buf p (c ∷ cs)

pub put_char_same : (buf : Buffer) (i c : ℕ) → put_char buf i c i ≡ c
unfolding put_char
put_char_same buf i c = let e : (i == i) ≡ true = ground arith in rw e refl

pub put_char_other : (buf : Buffer) (i c j : ℕ) → j ≢ i → put_char buf i c j ≡ buf j
unfolding put_char
put_char_other buf i c j ne = let e : (j == i) ≡ false = ground arith in rw e refl

-- A byte that is written in front of a string.
pub Holds-behind :
    (buf : Buffer) (i c p : ℕ) (cs : List ℕ)
    → i < p
    → Holds buf p cs
    → Holds (put_char buf i c) p cs
Holds-behind buf i c p cs lt (ends e) =
    ends (put_char_other buf i c p (λ z. absurd (omega arith)) ∙ e)
Holds-behind buf i c p (d ∷ cs) lt (char e ne h) =
    char (put_char_other buf i c p (λ z. absurd (omega arith)) ∙ e) ne
      (Holds-behind buf i c (suc p) cs (omega arith) h)

pub Holds-put_char :
    (buf : Buffer) (i c : ℕ) (cs : List ℕ)
    → c ≢ 0
    → Holds buf (suc i) cs
    → Holds (put_char buf i c) i (c ∷ cs)
Holds-put_char buf i c cs ne h =
    char (put_char_same buf i c) ne (Holds-behind buf i c (suc i) cs (omega arith) h)

abbrev pub NoZero : List ℕ → Type 0
NoZero [] = Unit
NoZero (c ∷ cs) = (c ≢ 0) × NoZero cs

pub Holds-put_string :
    (cs : List ℕ) (p : ℕ) (buf : Buffer) → NoZero cs → Holds (put_string cs p buf) p cs
unfolding put_string
Holds-put_string [] p buf ne = ends (put_char_same buf p 0)
Holds-put_string (c ∷ cs) p buf ne =
    Holds-put_char (put_string cs (suc p) buf) p c cs ne.0 (Holds-put_string cs (suc p) buf ne.1)

-- The number that a string denotes, its commas left out.
abbrev pub value : ℕ → List ℕ → ℕ
value acc [] = acc
value acc (c ∷ cs) = if c == 44 then value acc cs else value (acc * 10 + (c - 48)) cs

value-append : (xs ys : List ℕ) (acc : ℕ) → value acc (xs ++ ys) ≡ value (value acc xs) ys
value-append [] ys acc = refl
value-append (c ∷ xs) ys acc = elim (Bool-cases (c == 44)) [
  | inl y ↦ rw y (value-append xs ys acc)
  | inr n ↦ rw n (value-append xs ys (acc * 10 + (c - 48)))
]

value_digit : (d acc : ℕ) (cs : List ℕ) → value acc ((d + 48) ∷ cs) ≡ value (acc * 10 + d) cs
value_digit d acc cs =
    let no_comma : (d + 48 == 44) ≡ false = ground arith in
    let back : d + 48 - 48 ≡ d = omega arith in rw (no_comma, back) refl

value-three : (n acc : ℕ) → n < 1000 → value acc (three n) ≡ acc * 1000 + n
value-three n acc lt =
    rw
      (
        value_digit (n / 100 % 10) acc,
        value_digit (n / 10 % 10) (acc * 10 + n / 100 % 10),
        value_digit (n % 10) ((acc * 10 + n / 100 % 10) * 10 + n / 10 % 10),
      )
      (omega arith)

value-leading : (n : ℕ) → n < 1000 → value 0 (leading n) ≡ n
value-leading n lt = elim (Bool-cases (ltb n 10)) [
  | inl one ↦ rw (one, value_digit (n % 10) 0) (omega (arith, ltb→lt n 10 one))
  | inr more ↦ elim (Bool-cases (ltb n 100)) [
    | inl two ↦
        rw (more, two, value_digit (n / 10 % 10) 0, value_digit (n % 10) (0 * 10 + n / 10 % 10))
          (omega (arith, ltb→lt n 100 two))
    | inr all ↦ rw (more, all, value-three n 0 lt) (omega arith)
  ]
]

pub value-with_commas : (k n : ℕ) → n < 1000 ^ suc k → value 0 (with_commas k n) ≡ n
value-with_commas zero n lt = value-leading n lt
value-with_commas (suc k) n lt = elim (Bool-cases (ltb n 1000)) [
  | inl y ↦ rw y (value-leading n (ltb→lt n 1000 y))
  | inr m ↦
      (let less : n / 1000 < 1000 ^ suc k =
          (div-lt_iff_lt-mul {k = 1000} (omega arith)).1 (rw (← pow-suc 1000 (suc k)) lt) in
        rw
          (
            m,
            value-append (with_commas k (n / 1000)) (44 ∷ three (n % 1000)) 0,
            value-with_commas k (n / 1000) less,
            value-three (n % 1000) (n / 1000) (omega arith),
          )
          (omega arith))
]
