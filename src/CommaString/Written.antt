-- ===== src/CommaString/Written.antt =====
-- What the two functions leave in their buffers.
use multi_mlton.Prelude.{
  ℕ, suc, ◌+◌, ◌-◌, ◌^◌, ◌<◌, ◌≡◌, Bool, refl, sym, subst, true, false, ◌==◌, ltb, leb,
  if◌then◌else◌, Bool-cases, inl, inr, ltb→lt, not_ltb→le, ==_iff, Option, some, List, [], ◌∷◌,
  ◌++◌, arith,
}
use mathlib.Core.List.{append-nil}
use multi_mlton.CommaString.{
  Buffer, put_char, put_digits, put_string, intmax_min_string, write_uintmax, write_intmax,
}
use multi_mlton.CommaString.Digits.{
  with_commas, Holds, ends, NoZero, Holds-put_char, Holds-put_string, put_char_same,
}
use multi_mlton.CommaString.Loop.{Written}
use multi_mlton.CommaString.Groups.{put_digits_lem}

abbrev ended : Buffer → Buffer
ended buf = put_char buf 80 0

pub Written-digits :
    (n : ℕ) (buf : Buffer)
    → 0 < n
    → n < 2 ^ 64
    → Written 22 n 79 (with_commas 6 n ++ []) (ended buf) 53
Written-digits n buf pos lt =
    put_digits_lem 6 n 52 [] (ended buf) pos (omega arith) refl (ends (put_char_same buf 80 0))

-- A string of the functions: where it starts in the buffer of 81 bytes, and what the buffer holds.
abbrev pub Writes : Option (ℕ × Buffer) → List ℕ → Type 0
Writes r cs =
    (p : ℕ) × (buf' : Buffer) × (r ≡ some (p, buf')) × Holds buf' p cs × (0 < p) × (p < 81)

zero_Holds : (buf : Buffer) → Holds (put_char (ended buf) 79 48) 79 (48 ∷ [])
zero_Holds buf =
    Holds-put_char (ended buf) 79 48 [] (λ e. absurd (omega arith)) (ends (put_char_same buf 80 0))

not_zero : (n : ℕ) → 0 < n → (0 == n) ≡ false
not_zero n pos = ground arith

pos_of : (n : ℕ) → (0 == n) ≡ false → 0 < n
pos_of n h = ground arith

module _ (n : ℕ) (buf : Buffer) where
  uintmax_zero : (0 == n) ≡ true → write_uintmax n buf ≡ some (79, put_char (ended buf) 79 48)
  unfolding write_uintmax
  uintmax_zero z = rw z refl

  uintmax_digits :
      (i : ℕ) (buf' : Buffer)
      → 0 < n
      → put_digits 22 n 79 (ended buf) ≡ some (i, buf')
      → write_uintmax n buf ≡ some (i + 1, buf')
  unfolding write_uintmax
  uintmax_digits i buf' pos e = rw (not_zero n pos, e) refl

pub write_uintmax_lem :
    (n : ℕ) (buf : Buffer) → n < 2 ^ 64 → Writes (write_uintmax n buf) (with_commas 6 n)
write_uintmax_lem n buf lt = elim (Bool-cases (0 == n)) [
  | inl z ↦
      (let e = (==_iff 0 n).0 z in
        (
          79,
          put_char (ended buf) 79 48,
          uintmax_zero n buf z,
          subst (λ k. Holds (put_char (ended buf) 79 48) 79 (with_commas 6 k)) e (zero_Holds buf),
          omega arith,
          omega arith,
        ))
  | inr m ↦
      (let w = Written-digits n buf (pos_of n m) lt in
        let at : suc w.index ≡ w.index + 1 = omega arith in
        (
          w.index + 1,
          w.buffer,
          uintmax_digits n buf w.index w.buffer (pos_of n m) w.done,
          rw (← at, ← append-nil (with_commas 6 n)) w.string,
          omega arith,
          omega (arith, w.below),
        ))
]

-- The string of a signed number, given in two's complement.
abbrev pub signed_with_commas : ℕ → List ℕ
signed_with_commas n = if ltb n (2 ^ 63) then with_commas 6 n else (45 ∷ with_commas 6 (2 ^ 64 - n))

module _ (n : ℕ) (buf : Buffer) where
  intmax_zero : (0 == n) ≡ true → write_intmax n buf ≡ some (79, put_char (ended buf) 79 48)
  unfolding write_intmax
  intmax_zero z = rw z refl

  intmax_least :
      (0 == n) ≡ false
      → (2 ^ 63 == n) ≡ true
      → write_intmax n buf ≡ some (1, put_string intmax_min_string 1 (ended buf))
  unfolding write_intmax
  intmax_least ne z = rw (ne, z) refl

  intmax_positive :
      (i : ℕ) (buf' : Buffer)
      → 0 < n
      → (2 ^ 63 == n) ≡ false
      → ltb n (2 ^ 63) ≡ true
      → leb (2 ^ 63) n ≡ false
      → put_digits 22 n 79 (ended buf) ≡ some (i, buf')
      → write_intmax n buf ≡ some (i + 1, buf')
  unfolding write_intmax
  intmax_positive i buf' pos ne lt nle e = rw (not_zero n pos, ne, lt, e, nle) refl

  intmax_negative :
      (i : ℕ) (buf' : Buffer)
      → 0 < n
      → (2 ^ 63 == n) ≡ false
      → ltb n (2 ^ 63) ≡ false
      → leb (2 ^ 63) n ≡ true
      → put_digits 22 (2 ^ 64 - n) 79 (ended buf) ≡ some (i, buf')
      → write_intmax n buf ≡ some (i - 1 + 1, put_char buf' i 45)
  unfolding write_intmax
  intmax_negative i buf' pos ne lt le e = rw (not_zero n pos, ne, lt, e, le) refl

-- No character of a string is a zero.
abbrev all_nonzero : List ℕ → Bool
all_nonzero [] = true
all_nonzero (c ∷ cs) = if c == 0 then false else all_nonzero cs

all_nonzero-NoZero : (cs : List ℕ) → all_nonzero cs ≡ true → NoZero cs
all_nonzero-NoZero [] e = tt
all_nonzero-NoZero (c ∷ cs) e = elim (Bool-cases (c == 0)) [
  | inl y ↦ absurd (true_ne_false (sym (rw y at e)))
  | inr n ↦ ((λ z. absurd (ground arith)), all_nonzero-NoZero cs (rw n at e))
]
  where
    true_ne_false : true ≡ false → ⊥
    true_ne_false e = cc

least_Holds :
    (buf : Buffer) → Holds (put_string intmax_min_string 1 buf) 1 (signed_with_commas (2 ^ 63))
least_Holds buf =
    Holds-put_string intmax_min_string 1 buf (all_nonzero-NoZero intmax_min_string refl)

at_least : (n : ℕ) → ltb n (2 ^ 63) ≡ false → leb (2 ^ 63) n ≡ true
at_least n h = ground arith

not_at_least : (n : ℕ) → ltb n (2 ^ 63) ≡ true → leb (2 ^ 63) n ≡ false
not_at_least n h = ground arith

write_positive :
    (n : ℕ) (buf : Buffer)
    → 0 < n
    → (2 ^ 63 == n) ≡ false
    → ltb n (2 ^ 63) ≡ true
    → Writes (write_intmax n buf) (with_commas 6 n)
write_positive n buf pos ne less =
    let w = Written-digits n buf pos (omega (arith, ltb→lt n (2 ^ 63) less)) in
    let at : suc w.index ≡ w.index + 1 = omega arith in
    (
      w.index + 1,
      w.buffer,
      intmax_positive n buf w.index w.buffer pos ne less (not_at_least n less) w.done,
      rw (← at, ← append-nil (with_commas 6 n)) w.string,
      omega arith,
      omega (arith, w.below),
    )

write_negative :
    (n : ℕ) (buf : Buffer)
    → n < 2 ^ 64
    → (2 ^ 63 == n) ≡ false
    → ltb n (2 ^ 63) ≡ false
    → Writes (write_intmax n buf) (45 ∷ with_commas 6 (2 ^ 64 - n))
write_negative n buf lt ne more =
    let large = not_ltb→le n (2 ^ 63) more in
    let w = Written-digits (2 ^ 64 - n) buf (omega arith) (omega arith) in
    let at : w.index - 1 + 1 ≡ w.index = omega (arith, w.above) in
    (
      w.index - 1 + 1,
      put_char w.buffer w.index 45,
      intmax_negative n buf w.index w.buffer (omega arith) ne more (at_least n more) w.done,
      rw (at, ← append-nil (with_commas 6 (2 ^ 64 - n)))
          (Holds-put_char w.buffer w.index 45 (with_commas 6 (2 ^ 64 - n) ++ [])
            (λ e. absurd (omega arith)) w.string),
      omega (arith, w.above),
      omega (arith, w.below),
    )

pub write_intmax_lem :
    (n : ℕ) (buf : Buffer) → n < 2 ^ 64 → Writes (write_intmax n buf) (signed_with_commas n)
write_intmax_lem n buf lt = elim (Bool-cases (0 == n)) [
  | inl z ↦ (
    79,
    put_char (ended buf) 79 48,
    intmax_zero n buf z,
    subst (λ k. Holds (put_char (ended buf) 79 48) 79 (signed_with_commas k)) ((==_iff 0 n).0 z)
        (zero_Holds buf),
    omega arith,
    omega arith,
  )
  | inr some_there ↦ elim (Bool-cases (2 ^ 63 == n)) [
    | inl least ↦ (
      1,
      put_string intmax_min_string 1 (ended buf),
      intmax_least n buf some_there least,
      subst (λ k. Holds (put_string intmax_min_string 1 (ended buf)) 1 (signed_with_commas k))
          ((==_iff (2 ^ 63) n).0 least) (least_Holds (ended buf)),
      omega arith,
      omega arith,
    )
    | inr ne ↦ elim (Bool-cases (ltb n (2 ^ 63))) [
      | inl less ↦ rw less (write_positive n buf (pos_of n some_there) ne less)
      | inr more ↦ rw more (write_negative n buf lt ne more)
    ]
  ]
]
