-- ===== src/CommaString/Tests.antt =====
-- 1234567, the least number, and four calls after the first.
use multi_mlton.Prelude.{ℕ, ◌-◌, ◌^◌, ◌≡◌, refl, some, [], ◌∷◌, arith}
use multi_mlton.CommaString.{Buffers, uintmax_to_comma_string, intmax_to_comma_string}
use multi_mlton.CommaString.Digits.{with_commas, value, Holds}
use multi_mlton.CommaString.Written.{signed_with_commas}
use multi_mlton.CommaString.Turns.{
  Gives, calls, uintmax_to_comma_string_lem, intmax_to_comma_string_lem, comma_string_lasts,
}

abbrev blank : Buffers
blank = record { bufs = λ k i. 0; buf_index = 0 }

million : with_commas 6 1234567 ≡ 49 ∷ 44 ∷ 50 ∷ 51 ∷ 52 ∷ 44 ∷ 53 ∷ 54 ∷ 55 ∷ []
million = refl

uintmax_to_comma_string_lem_example :
    Gives (uintmax_to_comma_string 1234567 blank) blank (with_commas 6 1234567)
    × (value 0 (with_commas 6 1234567) ≡ 1234567)
uintmax_to_comma_string_lem_example = uintmax_to_comma_string_lem 1234567 blank (omega arith)

-- Minus 1000.
intmax_to_comma_string_lem_example :
    Gives (intmax_to_comma_string (2 ^ 64 - 1000) blank) blank (signed_with_commas (2 ^ 64 - 1000))
intmax_to_comma_string_lem_example = intmax_to_comma_string_lem (2 ^ 64 - 1000) blank (omega arith)

comma_string_lasts_example :
    (p : ℕ) × (s' s'' : Buffers) × (uintmax_to_comma_string 1234567 blank ≡ some ((0, p), s'))
    × (calls (1 ∷ 2 ∷ 3 ∷ 4 ∷ []) s' ≡ some s'')
    × Holds (s''.bufs 0) p (with_commas 6 1234567)
comma_string_lasts_example =
    comma_string_lasts 1234567 (1 ∷ 2 ∷ 3 ∷ 4 ∷ []) blank (omega arith)
      (omega arith, (omega arith, (omega arith, (omega arith, tt)))) (omega arith) (omega arith)
