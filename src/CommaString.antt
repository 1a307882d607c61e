-- ===== src/CommaString.antt =====
-- runtime/util/to-string.c: intmaxToCommaString and uintmaxToCommaString, which write a number with a
-- comma after each three digits into one of five static buffers of 81 bytes, in turn. `intmax_t` is
-- the 64-bit word of its two's complement. The loop over the digits takes fuel.
pub mod Digits
pub mod Loop
pub mod Groups
pub mod Written
pub mod Turns
mod Tests
use multi_mlton.Prelude.{
  ℕ, zero, suc, ◌+◌, ◌-◌, ◌*◌, ◌/◌, ◌%◌, ◌^◌, Bool, ◌&&◌, ◌==◌, ltb, leb, if◌then◌else◌, Option,
  none, some, List, [], ◌∷◌,
}

abbrev pub Buffer : Type 0
Buffer = ℕ → ℕ

abbrev pub buf_size : ℕ
buf_size = 81

-- The characters `0', `,' and `-'.
abbrev pub digit_zero : ℕ
digit_zero = 48

abbrev pub comma : ℕ
comma = 44

abbrev pub minus : ℕ
minus = 45

-- The static variables of one of the functions.
pub record Buffers : Type 0 where
  pub bufs : ℕ → Buffer
  pub buf_index : ℕ

unfoldable pub put_char : Buffer → ℕ → ℕ → Buffer
put_char buf i c j = if j == i then c else buf j

-- `while (n > 0)`: the index of the next byte to write, and the buffer.
unfoldable pub put_digits : ℕ → ℕ → ℕ → Buffer → Option (ℕ × Buffer)
unfolding put_char
put_digits zero n i buf = none
put_digits (suc fuel) n i buf =
    let buf₁ = put_char buf i (n % 10 + digit_zero) in
    let i₁ = i - 1 in
    let n₁ = n / 10 in
    let separates = i₁ % 4 == 0 && ltb 0 n₁ in
    let rest =
      put_digits fuel n₁ (if separates then i₁ - 1 else i₁)
        (if separates then put_char buf₁ i₁ comma else buf₁) in
    if ltb 0 n then rest else some (i, buf)

-- `strncpy' of a literal to p, with the zero behind it.
unfoldable pub put_string : List ℕ → ℕ → Buffer → Buffer
unfolding put_char
put_string [] p buf = put_char buf p 0
put_string (c ∷ cs) p buf = put_char (put_string cs (suc p) buf) p c

-- "-9,223,372,036,854,775,808"
abbrev pub intmax_min_string : List ℕ
intmax_min_string =
    45 ∷ 57 ∷ 44 ∷ 50 ∷ 50 ∷ 51 ∷ 44 ∷ 51 ∷ 55 ∷ 50 ∷ 44 ∷ 48 ∷ 51 ∷ 54 ∷ 44 ∷ 56 ∷ 53 ∷ 52 ∷ 44
    ∷ 55 ∷ 55 ∷ 53 ∷ 44 ∷ 56 ∷ 48 ∷ 56 ∷ []

abbrev pub digits_fuel : ℕ
digits_fuel = 22

-- The first byte of the string in the buffer, and the buffer.
unfoldable pub write_uintmax : ℕ → Buffer → Option (ℕ × Buffer)
unfolding put_char put_digits
write_uintmax n buf =
    let buf' = put_char buf (buf_size - 1) 0 in
    let i = buf_size - 2 in
    if 0 == n
    then some (i - 1 + 1, put_char buf' i digit_zero)
    else elim (put_digits digits_fuel n i buf') [
      | none ↦ none
      | some (i', buf'') ↦ some (i' + 1, buf'')
    ]

unfoldable pub write_intmax : ℕ → Buffer → Option (ℕ × Buffer)
unfolding put_char put_digits put_string
write_intmax n buf =
    let buf' = put_char buf (buf_size - 1) 0 in
    let i = buf_size - 2 in
    let m = if ltb n (2 ^ 63) then n else 2 ^ 64 - n in
    if 0 == n
    then some (i - 1 + 1, put_char buf' i digit_zero)
    else (if 2 ^ 63 == n
        then some (0 + 1, put_string intmax_min_string 1 buf')
        else elim (put_digits digits_fuel m i buf') [
          | none ↦ none
          | some (i', buf'') ↦
              if leb (2 ^ 63) n
              then some (i' - 1 + 1, put_char buf'' i' minus)
              else some (i' + 1, buf'')
        ])

-- The functions: the number of the buffer and the first byte in it.
unfoldable pub in_next_buffer :
    (Buffer → Option (ℕ × Buffer)) → Buffers → Option ((ℕ × ℕ) × Buffers)
in_next_buffer write s = elim (write (s.bufs s.buf_index)) [
  | none ↦ none
  | some (p, buf) ↦ some (
    (s.buf_index, p),
    record {
      bufs = λ k. if k == s.buf_index then buf else s.bufs k;
      buf_index = (s.buf_index + 1) % 5;
    },
  )
]

unfoldable pub uintmax_to_comma_string : ℕ → Buffers → Option ((ℕ × ℕ) × Buffers)
unfolding in_next_buffer write_uintmax
uintmax_to_comma_string n s = in_next_buffer (write_uintmax n) s

unfoldable pub intmax_to_comma_string : ℕ → Buffers → Option ((ℕ × ℕ) × Buffers)
unfolding in_next_buffer write_intmax
intmax_to_comma_string n s = in_next_buffer (write_intmax n) s
