-- ===== src/CommaString/Turns.antt =====
-- The strings of the two functions, and how long they last.
use multi_mlton.Prelude.{
  ℕ, ◌+◌, ◌-◌, ◌%◌, ◌^◌, ◌≤◌, ◌<◌, ◌≡◌, ◌≢◌, refl, ◌∙◌, true, false, ◌==◌, if◌then◌else◌, Option,
  some, List, [], ◌∷◌, length, ◌>>=◌, arith,
}
use multi_mlton.CommaString.{
  Buffer, Buffers, write_uintmax, write_intmax, in_next_buffer, uintmax_to_comma_string,
  intmax_to_comma_string,
}
use multi_mlton.CommaString.Digits.{with_commas, value, value-with_commas, Holds}
use multi_mlton.CommaString.Written.{
  Writes, signed_with_commas, write_uintmax_lem, write_intmax_lem,
}

-- A call gives a string in the buffer whose turn it is, and changes no other buffer.
pub record Gives (r : Option ((ℕ × ℕ) × Buffers)) (s : Buffers) (cs : List ℕ) : Type 0 where
  pub place : ℕ
  pub after : Buffers
  pub answers : r ≡ some ((s.buf_index, place), after)
  pub string : Holds (after.bufs s.buf_index) place cs
  pub in_buffer : (0 < place) × (place < 81)
  pub others : (k : ℕ) → k ≢ s.buf_index → after.bufs k ≡ s.bufs k
  pub turn : after.buf_index ≡ (s.buf_index + 1) % 5

in_next_buffer_lem :
    (write : Buffer → Option (ℕ × Buffer)) (s : Buffers) (cs : List ℕ)
    → Writes (write (s.bufs s.buf_index)) cs
    → Gives (in_next_buffer write s) s cs
unfolding in_next_buffer
in_next_buffer_lem write s cs (p, buf, e, holds, low, lt) =
    let here : (s.buf_index == s.buf_index) ≡ true = ground arith in
    record {
      place = p;
      after = record {
        bufs = λ k. if k == s.buf_index then buf else s.bufs k;
        buf_index = (s.buf_index + 1) % 5;
      };
      answers = rw (in_next_buffer, e) refl;
      string = rw here holds;
      in_buffer = (low, lt);
      others = λ k ne. (let other : (k == s.buf_index) ≡ false = ground arith in rw other refl);
      turn = refl;
    }

-- For a number below 2^64, uintmaxToCommaString answers with a place inside the buffer whose turn
-- it is, which holds, with a zero behind it, the number written in groups of three digits with
-- commas between them; that string, its commas left out, denotes the number; the other buffers are
-- left alone, and the next one is up.
pub uintmax_to_comma_string_lem :
    (n : ℕ) (s : Buffers)
    → n < 2 ^ 64
    → Gives (uintmax_to_comma_string n s) s (with_commas 6 n) × (value 0 (with_commas 6 n) ≡ n)
unfolding uintmax_to_comma_string
uintmax_to_comma_string_lem n s lt = (
  in_next_buffer_lem (write_uintmax n) s (with_commas 6 n)
      (write_uintmax_lem n (s.bufs s.buf_index) lt),
  value-with_commas 6 n (omega arith),
)

-- For every 64-bit word, the least number included, intmaxToCommaString answers with a place inside
-- the buffer whose turn it is, which holds the signed number in groups of three digits with commas
-- between them, with a minus sign in front if it is negative.
pub intmax_to_comma_string_lem :
    (n : ℕ) (s : Buffers) → n < 2 ^ 64 → Gives (intmax_to_comma_string n s) s (signed_with_commas n)
unfolding intmax_to_comma_string
intmax_to_comma_string_lem n s lt =
    in_next_buffer_lem (write_intmax n) s (signed_with_commas n)
      (write_intmax_lem n (s.bufs s.buf_index) lt)

-- One call for each number, in order.
abbrev pub calls : List ℕ → Buffers → Option Buffers
calls [] s = some s
calls (n ∷ ns) s = uintmax_to_comma_string n s >>= λ (r : (ℕ × ℕ) × Buffers). calls ns r.1

abbrev pub Words : List ℕ → Type 0
Words [] = Unit
Words (n ∷ ns) = (n < 2 ^ 64) × Words ns

-- The buffer whose turn comes after d more calls.
calls_keep :
    (ns : List ℕ) (s : Buffers) (k d : ℕ)
    → Words ns
    → s.buf_index < 5
    → d < 5
    → length ns ≤ d
    → (s.buf_index + d) % 5 ≡ k
    → (s' : Buffers) × (calls ns s ≡ some s') × (s'.bufs k ≡ s.bufs k)
calls_keep [] s k d small idx lt few turn = (s, refl, refl)
calls_keep (n ∷ ns) s k d small idx lt few turn =
    let g = (uintmax_to_comma_string_lem n s small.0).0 in
    let (s', done, same) =
      calls_keep ns g.after k (d - 1) small.1 (omega (arith, g.turn)) (omega arith) (omega arith)
        (omega (arith, g.turn)) in
    (s', rw (g.answers) done, same ∙ g.others k (λ e. absurd (omega arith)))

-- For numbers below 2^64, the string that uintmaxToCommaString has written is still in its buffer,
-- unchanged, after at most four further calls.
pub comma_string_lasts :
    (n : ℕ) (ns : List ℕ) (s : Buffers)
    → n < 2 ^ 64
    → Words ns
    → length ns ≤ 4
    → s.buf_index < 5
    → (p : ℕ) × (s' s'' : Buffers) × (uintmax_to_comma_string n s ≡ some ((s.buf_index, p), s'))
      × (calls ns s' ≡ some s'')
      × Holds (s''.bufs s.buf_index) p (with_commas 6 n)
comma_string_lasts n ns s lt small few idx =
    let g = (uintmax_to_comma_string_lem n s lt).0 in
    let (s'', done, same) =
      calls_keep ns g.after s.buf_index 4 small (omega (arith, g.turn)) (omega arith) few
        (omega (arith, g.turn)) in
    (g.place, g.after, s'', g.answers, done, rw same g.string)
