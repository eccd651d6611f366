-- ===== src/Info/Tests.antt =====
-- The info strings of src/qshared.c on examples.
use co_d4x_client_pub.Common.{
  ℕ, zero, suc, ◌+◌, ◌≤◌, ◌<◌, ◌≡◌, refl, some, List, [], ◌∷◌, length, All, arith, replicate,
  length-replicate, false, true, ◌≢◌,
}
use co_d4x_client_pub.Info.{
  backslash, is_illegal, has_char, set_value_for_key, value_for_key, validate, remove_key,
  max_info_string,
}
use co_d4x_client_pub.Info.Lookup.{Pairs, print, find, IsPlain, IsPair}
use co_d4x_client_pub.Info.Calls.{run, run_pairs, run-run_pairs, set_value_for_key_overflow}
use co_d4x_client_pub.Info.Fast.{value_for_key-run}
use co_d4x_client_pub.Info.Fast

abbrev rate : List ℕ
rate = b'r' ∷ b'a' ∷ []

abbrev number : List ℕ
number = b'2' ∷ b'5' ∷ []

abbrev name : List ℕ
name = b'n' ∷ []

abbrev two_pairs : Pairs
two_pairs = (rate, number) ∷ (name, b'x' ∷ []) ∷ []

rate-IsPlain : IsPlain rate
rate-IsPlain = (λ e. absurd (omega (arith, e)), (λ e. absurd (omega (arith, e)), tt))

number-IsPlain : IsPlain number
number-IsPlain = (λ e. absurd (omega (arith, e)), (λ e. absurd (omega (arith, e)), tt))

two_pairs-IsPair : All IsPair two_pairs
two_pairs-IsPair = (
  (rate-IsPlain, number-IsPlain),
  (((λ e. absurd (omega (arith, e)), tt), (λ e. absurd (omega (arith, e)), tt)), tt),
)

run-run_pairs_example :
    (value_for_key (some (run (print two_pairs) ((name, number) ∷ []))) (some name)
      ≡ find (run_pairs two_pairs ((name, number) ∷ [])) name)
    × (length (run (print two_pairs) ((name, number) ∷ [])) ≤ max_info_string)
run-run_pairs_example =
    run-run_pairs two_pairs ((name, number) ∷ []) name two_pairs-IsPair (omega arith)
      (omega arith, tt)

-- A value that fills the string to its limit, under a key of one character.
abbrev long_key : List ℕ
long_key = b'k' ∷ []

abbrev long_value : List ℕ
long_value = replicate 1011 b'x'

has_char-replicate : (n c d : ℕ) → c ≢ d → has_char c (replicate n d) ≡ false
has_char-replicate zero c d h = refl
has_char-replicate (suc n) c d h = ground (arith, h, has_char-replicate n c d h)

is_illegal-replicate :
    (n d : ℕ) → backslash ≢ d → b';' ≢ d → b'"' ≢ d → is_illegal (replicate n d) ≡ false
is_illegal-replicate n d h i j = rw (
  has_char-replicate n backslash d h,
  has_char-replicate n b';' d i,
  has_char-replicate n b'"' d j,
)

set_value_for_key_overflow_example :
    max_info_string < length (set_value_for_key (print two_pairs) long_key long_value) + 1
set_value_for_key_overflow_example =
    set_value_for_key_overflow two_pairs long_key long_value two_pairs-IsPair (omega arith) refl
      (is_illegal-replicate 1011 b'x' (λ e. absurd (omega (arith, e)))
        (λ e. absurd (omega (arith, e))) (λ e. absurd (omega (arith, e))))
      (omega (arith, length-replicate {A = ℕ} 1011 b'x'))
      (omega (arith, length-replicate {A = ℕ} 1011 b'x'))
      (omega (arith, length-replicate {A = ℕ} 1011 b'x'))

valid : validate (print two_pairs) ≡ true
unfolding validate
valid = refl

removed : remove_key (print two_pairs) rate ≡ print ((name, b'x' ∷ []) ∷ [])
unfolding remove_key
removed = refl

value_for_key-run_example :
    (value_for_key
        (some (Fast.run (record { curpos = 9; string = [] }) two_pairs).string)
        (some name)
      ≡ find (Fast.added [] two_pairs) name)
    × (length (Fast.run (record { curpos = 9; string = [] }) two_pairs).string < max_info_string)
value_for_key-run_example = value_for_key-run 9 two_pairs name two_pairs-IsPair
