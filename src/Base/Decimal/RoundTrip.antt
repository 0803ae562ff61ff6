-- ===== src/Base/Decimal/RoundTrip.antt =====
-- Reading back what `str_int` writes.
use Prim.Native.Nat.{ℕ, zero, suc, ◌+◌, ◌*◌, ◌/◌, ◌%◌, ◌<◌, ◌-◌}
use Prim.Native.Char.{code}
use Prim.Native.String.{String}
use mathlib.Core.Path.{◌≡◌, refl, ap, ◌∙◌}
use mathlib.Core.Bool.{Bool, true, false, ◌&&◌}
use mathlib.Core.Option.{Option, none, some}
use mathlib.Core.Option
use native.Mathlib.Omega.{arith}
use message_broker_patterns.Base.Tests.{ltb, leb, ◌==◌, Bool-cases, ltb→lt}
use mathlib.Core.Logic.{inl, inr}
use message_broker_patterns.Base.Int.{ℤ, pos, negsuc}
use message_broker_patterns.Base.Decimal.{
  digit_char, print_digits, str_int, is_digit, is_space, parse_digits, parse_signed, parse_int,
  negated,
}

code-digit_char : (d : ℕ) → d < 10 → code (digit_char d) ≡ 48 + d
unfolding digit_char
code-digit_char zero h = refl
code-digit_char (suc zero) h = refl
code-digit_char (suc (suc zero)) h = refl
code-digit_char (suc (suc (suc zero))) h = refl
code-digit_char (suc (suc (suc (suc zero)))) h = refl
code-digit_char (suc (suc (suc (suc (suc zero))))) h = refl
code-digit_char (suc (suc (suc (suc (suc (suc zero)))))) h = refl
code-digit_char (suc (suc (suc (suc (suc (suc (suc zero))))))) h = refl
code-digit_char (suc (suc (suc (suc (suc (suc (suc (suc zero)))))))) h = refl
code-digit_char (suc (suc (suc (suc (suc (suc (suc (suc (suc zero))))))))) h = refl
code-digit_char (suc (suc (suc (suc (suc (suc (suc (suc (suc (suc n)))))))))) h =
    absurd (omega arith)

is_digit-code-digit_char : (d : ℕ) → d < 10 → is_digit (code (digit_char d)) ≡ true
unfolding is_digit
is_digit-code-digit_char d h = rw (code-digit_char d h) (digit_range d h)
  where
    digit_range : (d : ℕ) → d < 10 → (leb 48 (48 + d) && leb (48 + d) 57) ≡ true
    digit_range d h = grind arith

code_sub : (d : ℕ) → d < 10 → code (digit_char d) - 48 ≡ d
code_sub d h = omega (arith, code-digit_char d h)

parse_digits-digit_char :
    (seen : Bool) (acc d : ℕ) (s : String)
    → d < 10
    → parse_digits seen acc (String.◌∷◌ (digit_char d) s) ≡ parse_digits true (acc * 10 + d) s
unfolding parse_digits
parse_digits-digit_char seen acc d s h = rw (is_digit-code-digit_char d h, code_sub d h)

parse_digits-print_digits :
    (fuel n : ℕ) (rest : String)
    → n < fuel
    → parse_digits false 0 (print_digits fuel n rest) ≡ parse_digits true n rest
unfolding print_digits
parse_digits-print_digits zero n rest h = absurd (omega arith)
parse_digits-print_digits (suc fuel) n rest h = elim (Bool-cases (ltb n 10)) [
  | inl small ↦ rw small (
      parse_digits-digit_char false 0 n rest (ltb→lt n 10 small)
      ∙ ap (λ k. parse_digits true k rest) (omega arith))
  | inr large ↦ rw large (
      parse_digits-print_digits fuel (n / 10) (String.◌∷◌ (digit_char (n % 10)) rest) (ground arith)
      ∙ (parse_digits-digit_char true (n / 10) (n % 10) rest (omega arith)
          ∙ ap (λ k. parse_digits true k rest) (omega arith)))
]

-- A text that starts with a digit has no white space to strip and no sign.
starts_digit : String → Bool
starts_digit String.[] = false
starts_digit (String.◌∷◌ c s) = is_digit (code c)

starts_digit-print_digits :
    (fuel n : ℕ) (rest : String) → n < fuel → starts_digit (print_digits fuel n rest) ≡ true
unfolding print_digits starts_digit
starts_digit-print_digits zero n rest h = absurd (omega arith)
starts_digit-print_digits (suc fuel) n rest h = elim (Bool-cases (ltb n 10)) [
  | inl small ↦ rw small (is_digit-code-digit_char n (ltb→lt n 10 small))
  | inr large ↦ rw large (
      starts_digit-print_digits fuel (n / 10) (String.◌∷◌ (digit_char (n % 10)) rest)
        (ground arith))
]

not_sign :
    (c : ℕ) → is_digit c ≡ true → (is_space c ≡ false) × ((c == 45) ≡ false) × ((c == 43) ≡ false)
unfolding is_digit is_space
not_sign c h = ground arith

parse_int-digits :
    (s : String) → starts_digit s ≡ true → parse_int s ≡ Option.map pos (parse_digits false 0 s)
unfolding parse_int parse_signed starts_digit
parse_int-digits String.[] h = cc
parse_int-digits (String.◌∷◌ c s) h =
    let (space, minus, plus) = not_sign (code c) h in rw (space, minus, plus)

parse_int-minus :
    (s : String) → parse_int (String.◌∷◌ "-" s) ≡ Option.map negated (parse_digits false 0 s)
unfolding parse_int parse_signed is_space
parse_int-minus s = refl

parse_digits_end : (n : ℕ) → parse_digits true n String.[] ≡ some n
unfolding parse_digits
parse_digits_end n = refl

-- `int(str(z))` is `z` for every integer.
pub parse_int-str_int : (z : ℤ) → parse_int (str_int z) ≡ some z
unfolding str_int
parse_int-str_int (pos n) = rw (
  parse_int-digits _ (starts_digit-print_digits (suc n) n String.[] (omega arith)),
  parse_digits-print_digits (suc n) n String.[] (omega arith),
  parse_digits_end n,
)
parse_int-str_int (negsuc n) =
    rw
      (
        parse_int-minus,
        parse_digits-print_digits (suc (suc n)) (suc n) String.[] (omega arith),
        parse_digits_end (suc n),
      )
      (unfold negated in refl)
