-- ===== src/Base/Decimal.antt =====
-- Python's `str` and `int` between integers and decimal texts, over ASCII: `int` strips white
-- space, takes a sign, and allows single underscores between digits. (Its digits of other scripts
-- and its limit of 4300 digits are left out.)
pub mod RoundTrip
use Prim.Native.Nat.{ℕ, zero, suc, ◌+◌, ◌-◌, ◌*◌, ◌/◌, ◌%◌, ◌<◌, ◌≤◌}
use Prim.Native.Char.{Char, code}
use Prim.Native.String.{String}
use mathlib.Core.Path.{◌≡◌, refl, ap}
use mathlib.Core.Bool.{Bool, true, false, ◌&&◌, ◌||◌}
use mathlib.Core.Option.{Option, none, some}
use mathlib.Core.Option
use native.Mathlib.Omega.{arith}
use message_broker_patterns.Base.Tests.{ltb, leb, ◌==◌, if◌then◌else◌}
use message_broker_patterns.Base.Int.{ℤ, pos, negsuc}

digit_char : ℕ → Char
digit_char zero = "0"
digit_char (suc zero) = "1"
digit_char (suc (suc zero)) = "2"
digit_char (suc (suc (suc zero))) = "3"
digit_char (suc (suc (suc (suc zero)))) = "4"
digit_char (suc (suc (suc (suc (suc zero))))) = "5"
digit_char (suc (suc (suc (suc (suc (suc zero)))))) = "6"
digit_char (suc (suc (suc (suc (suc (suc (suc zero))))))) = "7"
digit_char (suc (suc (suc (suc (suc (suc (suc (suc zero)))))))) = "8"
digit_char _ = "9"

-- The digits of `n` before `rest`. With fuel above `n` every digit is there.
print_digits : ℕ → ℕ → String → String
print_digits zero n rest = rest
print_digits (suc fuel) n rest =
    let more = print_digits fuel (n / 10) (String.◌∷◌ (digit_char (n % 10)) rest) in
    if ltb n 10 then String.◌∷◌ (digit_char n) rest else more

-- str(n)
unfoldable pub str_int : ℤ → String
unfolding print_digits digit_char
str_int (pos n) = print_digits (suc n) n String.[]
str_int (negsuc n) = String.◌∷◌ "-" (print_digits (suc (suc n)) (suc n) String.[])

is_space : ℕ → Bool
is_space c = c == 32 || (leb 9 c && leb c 13) || (leb 28 c && leb c 31)

is_digit : ℕ → Bool
is_digit c = leb 48 c && leb c 57

all_space : String → Bool
all_space String.[] = true
all_space (String.◌∷◌ c s) = is_space (code c) && all_space s

-- `seen`: the character before is a digit.
parse_digits : Bool → ℕ → String → Option ℕ
parse_digits seen acc String.[] = if seen then some acc else none
parse_digits seen acc (String.◌∷◌ c s) =
    let digit = parse_digits true (acc * 10 + (code c - 48)) s in
    let gap = parse_digits false acc s in
    if is_digit (code c)
    then digit
    else if seen && code c == 95
    then gap
    else if seen && is_space (code c) && all_space s
    then some acc
    else none

negated : ℕ → ℤ
negated zero = pos 0
negated (suc n) = negsuc n

parse_signed : String → Option ℤ
parse_signed String.[] = none
parse_signed (String.◌∷◌ c s) =
    if code c == 45
    then Option.map negated (parse_digits false 0 s)
    else if code c == 43
    then Option.map pos (parse_digits false 0 s)
    else Option.map pos (parse_digits false 0 (String.◌∷◌ c s))

-- int(text); `none` is a ValueError
unfoldable pub parse_int : String → Option ℤ
unfolding parse_signed parse_digits negated all_space is_space is_digit
parse_int String.[] = none
parse_int (String.◌∷◌ c s) =
    let rest = parse_int s in if is_space (code c) then rest else parse_signed (String.◌∷◌ c s)
