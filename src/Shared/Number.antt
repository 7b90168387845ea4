-- ===== src/Shared/Number.antt =====
-- Decimal texts: `to_string` and `parse` of unsigned numbers.
use Prim.Native.Nat.{ℕ, zero, suc, ◌+◌, ◌-◌, ◌*◌, ◌/◌, ◌%◌, ◌<◌}
use mathlib.Core.Path.{◌≡◌, refl, ◌∙◌}
use mathlib.Core.Bool.{Bool, true, ◌&&◌}
use mathlib.Core.Option.{Option, none, some}
use mathlib.Core.List.{[], ◌∷◌}
use native.Mathlib.Omega.{arith}
use hamsy_proxy.Shared.Tests.{ltb, leb, ◌==◌, if◌then◌else◌, Bool-cases}
use mathlib.Core.Logic.{inl, inr}
use hamsy_proxy.Shared.Lists.{length}
use hamsy_proxy.Shared.Text.{Text}

abbrev pub is_digit : ℕ → Bool
is_digit c = leb b'0' c && leb c b'9'

-- The decimal digits of `n` in front of `rest`.
unfoldable pub decimal_from : ℕ → ℕ → Text → Text
decimal_from zero n rest = rest
decimal_from (suc fuel) n rest =
    let more = decimal_from fuel (n / 10) ((b'0' + n % 10) ∷ rest) in
    if ltb n 10 then (b'0' + n) ∷ rest else more

-- `to_string` of an unsigned number; a number has at most as many digits as its size plus one.
unfoldable pub to_decimal : ℕ → Text
unfolding decimal_from
to_decimal n = decimal_from (suc n) n []

-- Reads digits onto an accumulator.
unfoldable pub read_digits : ℕ → Text → Option ℕ
read_digits acc [] = some acc
read_digits acc (c ∷ s) =
    let rest = read_digits (acc * 10 + (c - b'0')) s in if is_digit c then rest else none

unfoldable pub checked : ℕ → Option ℕ → Option ℕ
checked limit none = none
checked limit (some n) = if ltb n limit then some n else none

-- `parse` into an unsigned word below `limit`: digits, after at most one plus sign.
unfoldable pub parse_uint : ℕ → Text → Option ℕ
unfolding read_digits checked
parse_uint limit [] = none
parse_uint limit (c ∷ s) =
    if c == b'+'
    then if length s == 0 then none else checked limit (read_digits 0 s)
    else checked limit (read_digits 0 (c ∷ s))

read_digits-decimal_from :
    (fuel n : ℕ) (rest : Text)
    → n < fuel
    → read_digits 0 (decimal_from fuel n rest) ≡ read_digits n rest
unfolding read_digits decimal_from
read_digits-decimal_from zero n rest h = absurd (omega arith)
read_digits-decimal_from (suc fuel) n rest h = elim (Bool-cases (ltb n 10)) [
  | inl short ↦ rw (short, decimal_from) (ground arith)
  | inr long ↦
      rw (long, decimal_from)
        (read_digits-decimal_from fuel (n / 10) ((b'0' + n % 10) ∷ rest) (ground arith)
          ∙ last_digit)
]
  where
    last_digit : read_digits (n / 10) ((b'0' + n % 10) ∷ rest) ≡ read_digits n rest
    last_digit = rw (digit, value) refl
      where
        digit : is_digit (b'0' + n % 10) ≡ true
        digit = ground arith

        value : n / 10 * 10 + (b'0' + n % 10 - b'0') ≡ n
        value = omega arith

length-decimal_from-lt :
    (fuel n : ℕ) (rest : Text) → length rest < length (decimal_from (suc fuel) n rest)
unfolding decimal_from
length-decimal_from-lt zero n rest = ground arith
length-decimal_from-lt (suc fuel) n rest =
    ground (arith, length-decimal_from-lt fuel (n / 10) ((b'0' + n % 10) ∷ rest))

-- The decimal form of a number reads back as the number.
pub read_digits-to_decimal : (n : ℕ) → read_digits 0 (to_decimal n) ≡ some n
unfolding to_decimal read_digits
read_digits-to_decimal n = read_digits-decimal_from (suc n) n [] (omega arith)

parse_uint_of_digits :
    (limit n : ℕ) (s : Text)
    → 0 < length s
    → read_digits 0 s ≡ some n
    → n < limit
    → parse_uint limit s ≡ some n
unfolding parse_uint read_digits
parse_uint_of_digits limit n [] h e lt = absurd (omega arith)
parse_uint_of_digits limit n (c ∷ s) h e lt = ground arith

-- `parse` after `to_string`, for a number that fits.
pub parse_uint-to_decimal : (limit n : ℕ) → n < limit → parse_uint limit (to_decimal n) ≡ some n
unfolding to_decimal
parse_uint-to_decimal limit n h =
    parse_uint_of_digits limit n (to_decimal n) (omega (arith, length-decimal_from-lt n n []))
      (read_digits-to_decimal n) h
