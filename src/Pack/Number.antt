-- ===== src/Pack/Number.antt =====
-- `Number(text)` of src/analyzer/packDetection.ts, as far as `isPackValue` tells its results apart:
-- `none` stands for NaN, an infinity, a negative number or a fraction. The value is exact, where the
-- program's is the nearest double.
use c_interface_discovery.Prelude.{
  ℕ, ◌+◌, ◌-◌, ◌*◌, ◌/◌, ◌%◌, ◌^◌, Text, [], ◌∷◌, ◌++◌, Option, none, some, Bool, true, false, not,
  ◌&&◌, ◌||◌, ◌==◌, ◌===◌, ltb, leb, codes, is_digit, lower, trim, length, drop, starts_with,
  if◌then◌else◌,
}
use c_interface_discovery.Prelude.Words.{decimal}

-- A maximal run of digits and what follows.
unfoldable pub span_digits : Text → Text × Text
span_digits [] = ([], [])
span_digits (c ∷ s) =
    let (run, rest) = span_digits s in if is_digit c then (c ∷ run, rest) else ([], c ∷ s)

-- The value of a hexadecimal digit, of a lower-case letter or a decimal digit.
unfoldable pub digit_value : ℕ → ℕ
digit_value c =
    if is_digit c then c - b'0' else if leb b'a' c && leb c b'z' then c - b'a' + 10 else 99

-- The digits of a literal with a prefix such as `0x`, in base `base`; `none` without digits.
unfoldable pub based_from : ℕ → ℕ → Text → Option ℕ
based_from base acc [] = some acc
based_from base acc (c ∷ s) =
    let d = digit_value (lower c) in
    let rest = based_from base (base * acc + d) s in if ltb d base then rest else none

unfoldable pub based : ℕ → Text → Option ℕ
based base [] = none
based base (c ∷ s) = based_from base 0 (c ∷ s)

-- The fraction and exponent of a decimal literal.
unfoldable pub fraction : Text → Text × Text
fraction [] = ([], [])
fraction (c ∷ s) = if c == b'.' then span_digits s else ([], c ∷ s)

-- mantissa * 10 ^ exponent, where it is an integer; the divisor is 10 ^ `down`
unfoldable pub scaled : ℕ → ℕ → ℕ → Option ℕ
scaled mantissa up down =
    let value = mantissa * 10 ^ up in
    if value % 10 ^ down == 0 then some (value / 10 ^ down) else none

unfoldable pub exponent_sign : Text → Bool × Text
exponent_sign [] = (false, [])
exponent_sign (c ∷ s) =
    if c == b'-' then (true, s) else if c == b'+' then (false, s) else (false, c ∷ s)

-- `e`, a sign and digits, or nothing; `places` digits stood behind the point.
unfoldable pub with_exponent : ℕ → ℕ → Text → Option ℕ
with_exponent mantissa places [] = scaled mantissa 0 places
with_exponent mantissa places (c ∷ s) =
    let (negative, digits) = exponent_sign s in
    let (run, rest) = span_digits digits in
    if lower c == b'e' && not (run === []) && rest === []
    then (if negative
        then scaled mantissa 0 (places + decimal run)
        else scaled mantissa (decimal run) places)
    else none

-- An unsigned decimal literal: digits, a point, an exponent.
unfoldable pub unsigned : Text → Option ℕ
unsigned s =
    let (whole, rest) = span_digits s in
    let (part, tail) = fraction rest in
    if whole ++ part === []
    then none
    else with_exponent (decimal (whole ++ part)) (length part) tail

unfoldable pub signed : Text → Option ℕ
signed [] = some 0
signed (c ∷ s) =
    if c == b'+'
    then unsigned s
    else if c == b'-'
    then (elim (unsigned s) [ none ↦ none | some n ↦ if n == 0 then some 0 else none ])
    else unsigned (c ∷ s)

unfoldable pub number : Text → Option ℕ
number text =
    let s = trim text in
    if starts_with s (codes "0x") || starts_with s (codes "0X")
    then based 16 (drop 2 s)
    else if starts_with s (codes "0o") || starts_with s (codes "0O")
    then based 8 (drop 2 s)
    else if starts_with s (codes "0b") || starts_with s (codes "0B")
    then based 2 (drop 2 s)
    else signed s
