-- ===== src/Golib/Numbers.antt =====
-- strconv.Atoi on a 64-bit platform, and the wrap-around of a product of two int64 values.
use spectre_relay.Prelude.{
  ℕ, ◌+◌, ◌-◌, ◌*◌, ◌%◌, ◌^◌, Bool, ◌&&◌, Option, none, some, [], ◌∷◌, if◌then◌else◌, ◌==◌, leb,
  ltb, Text,
}
use spectre_relay.Prelude.Int.{ℤ, pos, negsuc}

abbrev is_digit : ℕ → Bool
is_digit c = leb b'0' c && leb c b'9'

-- The decimal number that the digits stand for, after the digits already read.
digits_from : ℕ → Text → Option ℕ
digits_from acc [] = some acc
digits_from acc (c ∷ s) =
    let rest = digits_from (10 * acc + (c - b'0')) s in if is_digit c then rest else none

-- At least one digit.
unsigned : Text → Option ℕ
unfolding digits_from
unsigned [] = none
unsigned (c ∷ s) = digits_from 0 (c ∷ s)

-- The int64 with the magnitude, if there is one.
positive : Option ℕ → Option ℤ
positive none = none
positive (some n) = if ltb n (2 ^ 63) then some (pos n) else none

negative : Option ℕ → Option ℤ
negative none = none
negative (some n) =
    if n == 0 then some (pos 0) else if leb n (2 ^ 63) then some (negsuc (n - 1)) else none

-- An optional sign, then digits; `none` is an error, of syntax or of range.
unfoldable pub atoi : Text → Option ℤ
unfolding unsigned positive negative
atoi [] = none
atoi (c ∷ s) =
    if c == b'-'
    then negative (unsigned s)
    else if c == b'+'
    then positive (unsigned s)
    else positive (unsigned (c ∷ s))

-- The int64 with the bit pattern `n % 2 ^ 64`.
unfoldable pub to_int64 : ℕ → ℤ
to_int64 n = let w = n % 2 ^ 64 in if ltb w (2 ^ 63) then pos w else negsuc (2 ^ 64 - w - 1)
