-- ===== src/Decimal.antt =====
-- Decimal numbers as fmt's %d prints them and strconv.ParseUint reads them.
pub mod RoundTrip
use mathlib.Core.List.{foldl}
use spacechat.Prelude.{
  ℕ, zero, suc, ◌+◌, ◌-◌, ◌*◌, ◌/◌, ◌%◌, ◌^◌, Bool, ◌&&◌, List, [], ◌∷◌, ◌++◌, Option, none, some,
  Text, ltb, leb, if◌then◌else◌, all,
}

abbrev pub max_u64 : ℕ
max_u64 = 2 ^ 64 - 1

abbrev pub is_digit : ℕ → Bool
is_digit c = leb b'0' c && leb c b'9'

-- The last digit of each round goes behind the digits of the quotient.
unfoldable pub print_fuel : ℕ → ℕ → Text
print_fuel zero n = []
print_fuel (suc f) n =
    let rest = print_fuel f (n / 10) in
    if ltb n 10 then (b'0' + n) ∷ [] else rest ++ (b'0' + n % 10) ∷ []

-- A number has no more digits than `suc n`.
unfoldable pub print : ℕ → Text
unfolding print_fuel
print n = print_fuel (suc n) n

-- The number that digits spell behind `n`.
abbrev pub value : ℕ → Text → ℕ
value n [] = n
value n (c ∷ s) = value (n * 10 + (c - b'0')) s

-- `strconv.ParseUint(s, 10, 64)`: a syntax error or a range error is `none`.
unfoldable pub parse_uint : Text → Option ℕ
parse_uint [] = none
parse_uint (c ∷ s) =
    if all is_digit (c ∷ s)
    then if ltb max_u64 (value 0 (c ∷ s)) then none else some (value 0 (c ∷ s))
    else none

-- `(0|[1-9][0-9]*)` of a regular expression, as a test of the whole text.
unfoldable pub is_component : Text → Bool
is_component [] = Bool.false
is_component (c ∷ []) = is_digit c
is_component (c ∷ d ∷ s) = leb b'1' c && leb c b'9' && all is_digit (d ∷ s)
