-- ===== src/Prelude/Decimal.antt =====
-- Decimal digits, as fmt's %d prints them.
use sleigh.Prelude.{
  ℕ, zero, suc, ◌+◌, ◌*◌, ◌-◌, ◌/◌, ◌%◌, Text, [], ◌∷◌, ◌&&◌, Option, none, some, ltb, leb, eqb,
  if◌then◌else◌,
}
use sleigh.Prelude.Int.{ℤ, pos, negsuc}

-- One round for each digit; a round of fuel for each unit of the number is enough.
unfoldable pub digits_from : ℕ → ℕ → Text → Text
digits_from zero n acc = acc
digits_from (suc fuel) n acc =
    let rest = digits_from fuel (n / 10) ((48 + n % 10) ∷ acc) in
    if ltb n 10 then (48 + n) ∷ acc else rest

unfoldable pub decimal : ℕ → Text
unfolding digits_from
decimal n = digits_from (suc n) n []

unfoldable pub decimal_ℤ : ℤ → Text
unfolding decimal
decimal_ℤ (pos n) = decimal n
decimal_ℤ (negsuc n) = b'-' ∷ decimal (suc n)

-- The value of a text of digits, after a prefix of the value `n`.
unfoldable pub digits_value : ℕ → Text → Option ℕ
digits_value n [] = some n
digits_value n (c ∷ s) =
    let rest = digits_value (n * 10 + (c - 48)) s in if leb 48 c && leb c 57 then rest else none

abbrev pub bounded : ℕ → (ℕ → ℤ) → Option ℕ → Option ℤ
bounded greatest sign none = none
bounded greatest sign (some n) = if leb n greatest then some (sign n) else none

abbrev pub negated : ℕ → ℤ
negated zero = pos 0
negated (suc n) = negsuc n

-- A number without its sign has a digit.
abbrev pub unsigned : ℕ → (ℕ → ℤ) → Text → Option ℤ
unsigned greatest sign [] = none
unsigned greatest sign (c ∷ s) = bounded greatest sign (digits_value 0 (c ∷ s))

-- strconv.ParseInt(s, 10, 64), and strconv.Atoi: `none` for an error.
unfoldable pub parse_int64 : Text → Option ℤ
unfolding digits_value
parse_int64 [] = none
parse_int64 (c ∷ s) =
    if eqb c b'+'
    then unsigned 9223372036854775807 pos s
    else if eqb c b'-'
    then unsigned 9223372036854775808 negated s
    else unsigned 9223372036854775807 pos (c ∷ s)
