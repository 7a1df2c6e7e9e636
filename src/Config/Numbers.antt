-- ===== src/Config/Numbers.antt =====
-- The numbers of internal/config/config.go: what is printed in decimal is read back.
use sleigh.Prelude.{
  ℕ, zero, suc, ◌+◌, ◌*◌, ◌-◌, ◌/◌, ◌%◌, ◌≤◌, ◌<◌, Text, [], ◌∷◌, Bool, true, false, ◌&&◌, some,
  ltb, leb, eqb, ◌==◌, ◌≡◌, refl, ap, ◌∙◌, arith, Bool-cases, inl, inr,
}
use sleigh.Prelude.Int.{ℤ, pos, negsuc}
use sleigh.Prelude.Decimal.{
  digits_from, decimal, decimal_ℤ, digits_value, bounded, negated, unsigned, parse_int64,
}
use sleigh.Config.{get_env_int64}

abbrev the : (A : Type 0) → A → A
the A a = a

digits_value-digit :
    (n m d : ℕ) (acc : Text)
    → d < 10
    → n ≡ m * 10 + d
    → digits_value m ((48 + d) ∷ acc) ≡ digits_value n acc
unfolding digits_value
digits_value-digit n m d acc h e =
    let is_digit = the ((leb 48 (48 + d) && leb (48 + d) 57) ≡ true) (ground (arith, h)) in
    rw is_digit
      (ap (λ k. digits_value k acc) (the (m * 10 + ((48 + d) - 48) ≡ n) (omega (arith, e))))

-- Reading digits goes on from what was read: the digits of `n` before `acc`.
digits_value-digits_from :
    (fuel n : ℕ) (acc : Text)
    → n < fuel
    → digits_value 0 (digits_from fuel n acc) ≡ digits_value n acc
unfolding digits_from
digits_value-digits_from zero n acc h = absurd (omega (arith, h))
digits_value-digits_from (suc fuel) n acc h = elim (Bool-cases (ltb n 10)) [
  | inl e ↦ rw e (digits_value-digit n 0 n acc (ground (arith, e)) (omega arith))
  | inr e ↦ rw e (
      digits_value-digits_from fuel (n / 10) ((48 + n % 10) ∷ acc) (ground (arith, e, h))
      ∙ digits_value-digit n (n / 10) (n % 10) acc (omega arith) (omega arith))
]

abbrev starts_with_digit : Text → Bool
starts_with_digit [] = false
starts_with_digit (c ∷ s) = leb 48 c

digits_from-starts :
    (fuel n : ℕ) (acc : Text)
    → starts_with_digit acc ≡ true
    → starts_with_digit (digits_from fuel n acc) ≡ true
unfolding digits_from
digits_from-starts zero n acc h = h
digits_from-starts (suc fuel) n acc h = elim (Bool-cases (ltb n 10)) [
  | inl e ↦ rw e (ground arith)
  | inr e ↦ rw e (digits_from-starts fuel (n / 10) ((48 + n % 10) ∷ acc) (ground arith))
]

decimal-starts : (n : ℕ) → starts_with_digit (decimal n) ≡ true
unfolding decimal digits_from
decimal-starts n = elim (Bool-cases (ltb n 10)) [
  | inl e ↦ rw e (ground arith)
  | inr e ↦ rw e (digits_from-starts n (n / 10) ((48 + n % 10) ∷ []) (ground arith))
]

digits_value-decimal : (n : ℕ) → digits_value 0 (decimal n) ≡ some n
unfolding decimal digits_value
digits_value-decimal n = digits_value-digits_from (suc n) n [] (omega arith)

unsigned-digits :
    (greatest : ℕ) (sign : ℕ → ℤ) (s : Text)
    → starts_with_digit s ≡ true
    → unsigned greatest sign s ≡ bounded greatest sign (digits_value 0 s)
unsigned-digits greatest sign [] h = cc
unsigned-digits greatest sign (c ∷ s) h = refl

parse_int64-digits :
    (s : Text)
    → starts_with_digit s ≡ true
    → parse_int64 s ≡ bounded 9223372036854775807 pos (digits_value 0 s)
unfolding parse_int64
parse_int64-digits [] h = cc
parse_int64-digits (c ∷ s) h =
    let no_plus = the (eqb c b'+' ≡ false) (ground (arith, h)) in
    let no_minus = the (eqb c b'-' ≡ false) (ground (arith, h)) in rw (no_plus, no_minus) refl

parse_int64-minus : (s : Text) → parse_int64 (b'-' ∷ s) ≡ unsigned 9223372036854775808 negated s
unfolding parse_int64
parse_int64-minus s = refl

abbrev pub IsInt64 : ℤ → Type 0
IsInt64 (pos n) = n ≤ 9223372036854775807
IsInt64 (negsuc n) = n ≤ 9223372036854775807

parse_int64-decimal_ℤ : (z : ℤ) → IsInt64 z → parse_int64 (decimal_ℤ z) ≡ some z
unfolding decimal_ℤ
parse_int64-decimal_ℤ (pos n) h =
    let fits = the (leb n 9223372036854775807 ≡ true) (ground (arith, h)) in
    parse_int64-digits (decimal n) (decimal-starts n)
    ∙ ap (bounded 9223372036854775807 pos) (digits_value-decimal n)
    ∙ rw fits refl
parse_int64-decimal_ℤ (negsuc n) h =
    let fits = the (leb (suc n) 9223372036854775808 ≡ true) (ground (arith, h)) in
    parse_int64-minus (decimal (suc n))
    ∙ unsigned-digits 9223372036854775808 negated (decimal (suc n)) (decimal-starts (suc n))
    ∙ ap (bounded 9223372036854775808 negated) (digits_value-decimal (suc n))
    ∙ rw fits refl

parsed-not_empty : (s : Text) (z : ℤ) → parse_int64 s ≡ some z → (s == []) ≡ false
unfolding parse_int64 ◌==◌
parsed-not_empty [] z h = cc
parsed-not_empty (c ∷ s) z h = refl

-- A variable that is set to an int64 number in decimal, as fmt prints it, is read by getEnvInt64 as
-- that number, whatever the fallback.
pub get_env_int64-decimal_ℤ :
    (env : Text → Text) (key : Text) (z fallback : ℤ)
    → IsInt64 z
    → env key ≡ decimal_ℤ z
    → get_env_int64 env key fallback ≡ z
unfolding get_env_int64
get_env_int64-decimal_ℤ env key z fallback h e =
    let parsed =
      the (parse_int64 (env key) ≡ some z) (ap parse_int64 e ∙ parse_int64-decimal_ℤ z h) in
    rw (parsed-not_empty (env key) z parsed, parsed) refl
