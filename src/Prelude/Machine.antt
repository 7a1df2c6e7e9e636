-- ===== src/Prelude/Machine.antt =====
-- Go's int64 and float64 arithmetic, as far as the program uses it.
use sleigh.Prelude.{ℕ, zero, suc, ◌+◌, ◌-◌, ◌*◌, ◌/◌, ◌%◌, ◌<◌, ◌≡◌, arith, ltb, eqb, if◌then◌else◌}
use sleigh.Prelude.Int.{ℤ, pos, negsuc, ◌+ℤ◌, ltb_ℤ}

abbrev pub max_int64 : ℤ
max_int64 = pos 9223372036854775807

abbrev pub min_int64 : ℤ
min_int64 = negsuc 9223372036854775807

-- a + b on int64, which wraps around.
unfoldable pub add_int64 : ℤ → ℤ → ℤ
unfolding ◌+ℤ◌
add_int64 a b =
    let s = a +ℤ b in
    if ltb_ℤ max_int64 s
    then s +ℤ negsuc 18446744073709551615
    else if ltb_ℤ s min_int64
    then s +ℤ pos 18446744073709551616
    else s

-- The spacing of the float64 numbers at `n`: the least power of two `u` with n < 2 ^ 53 * u.
unfoldable pub float64_unit : ℕ → ℕ → ℕ → ℕ
float64_unit zero u n = u
float64_unit (suc fuel) u n =
    let rest = float64_unit fuel (2 * u) n in if ltb n (9007199254740992 * u) then u else rest

-- The nearest multiple of `u`, ties to the even one.
unfoldable pub round_even : ℕ → ℕ → ℕ
round_even u n =
    let q = n / u in
    let r = n % u in
    if ltb (2 * r) u
    then q * u
    else if ltb u (2 * r)
    then (q + 1) * u
    else if eqb (q % 2) 0
    then q * u
    else (q + 1) * u

-- float64(n); eleven doublings of the unit cover every magnitude of an int64.
unfoldable pub float64_of : ℕ → ℕ
unfolding float64_unit round_even
float64_of n = round_even (float64_unit 11 1 n) n

-- int64(x) of a float64 that is a whole number. Out of range the language leaves the result to the
-- implementation: `overflow`.
unfoldable pub int64_of : ℤ → ℤ → ℤ
int64_of overflow x =
    if ltb_ℤ max_int64 x then overflow else if ltb_ℤ x min_int64 then overflow else x

-- int64(float64(n) * 2.0)
unfoldable pub double_by_float : ℤ → ℤ → ℤ
unfolding int64_of float64_of
double_by_float overflow (pos n) = int64_of overflow (pos (2 * float64_of n))
double_by_float overflow (negsuc n) = int64_of overflow (negsuc (2 * float64_of (suc n) - 1))

-- Below 2 ^ 53 a whole number is exact in float64.
pub float64_of-exact : (n : ℕ) → n < 9007199254740992 → float64_of n ≡ n
unfolding float64_of
float64_of-exact n h = ground arith

pub double_by_float-exact :
    (overflow : ℤ) (n : ℕ) → n < 9007199254740992 → double_by_float overflow (pos n) ≡ pos (2 * n)
unfolding double_by_float
double_by_float-exact overflow n h = ground (arith, float64_of-exact n h)
