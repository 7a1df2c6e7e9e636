-- ===== src/Prelude/Strings.antt =====
-- Go's strings as lists of code points: equality, the byte order that SQLite and Go compare by, white
-- space, and the functions of the package `strings` that the program calls.
use Prim.Native.Nat.{ℕ, ◌+◌}
use Prim.Native.Char.{code}
use Prim.Native.String.{String}
use mathlib.Core.Path.{◌≡◌, refl}
use mathlib.Core.Logic.{◌↔◌, inl, inr}
use mathlib.Core.Bool.{Bool, true, false, ◌&&◌, ◌||◌}
use mathlib.Core.List.{List, [], ◌∷◌, map}
use native.Mathlib.Omega.{arith}
use sleigh.Prelude.Tests.{ltb, leb, eqb, if◌then◌else◌, Bool-cases}

abbrev pub Text : Type 0
Text = List ℕ

-- The bytes of an ASCII literal.
abbrev pub codes : String → Text
codes String.[] = []
codes (String.◌∷◌ c s) = code c ∷ codes s

infix 50 ◌==◌
unfoldable pub ◌==◌ : Text → Text → Bool
[] == [] = true
[] == (d ∷ t) = false
(c ∷ s) == [] = false
(c ∷ s) == (d ∷ t) = eqb c d && (s == t)

pub text_eq→ : (s t : Text) → (s == t) ≡ true → s ≡ t
unfolding ◌==◌
text_eq→ [] [] h = refl
text_eq→ [] (d ∷ t) h = ground arith
text_eq→ (c ∷ s) [] h = ground arith
text_eq→ (c ∷ s) (d ∷ t) h = ground (arith, text_eq→ s t)

pub text_eq_refl : (s : Text) → (s == s) ≡ true
unfolding ◌==◌
text_eq_refl [] = refl
text_eq_refl (c ∷ s) = ground (arith, text_eq_refl s)

pub text_eq_iff : (s t : Text) → ((s == t) ≡ true) ↔ (s ≡ t)
text_eq_iff s t = (text_eq→ s t, λ e. text_eq_of s t e)
  where
    text_eq_of : (s t : Text) → s ≡ t → (s == t) ≡ true
    text_eq_of s t e = ground (arith, text_eq_refl s)

-- `s < t` in the byte order.
unfoldable pub text_lt : Text → Text → Bool
text_lt [] [] = false
text_lt [] (d ∷ t) = true
text_lt (c ∷ s) [] = false
text_lt (c ∷ s) (d ∷ t) = ltb c d || (eqb c d && text_lt s t)

pub text_lt_irrefl : (s : Text) → text_lt s s ≡ false
unfolding text_lt
text_lt_irrefl [] = refl
text_lt_irrefl (c ∷ s) = ground (arith, text_lt_irrefl s)

pub text_lt_trans : (s t u : Text) → text_lt s t ≡ true → text_lt t u ≡ true → text_lt s u ≡ true
unfolding text_lt
text_lt_trans [] [] u h k = cc
text_lt_trans [] (d ∷ t) [] h k = cc
text_lt_trans [] (d ∷ t) (e ∷ u) h k = refl
text_lt_trans (c ∷ s) [] u h k = cc
text_lt_trans (c ∷ s) (d ∷ t) [] h k = cc
text_lt_trans (c ∷ s) (d ∷ t) (e ∷ u) h k = ground (arith, text_lt_trans s t u)

-- Two texts of which neither is below the other are equal.
pub text_lt_total : (s t : Text) → text_lt s t ≡ false → text_lt t s ≡ false → s ≡ t
unfolding text_lt
text_lt_total [] [] h k = refl
text_lt_total [] (d ∷ t) h k = cc
text_lt_total (c ∷ s) [] h k = cc
text_lt_total (c ∷ s) (d ∷ t) h k = ground (arith, text_lt_total s t)

-- unicode.IsSpace on a code point.
unfoldable pub is_space : ℕ → Bool
is_space c =
    (leb 9 c && leb c 13)
    || eqb c 32
    || eqb c 0x85
    || eqb c 0xa0
    || eqb c 0x1680
    || (leb 0x2000 c && leb c 0x200a)
    || eqb c 0x2028
    || eqb c 0x2029
    || eqb c 0x202f
    || eqb c 0x205f
    || eqb c 0x3000

unfoldable pub trim_left : Text → Text
unfolding is_space
trim_left [] = []
trim_left (c ∷ s) = let rest = trim_left s in if is_space c then rest else c ∷ s

abbrev pub keep_char : ℕ → Text → Text
keep_char c [] = if is_space c then [] else c ∷ []
keep_char c (d ∷ t) = c ∷ d ∷ t

unfoldable pub trim_right : Text → Text
unfolding is_space
trim_right [] = []
trim_right (c ∷ s) = keep_char c (trim_right s)

-- strings.TrimSpace
unfoldable pub trim_space : Text → Text
unfolding trim_left trim_right
trim_space s = trim_right (trim_left s)

-- strings.TrimSpace(s) == ""
abbrev pub is_blank : Text → Bool
is_blank s = trim_space s == []

-- unicode.ToLower on the code points whose lower case is ASCII.
unfoldable pub lower_char : ℕ → ℕ
lower_char c =
    if leb 65 c && leb c 90
    then c + 32
    else if eqb c 0x212a
    then b'k'
    else if eqb c 0x130
    then b'i'
    else c

unfoldable pub to_lower : Text → Text
unfolding lower_char
to_lower s = map lower_char s

-- strings.HasPrefix(s, p)
unfoldable pub has_prefix : Text → Text → Bool
has_prefix s [] = true
has_prefix [] (d ∷ p) = false
has_prefix (c ∷ s) (d ∷ p) = eqb c d && has_prefix s p

-- strings.Contains(s, p)
unfoldable pub contains : Text → Text → Bool
unfolding has_prefix
contains [] p = has_prefix [] p
contains (c ∷ s) p = has_prefix (c ∷ s) p || contains s p

keep_char_fix : (c : ℕ) (r : Text) → trim_right r ≡ r → trim_right (keep_char c r) ≡ keep_char c r
unfolding trim_right
keep_char_fix c [] h = ground arith
keep_char_fix c (d ∷ t) h = rw h

trim_right-trim_right : (s : Text) → trim_right (trim_right s) ≡ trim_right s
unfolding trim_right
trim_right-trim_right [] = refl
trim_right-trim_right (c ∷ s) = keep_char_fix c (trim_right s) (trim_right-trim_right s)

trim_left-keep_char :
    (c : ℕ) (r : Text) → is_space c ≡ false → trim_left (keep_char c r) ≡ keep_char c r
unfolding trim_left
trim_left-keep_char c [] h = ground arith
trim_left-keep_char c (d ∷ t) h = ground arith

trim_left-trim_space : (s : Text) → trim_left (trim_space s) ≡ trim_space s
unfolding trim_space
trim_left-trim_space [] = refl
trim_left-trim_space (c ∷ s) = elim (Bool-cases (is_space c)) [
  | inl e ↦ rw e (trim_left-trim_space s)
  | inr e ↦ rw e (trim_left-keep_char c (trim_right s) e)
]

-- Trimming a trimmed text changes nothing.
pub trim_space-trim_space : (s : Text) → trim_space (trim_space s) ≡ trim_space s
unfolding trim_space
trim_space-trim_space s = rw (trim_left-trim_space s) (trim_right-trim_right (trim_left s))

-- The byte order is a weak order: what is not above a lower bound lies below every upper one.
pub text_lt-negtrans :
    (s t u : Text) → text_lt s t ≡ true → text_lt s u ≡ false → text_lt u t ≡ true
text_lt-negtrans s t u h k = elim (Bool-cases (text_lt u t)) [
  | inl e ↦ e
  | inr e ↦ ground (arith, text_lt_trans s t u, text_lt_total u t, h, k, e)
]

pub text_lt-asym : (s t : Text) → text_lt s t ≡ true → text_lt t s ≡ false
text_lt-asym s t h = elim (Bool-cases (text_lt t s)) [
  | inl e ↦ ground (arith, text_lt_trans s t s h e, text_lt_irrefl s)
  | inr e ↦ e
]
