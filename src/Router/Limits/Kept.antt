-- ===== src/Router/Limits/Kept.antt =====
-- What applyOutputLimits of router.go leaves of a text.
use sleigh.Prelude.{
  ℕ, zero, suc, ◌+◌, ◌-◌, ◌≤◌, ◌<◌, Text, Bool, true, false, ◌&&◌, List, [], ◌∷◌, ltb, leb, eqb,
  eqb_iff, length, take, ◌==◌, if◌then◌else◌, ◌≡◌, refl, sym, ◌∙◌, ap, arith, Bool-cases, ◌⊎◌, inl,
  inr, length-take, subst,
}
use sleigh.Router.Limits.{
  newline, cons_head, split_lines, join_lines, truncate_lines, after_lines, limit_lines,
  apply_output_limits,
}

-- The text up to the newline after the first `suc m` lines.
cut_at : ℕ → Text → Text
cut_at m [] = []
cut_at zero (c ∷ s) = let rest = cut_at zero s in if eqb c newline then [] else c ∷ rest
cut_at (suc m) (c ∷ s) =
    let fewer = cut_at m s in
    let same = cut_at (suc m) s in c ∷ (if eqb c newline then fewer else same)

join-cons_head :
    (c : ℕ) (l : Text) (ls : List Text) → join_lines ((c ∷ l) ∷ ls) ≡ c ∷ join_lines (l ∷ ls)
unfolding join_lines
join-cons_head c l [] = refl
join-cons_head c l (m ∷ ls) = refl

split_lines-cons : (s : Text) → (l : Text) × (ls : List Text) × (split_lines s ≡ l ∷ ls)
unfolding split_lines
split_lines-cons [] = ([], [], refl)
split_lines-cons (c ∷ s) = elim (Bool-cases (eqb c newline)) [
  | inl e ↦ ([], split_lines s, rw e refl)
  | inr e ↦ let (l, ls, h) = split_lines-cons s in (c ∷ l, ls, rw (e, h) refl)
]

join-take-split : (m : ℕ) (s : Text) → join_lines (take (suc m) (split_lines s)) ≡ cut_at m s
unfolding split_lines join_lines cut_at
join-take-split zero [] = refl
join-take-split (suc m) [] = refl
join-take-split zero (c ∷ s) = elim (Bool-cases (eqb c newline)) [
  | inl e ↦ rw e refl
  | inr e ↦
      let (l, ls, h) = split_lines-cons s in
      rw (e, h) (ap (λ t. c ∷ t) (rw h at (join-take-split zero s)))
]
join-take-split (suc m) (c ∷ s) = elim (Bool-cases (eqb c newline)) [
  | inl e ↦
      let (l, ls, h) = split_lines-cons s in
      rw (e, h)
        (ap (λ t. newline ∷ t) (rw h at (join-take-split m s))
          ∙ ap (λ (d : ℕ). d ∷ cut_at m s) (sym ((eqb_iff c newline).0 e)))
  | inr e ↦
      let (l, ls, h) = split_lines-cons s in
      rw (e, h)
        (join-cons_head c l (take (suc m) ls)
          ∙ ap (λ t. c ∷ t) (rw h at (join-take-split (suc m) s)))
]

-- `p` begins `s`.
abbrev pub IsPrefix : Text → Text → Type 0
IsPrefix p s = take (length p) s ≡ p

cut_at-IsPrefix : (m : ℕ) (s : Text) → IsPrefix (cut_at m s) s
unfolding cut_at
cut_at-IsPrefix m [] = refl
cut_at-IsPrefix zero (c ∷ s) = ground (arith, cut_at-IsPrefix zero s)
cut_at-IsPrefix (suc m) (c ∷ s) = elim (Bool-cases (eqb c newline)) [
  | inl e ↦ rw e (ap (λ t. c ∷ t) (cut_at-IsPrefix m s))
  | inr e ↦ rw e (ap (λ t. c ∷ t) (cut_at-IsPrefix (suc m) s))
]

length-cut_at : (m : ℕ) (s : Text) → length (cut_at m s) ≤ length s
unfolding cut_at
length-cut_at m [] = omega arith
length-cut_at zero (c ∷ s) = ground (arith, length-cut_at zero s)
length-cut_at (suc m) (c ∷ s) = ground (arith, length-cut_at m s, length-cut_at (suc m) s)

length-cons_head : (c : ℕ) (ls : List Text) → 0 < length ls → length (cons_head c ls) ≡ length ls
length-cons_head c [] h = absurd (omega arith)
length-cons_head c (l ∷ ls) h = refl

length-split_lines_pos : (s : Text) → 0 < length (split_lines s)
length-split_lines_pos s = let (l, ls, h) = split_lines-cons s in rw h (omega arith)

length-split_lines :
    (c : ℕ) (s : Text)
    → length (split_lines (c ∷ s))
      ≡ (if eqb c newline then suc (length (split_lines s)) else length (split_lines s))
unfolding split_lines
length-split_lines c s =
    ground (arith, length-cons_head c (split_lines s), length-split_lines_pos s)

-- A text with more lines is cut, and what is left has that many.
cut_at-lt : (m : ℕ) (s : Text) → suc m < length (split_lines s) → length (cut_at m s) < length s
unfolding cut_at
cut_at-lt m [] h = unfold split_lines in absurd (omega arith)
cut_at-lt zero (c ∷ s) h = ground (arith, length-split_lines c s, cut_at-lt zero s)
cut_at-lt (suc m) (c ∷ s) h =
    ground (arith, length-split_lines c s, cut_at-lt m s, cut_at-lt (suc m) s)

split-cut_at : (m : ℕ) (s : Text) → length (split_lines (cut_at m s)) ≤ suc m
unfolding cut_at
split-cut_at m [] = unfold split_lines in omega arith
split-cut_at zero (c ∷ s) = elim (Bool-cases (eqb c newline)) [
  | inl e ↦ rw e (unfold split_lines in omega arith)
  | inr e ↦ rw e (ground (arith, length-split_lines c (cut_at zero s), split-cut_at zero s, e))
]
split-cut_at (suc m) (c ∷ s) = elim (Bool-cases (eqb c newline)) [
  | inl e ↦ rw e (ground (arith, length-split_lines c (cut_at m s), split-cut_at m s, e))
  | inr e ↦
      rw e (ground (arith, length-split_lines c (cut_at (suc m) s), split-cut_at (suc m) s, e))
]

take-length : (s : Text) → take (length s) s ≡ s
take-length [] = refl
take-length (c ∷ s) = ap (λ t. c ∷ t) (take-length s)

take-take : (n m : ℕ) (s : Text) → n ≤ m → take n (take m s) ≡ take n s
take-take zero m s h = refl
take-take (suc n) zero s h = absurd (omega arith)
take-take (suc n) (suc m) [] h = refl
take-take (suc n) (suc m) (c ∷ s) h = ap (λ t. c ∷ t) (take-take n m s (omega arith))

suc-eqb-zero : (m : ℕ) → eqb (suc m) 0 ≡ false
suc-eqb-zero m = ground arith

truncate_lines_lem :
    (content : Text) (m : ℕ)
    → let (out, cut) = truncate_lines content (suc m) in
      IsPrefix out content
      × (length out ≤ length content)
      × (cut ≡ ltb (length out) (length content))
      × (length (split_lines out) ≤ suc m)
unfolding truncate_lines ◌==◌
truncate_lines_lem [] m =
    rw (suc-eqb-zero m) (refl, omega arith, refl, unfold split_lines in omega arith)
truncate_lines_lem (c ∷ s) m =
    rw (suc-eqb-zero m) (elim (Bool-cases (leb (length (split_lines (c ∷ s))) (suc m))) [
      | inl e ↦ rw e (take-length (c ∷ s), omega arith, ground arith, ground (arith, e))
      | inr e ↦
          rw (e, join-take-split m (c ∷ s))
            (
              cut_at-IsPrefix m (c ∷ s),
              length-cut_at m (c ∷ s),
              ground (arith, cut_at-lt m (c ∷ s), e),
              split-cut_at m (c ∷ s),
            )
    ])

prefix_trans : (p q s : Text) → IsPrefix p q → IsPrefix q s → length p ≤ length q → IsPrefix p s
prefix_trans p q s hp hq h =
    sym (take-take (length p) (length q) s h) ∙ ap (take (length p)) hq ∙ hp

take-IsPrefix : (n : ℕ) (s : Text) → IsPrefix (take n s) s
take-IsPrefix zero s = refl
take-IsPrefix (suc n) [] = refl
take-IsPrefix (suc n) (c ∷ s) = ap (λ t. c ∷ t) (take-IsPrefix n s)

-- What the limits promise: a prefix is left, the omitted bytes are counted, and the flag says whether
-- there are any.
abbrev pub Limited : Text → ℕ → Text × ℕ × Bool → Type 0
Limited original max_lines (out, omitted, cut) =
    IsPrefix out original
    × (length out + omitted ≡ length original)
    × (cut ≡ ltb 0 omitted)
    × ((max_lines ≡ 0) ⊎ (length (split_lines out) ≤ max_lines))

-- The cut by bytes has left `content` of `original`, and what follows is what the cut by lines leaves.
after_lines-Limited :
    (original content limited : Text) (cut : Bool) (m omitted : ℕ) (truncated : Bool)
    → IsPrefix content original
    → length content + omitted ≡ length original
    → truncated ≡ ltb 0 omitted
    → IsPrefix limited content
    → length limited ≤ length content
    → cut ≡ ltb (length limited) (length content)
    → length (split_lines limited) ≤ suc m
    → Limited original (suc m) (after_lines (length content) omitted truncated (limited, cut))
after_lines-Limited original content limited cut m omitted truncated p l t q short c lines =
    (prefix_trans limited content original q p short, ground arith, ground arith, inr lines)

zero-ltb-suc : (m : ℕ) → ltb 0 (suc m) ≡ true
zero-ltb-suc m = ground arith

limit_lines-Limited :
    (original content : Text) (max_lines omitted : ℕ) (truncated : Bool)
    → IsPrefix content original
    → length content + omitted ≡ length original
    → truncated ≡ ltb 0 omitted
    → Limited original max_lines (limit_lines content max_lines omitted truncated)
limit_lines-Limited original content zero omitted truncated p l t = (p, l, t, inl refl)
limit_lines-Limited original content (suc m) omitted truncated p l t =
    let (prefix, short, cut, lines) = truncate_lines_lem content m in
    rw (zero-ltb-suc m) (
      after_lines-Limited original content (truncate_lines content (suc m)).0
        (truncate_lines content (suc m)).1 m omitted truncated p l t prefix short cut lines)

length-limit_lines :
    (content : Text) (max_lines omitted : ℕ) (truncated : Bool)
    → length (limit_lines content max_lines omitted truncated).0 ≤ length content
length-limit_lines content zero omitted truncated = omega arith
length-limit_lines content (suc m) omitted truncated =
    rw (zero-ltb-suc m) (truncate_lines_lem content m).1

length-take_le : (n : ℕ) (s : Text) → n ≤ length s → length (take n s) ≡ n
length-take_le n s h = omega (arith, length-take n s)

zero_or_one_line : (ml : ℕ) → (ml ≡ 0) ⊎ (1 ≤ ml)
zero_or_one_line zero = inl refl
zero_or_one_line (suc m) = inr (omega arith)

zero_or_all : (mb n k : ℕ) → (ltb 0 mb && ltb mb n) ≡ false → k ≤ n → (mb ≡ 0) ⊎ (k ≤ mb)
zero_or_all zero n k h le = inl refl
zero_or_all (suc m) n k h le = inr (ground arith)

-- applyOutputLimits leaves a prefix of the content, within the limits on bytes and lines that are
-- not 0, counts what it left out, and sets its flag exactly if it left out something.
pub apply_output_limits-Limited :
    (content : Text) (max_bytes max_lines : ℕ)
    → Limited content max_lines (apply_output_limits content max_bytes max_lines)
      × ((max_bytes ≡ 0) ⊎ (length (apply_output_limits content max_bytes max_lines).0 ≤ max_bytes))
unfolding apply_output_limits ◌==◌
apply_output_limits-Limited [] mb ml = (
  (refl, omega arith, refl, zero_or_one_line ml),
  zero_or_all mb 0 0 (ground arith) (omega arith),
)
apply_output_limits-Limited (c ∷ s) mb ml =
    elim (Bool-cases (ltb 0 mb && ltb mb (length (c ∷ s)))) [
      | inl e ↦
          let left = length-take_le mb (c ∷ s) (ground (arith, e)) in
          rw e (
            limit_lines-Limited (c ∷ s) (take mb (c ∷ s)) ml (length (c ∷ s) - mb) true
                (take-IsPrefix mb (c ∷ s)) (ground (arith, left, e)) (ground (arith, e)),
            inr (
                subst
                  (λ k. length (limit_lines (take mb (c ∷ s)) ml (length (c ∷ s) - mb) true).0 ≤ k)
                  left (length-limit_lines (take mb (c ∷ s)) ml (length (c ∷ s) - mb) true)),
          )
      | inr e ↦ rw e (
        limit_lines-Limited (c ∷ s) (c ∷ s) ml 0 false (take-length (c ∷ s)) (omega arith) refl,
        zero_or_all mb (length (c ∷ s)) _ e (length-limit_lines (c ∷ s) ml 0 false),
      )
    ]
