-- ===== src/Router/Edit/Replaced.antt =====
-- The place that a context edit of router.go replaces.
use sleigh.Prelude.{
  zero, suc, ℕ, ◌+◌, ◌-◌, Text, true, false, ◌&&◌, Option, none, some, List, [], ◌∷◌, ◌++◌, ltb,
  eqb, length, take, drop, take-append-drop, has_prefix, ◌==◌, ◌≡◌, ◌≢◌, refl, sym, ◌∙◌, ap, arith,
  Bool-cases, ◌⊎◌, inl, inr,
}
use sleigh.Errors.{Error, ok, err}
use sleigh.Router.Edit.{find_all_indexes, nth, splice, edit_at, replace_at}
use sleigh.Router.Edit.Places.{places, nth-places_from, find_all_indexes-places, drop-drop}

has_prefix-append : (s p : Text) → has_prefix s p ≡ true → s ≡ p ++ drop (length p) s
unfolding has_prefix
has_prefix-append [] [] h = refl
has_prefix-append (c ∷ s) [] h = refl
has_prefix-append [] (d ∷ p) h = cc
has_prefix-append (c ∷ s) (d ∷ p) h = ground (arith, has_prefix-append s p)

-- The text `search` stands at `start`.
abbrev StandsAt : Text → Text → ℕ → Type 0
StandsAt current search start =
    current ≡ take start current ++ (search ++ drop (start + length search) current)

StandsAt-of_prefix :
    (current search : Text) (start : ℕ)
    → has_prefix (drop start current) search ≡ true
    → StandsAt current search start
StandsAt-of_prefix current search start h =
    sym (take-append-drop start current)
    ∙ ap (λ t. take start current ++ t)
        (has_prefix-append (drop start current) search h
          ∙ ap (λ t. search ++ t) (drop-drop (length search) start current))

abbrev the : (A : Type 0) → A → A
the A a = a

pub cons-eq-nil : (d : ℕ) (q : Text) → ((d ∷ q) == []) ≡ false
unfolding ◌==◌
cons-eq-nil d q = refl

err-ne-ok : {A : Type 0} {e : Error} {a : A} → err e ≡ ok a → ⊥
err-ne-ok h = cc

ok-injective : {A : Type 0} {a b : A} → ok a ≡ ok b → b ≡ a
ok-injective h = cc

one_or_later :
    (count occurrence : ℕ)
    → eqb count 0 ≡ false
    → (ltb 1 count && eqb occurrence 1) ≡ false
    → (occurrence ≢ 1) ⊎ (count ≡ 1)
one_or_later count occurrence h k = elim (Bool-cases (eqb occurrence 1)) [
  | inl e ↦ inr (ground arith)
  | inr e ↦ inl (λ same. ground (arith, same, e))
]

replace_at-ok :
    (current search replace : Text) (occurrence count : ℕ) (o : Option ℕ) (updated : Text)
    → replace_at current search replace occurrence count o ≡ ok updated
    → (start : ℕ) × (o ≡ some start) × (updated ≡ splice current search replace start)
replace_at-ok current search replace occurrence count none updated h = cc
replace_at-ok current search replace occurrence count (some start) updated h =
    (start, refl, ok-injective h)

edit_at-ok :
    (current search replace : Text) (matches : List ℕ) (occurrence : ℕ) (updated : Text)
    → edit_at current search replace matches occurrence ≡ ok updated
    → (start : ℕ) × (nth matches (occurrence - 1) ≡ some start)
      × (updated ≡ splice current search replace start)
      × ((occurrence ≢ 1) ⊎ (length matches ≡ 1))
edit_at-ok current search replace matches occurrence updated h =
    elim (Bool-cases (eqb (length matches) 0)) [
      | inl e ↦ absurd (err-ne-ok (rw e at h))
      | inr e1 ↦ elim (Bool-cases (ltb 1 (length matches) && eqb occurrence 1)) [
        | inl e ↦ absurd (err-ne-ok (rw (e1, e) at h))
        | inr e2 ↦ elim (Bool-cases (ltb (length matches) occurrence)) [
          | inl e ↦ absurd (err-ne-ok (rw (e1, e2, e) at h))
          | inr e3 ↦
              let (start, found, spliced) =
                replace_at-ok current search replace occurrence (length matches)
                  (nth matches (occurrence - 1)) updated (rw (e1, e2, e3) at h) in
              (start, found, spliced, one_or_later (length matches) occurrence e1 e2)
        ]
      ]
    ]

-- `updated` is `current` with the text `searched` at its place number `k`, behind `pre` and before
-- `post`, replaced by `written`; the first place is the only one.
abbrev pub Edited : Text → Text → Text → ℕ → Text → Type 0
Edited current searched written k updated =
    (pre : Text) × (post : Text) × (earlier : List ℕ) × (later : List ℕ) × (current
      ≡ pre ++ (searched ++ post))
    × (updated ≡ pre ++ (written ++ post))
    × (places current searched ≡ earlier ++ length pre ∷ later)
    × (length earlier ≡ k - 1)
    × ((k ≢ 1) ⊎ (length (places current searched) ≡ 1))

nth-split :
    (l : List ℕ) (n s : ℕ)
    → nth l n ≡ some s
    → (earlier : List ℕ) × (later : List ℕ) × (l ≡ earlier ++ s ∷ later) × (length earlier ≡ n)
nth-split [] n s h = cc
nth-split (i ∷ is) zero s h = ([], is, cc h, refl)
nth-split (i ∷ is) (suc n) s h =
    let (earlier, later, e, l) = nth-split is n s h in
    (i ∷ earlier, later, ap (λ t. i ∷ t) e, omega (arith, l))

-- Where a text that is not empty stands there is room before it.
length-take-prefix :
    (s : Text) (d : ℕ) (q : Text) (n : ℕ)
    → has_prefix (drop n s) (d ∷ q) ≡ true
    → length (take n s) ≡ n
unfolding has_prefix
length-take-prefix s d q zero h = refl
length-take-prefix [] d q (suc n) h = cc
length-take-prefix (c ∷ s) d q (suc n) h = omega (arith, length-take-prefix s d q n h)

nth-places : (s p : Text) (n j : ℕ) → nth (places s p) n ≡ some j → has_prefix (drop j s) p ≡ true
nth-places s p n j h =
    ap (λ i. has_prefix (drop i s) p) (the (j ≡ j - 0) (omega arith))
    ∙ (nth-places_from s p 0 n j h).1

edit_at-Edited :
    (current : Text) (d : ℕ) (q replace : Text) (k : ℕ) (updated : Text)
    → edit_at current (d ∷ q) replace (places current (d ∷ q)) k ≡ ok updated
    → Edited current (d ∷ q) replace k updated
edit_at-Edited current d q replace k updated h =
    let search : Text = d ∷ q in
    let (start, found, spliced, one) =
      edit_at-ok current search replace (places current search) k updated h in
    let (earlier, later, split, number) = nth-split (places current search) (k - 1) start found in
    let stands = nth-places current search (k - 1) start found in
    (
      take start current,
      drop (start + length search) current,
      earlier,
      later,
      StandsAt-of_prefix current search start stands,
      spliced,
      split ∙ ap (λ n. earlier ++ n ∷ later) (sym (length-take-prefix current d q start stands)),
      number,
      one,
    )

pub find_all_indexes-nil : (current : Text) → find_all_indexes current [] ≡ []
unfolding find_all_indexes ◌==◌
find_all_indexes-nil current = refl

pub find_all-Edited :
    (current search replace : Text) (k : ℕ) (updated : Text)
    → edit_at current search replace (find_all_indexes current search) k ≡ ok updated
    → Edited current search replace k updated
find_all-Edited current [] replace k updated h =
    absurd (err-ne-ok (rw (find_all_indexes-nil current) at h))
find_all-Edited current (d ∷ q) replace k updated h =
    edit_at-Edited current d q replace k updated
      (rw (find_all_indexes-places current (d ∷ q) (cons-eq-nil d q)) at h)
