-- ===== src/Router/Edit/Edited.antt =====
-- What a context edit of router.go does to the content of a file.
use sleigh.Prelude.{
  zero, suc, ◌≤◌, ◌<◌, trim_space, text_eq_iff, ℕ, ◌-◌, Text, true, false, ◌&&◌, some, List, [],
  ◌∷◌, ◌++◌, ltb, eqb, length, ◌==◌, ◌≡◌, ◌≢◌, refl, arith, Bool-cases, ◌⊎◌, inl, inr,
}
use sleigh.Prelude.Int.{ℤ, pos, negsuc, ◌≤ℤ◌, leb_ℤ}
use sleigh.Errors.{Result, Error, ok, err}
use sleigh.Router.Edit.{
  find_all_indexes, edit_block, nth, apply_context_edit, edit_at, first_if_not_positive,
}
use sleigh.Router.Edit.Places.{places, find_all_indexes-places}
use sleigh.Router.Edit.Replaced.{Edited, find_all-Edited, find_all_indexes-nil, cons-eq-nil}

ne-of_false : (s t : Text) → (s == t) ≡ false → s ≢ t
ne-of_false s t h e = cc (h, (text_eq_iff s t).1 e)

-- The text to look for and the text to put there: the old and the new one, between the context if
-- there is one.
abbrev pub AreBlocks : Text → Text → Text → Text → Text → Text → Type 0
AreBlocks before old new after searched written =
    (((trim_space before ≡ []) × (trim_space after ≡ [])) × (searched ≡ old) × (written ≡ new))
    ⊎ (((trim_space before ≢ []) ⊎ (trim_space after ≢ []))
        × (searched ≡ before ++ (old ++ after))
        × (written ≡ before ++ (new ++ after)))

-- The number of the place that is meant.
abbrev pub IsNumber : ℤ → ℕ → Type 0
IsNumber occurrence k = ((occurrence ≤ℤ pos 0) × (k ≡ 1)) ⊎ ((1 ≤ k) × (occurrence ≡ pos k))

blank-AreBlocks :
    (before old new after : Text)
    → AreBlocks before old new after (edit_block before old after) (edit_block before new after)
blank-AreBlocks before old new after = elim (Bool-cases (trim_space before == [])) [
  | inr e ↦ rw e (inr (inl (ne-of_false _ [] e), refl, refl))
  | inl e ↦ elim (Bool-cases (trim_space after == [])) [
    | inr k ↦ rw (e, k) (inr (inr (ne-of_false _ [] k), refl, refl))
    | inl k ↦
        rw (e, k)
          (inl (
            ((text_eq_iff (trim_space before) []).0 e, (text_eq_iff (trim_space after) []).0 k),
            refl,
            refl,
          ))
  ]
]

positive : (n : ℕ) → leb_ℤ (pos (suc n)) (pos 0) ≡ false
positive n = ground arith

negative : (n : ℕ) → leb_ℤ (negsuc n) (pos 0) ≡ true
negative n = ground arith

first_if_not_positive-IsNumber :
    (occurrence : ℤ) → IsNumber occurrence (first_if_not_positive occurrence)
first_if_not_positive-IsNumber (pos zero) = inl (omega arith, refl)
first_if_not_positive-IsNumber (pos (suc n)) = rw (positive n) (inr (omega arith, refl))
first_if_not_positive-IsNumber (negsuc n) = rw (negative n) (inl (omega arith, refl))

-- No edit is made: there is nothing to look for, there are fewer places, or the first is meant and
-- there are several.
abbrev pub IsRefused : Text → Text → ℕ → Type 0
IsRefused current searched k =
    (searched ≡ [])
    ⊎ ((length (places current searched) < k) ⊎ ((k ≡ 1) × (1 < length (places current searched))))

nth-defined : (l : List ℕ) (n : ℕ) → n < length l → (s : ℕ) × (nth l n ≡ some s)
nth-defined [] n h = absurd (omega arith)
nth-defined (i ∷ is) zero h = (i, refl)
nth-defined (i ∷ is) (suc n) h = nth-defined is n (omega arith)

-- The edit, or an error and why.
abbrev Outcome : Result Text → (Text → Type 0) → Type 0 → Type 0
Outcome (ok updated) Done Refused = Done updated
Outcome (err e) Done Refused = Refused

edit_at-Outcome :
    (current search replace : Text) (matches : List ℕ) (k : ℕ)
    → 1 ≤ k
    → Outcome
        (edit_at current search replace matches k)
        (λ updated. Unit)
        ((length matches < k) ⊎ ((k ≡ 1) × (1 < length matches)))
edit_at-Outcome current search replace matches k h = elim (Bool-cases (eqb (length matches) 0)) [
  | inl e ↦ rw e (inl (ground arith))
  | inr e1 ↦ elim (Bool-cases (ltb 1 (length matches) && eqb k 1)) [
    | inl e ↦ rw (e1, e) (inr (ground arith))
    | inr e2 ↦ elim (Bool-cases (ltb (length matches) k)) [
      | inl e ↦ rw (e1, e2, e) (inl (ground arith))
      | inr e3 ↦
          let (start, found) = nth-defined matches (k - 1) (ground arith) in
          rw (e1, e2, e3, found) tt
    ]
  ]
]

Outcome-mono :
    (Done : Text → Type 0) (A B : Type 0) (r : Result Text) (f : A → B)
    → Outcome r Done A
    → Outcome r Done B
Outcome-mono Done A B (ok updated) f h = h
Outcome-mono Done A B (err e) f h = f h

IsNumber-positive : (occurrence : ℤ) (k : ℕ) → IsNumber occurrence k → 1 ≤ k
IsNumber-positive occurrence k (inl (_, e)) = omega (arith, e)
IsNumber-positive occurrence k (inr (h, _)) = h

find_all-Outcome :
    (current search replace : Text) (k : ℕ)
    → 1 ≤ k
    → Outcome
        (edit_at current search replace (find_all_indexes current search) k)
        (λ updated. Unit)
        (IsRefused current search k)
find_all-Outcome current [] replace k h = rw (find_all_indexes-nil current) (inl refl)
find_all-Outcome current (d ∷ q) replace k h =
    rw (find_all_indexes-places current (d ∷ q) (cons-eq-nil d q)) (
      Outcome-mono (λ updated. Unit)
        ((length (places current (d ∷ q)) < k) ⊎ ((k ≡ 1) × (1 < length (places current (d ∷ q)))))
        (IsRefused current (d ∷ q) k) (edit_at current (d ∷ q) replace (places current (d ∷ q)) k)
        (λ r. inr r) (edit_at-Outcome current (d ∷ q) replace (places current (d ∷ q)) k h))

Outcome-split :
    (r : Result Text) (Done : Text → Type 0) (Refused : Type 0)
    → Outcome r (λ updated. Unit) Refused
    → ((updated : Text) → r ≡ ok updated → Done updated)
    → ((updated : Text) × (r ≡ ok updated) × Done updated) ⊎ ((e : Error) × (r ≡ err e) × Refused)
Outcome-split (ok updated) Done Refused h f = inl (updated, refl, f updated refl)
Outcome-split (err e) Done Refused h f = inr (e, refl, h)

-- For a searched and a written text, which are the old and the new one, between the context unless
-- all of it is blank, and the number of a place, which is the given one, or 1 if that is not
-- positive: a context edit either returns a text, and then the content is some text, the searched
-- text, which stands there at its place of that number among all its places, and some text behind
-- it, the result is the same with the written text in the place of the searched one, and the first
-- place is taken only if it is the only one; or it returns an error, and then the searched text is
-- empty, or has fewer places than the number, or the number is 1 and there are several places.
pub apply_context_edit-Edited :
    (current before old new after : Text) (occurrence : ℤ)
    → (searched : Text) × (written : Text) × (k : ℕ) × AreBlocks before old new after searched
        written
      × IsNumber occurrence k
      × (((updated : Text) × (apply_context_edit current before old new after occurrence
              ≡ ok updated)
            × Edited current searched written k updated)
          ⊎ ((e : Error) × (apply_context_edit current before old new after occurrence ≡ err e)
              × IsRefused current searched k))
unfolding apply_context_edit
apply_context_edit-Edited current before old new after occurrence =
    let searched = edit_block before old after in
    let written = edit_block before new after in
    let k = first_if_not_positive occurrence in
    let number = first_if_not_positive-IsNumber occurrence in
    (
      searched,
      written,
      k,
      blank-AreBlocks before old new after,
      number,
      Outcome-split (edit_at current searched written (find_all_indexes current searched) k)
          (Edited current searched written k) (IsRefused current searched k)
          (find_all-Outcome current searched written k (IsNumber-positive occurrence k number))
          (λ updated h. find_all-Edited current searched written k updated h),
    )
