-- ===== src/Prelude/Rows.antt =====
-- Lemmas on the queries over lists of rows.
use sleigh.Prelude.{
  ◌+◌, Text, ◌==◌, ◌≡◌, refl, Bool, true, false, ◌&&◌, ◌||◌, List, [], ◌∷◌, ◌++◌, arith, All, any,
  select, delete_where, update_where, count_where, length, text_eq_iff, Bool-cases, inl, inr,
}

-- No two rows have the same key.
abbrev pub Distinct {ℓ} : {A : Type ℓ} → (A → Text) → List A → Type 0
Distinct key [] = Unit
Distinct key (x ∷ xs) = All (λ y. (key y == key x) ≡ false) xs × Distinct key xs

module _ {ℓ} {A : Type ℓ} (p : A → Bool) where
  pub any-append : (xs ys : List A) → any p (xs ++ ys) ≡ (any p xs || any p ys)
  unfolding any
  any-append [] ys = refl
  any-append (x ∷ xs) ys = ground (arith, any-append xs ys)

  pub any-update_where :
      (q : A → Bool) (f : A → A) (xs : List A)
      → ((x : A) → p (f x) ≡ p x)
      → any p (update_where q f xs) ≡ any p xs
  unfolding any update_where
  any-update_where q f [] h = refl
  any-update_where q f (x ∷ xs) h = ground (arith, h x, any-update_where q f xs h)

  -- A row that passes `p` and is not deleted is found again.
  pub any-delete_where :
      (q : A → Bool) (xs : List A)
      → any p xs ≡ true
      → any (λ x. p x && q x) xs ≡ false
      → any p (delete_where q xs) ≡ true
  unfolding any delete_where
  any-delete_where q [] h k = h
  any-delete_where q (x ∷ xs) h k = ground (arith, any-delete_where q xs)

  pub any-delete_where_self : (xs : List A) → any p (delete_where p xs) ≡ false
  unfolding any delete_where
  any-delete_where_self [] = refl
  any-delete_where_self (x ∷ xs) = ground (arith, any-delete_where_self xs)

  -- Nothing that the deletion covers is left.
  pub any-delete_where_of :
      (q : A → Bool) (xs : List A)
      → ((x : A) → p x ≡ true → q x ≡ true)
      → any p (delete_where q xs) ≡ false
  unfolding any delete_where
  any-delete_where_of q [] h = refl
  any-delete_where_of q (x ∷ xs) h = ground (arith, h x, any-delete_where_of q xs h)

  pub count_where-append :
      (xs ys : List A) → count_where p (xs ++ ys) ≡ count_where p xs + count_where p ys
  unfolding count_where
  count_where-append [] ys = omega arith
  count_where-append (x ∷ xs) ys = omega (arith, count_where-append xs ys)

  pub count_where-eq-zero : (xs : List A) → any p xs ≡ false → count_where p xs ≡ 0
  unfolding any count_where
  count_where-eq-zero [] h = refl
  count_where-eq-zero (x ∷ xs) h = ground (arith, count_where-eq-zero xs)

  pub length-select : (xs : List A) → length (select p xs) ≡ count_where p xs
  unfolding select count_where
  length-select [] = refl
  length-select (x ∷ xs) = ground (arith, length-select xs)

  pub count-delete_where : (xs : List A) → length (delete_where p xs) + count_where p xs ≡ length xs
  unfolding delete_where count_where
  count-delete_where [] = omega arith
  count-delete_where (x ∷ xs) = ground (arith, count-delete_where xs)

pub any-false {ℓ} :
    {A : Type ℓ} (p q : A → Bool) (xs : List A)
    → ((x : A) → q x ≡ true → p x ≡ true)
    → any p xs ≡ false
    → any q xs ≡ false
unfolding any
any-false p q [] h k = refl
any-false p q (x ∷ xs) h k = ground (arith, h x, any-false p q xs h)

module _ {ℓ κ} {A : Type ℓ} (p : A → Bool) (P : A → Type κ) where
  pub any-false-All : ((x : A) → p x ≡ false → P x) → (xs : List A) → any p xs ≡ false → All P xs
  unfolding any
  any-false-All f [] h = tt
  any-false-All f (x ∷ xs) h = elim (Bool-cases (p x)) [
    | inl e ↦ cc (rw e at h)
    | inr e ↦ (f x e, any-false-All f xs (rw e at h))
  ]

  pub All-any-false : ((x : A) → P x → p x ≡ false) → (xs : List A) → All P xs → any p xs ≡ false
  unfolding any
  All-any-false f [] h = refl
  All-any-false f (x ∷ xs) h = rw (f x h.0) (All-any-false f xs h.1)

module _ {ℓ κ} {A : Type ℓ} where
  pub All-mono : (P Q : A → Type κ) (xs : List A) → ((x : A) → P x → Q x) → All P xs → All Q xs
  All-mono P Q [] f h = tt
  All-mono P Q (x ∷ xs) f h = (f x h.0, All-mono P Q xs f h.1)

  pub All-append : (P : A → Type κ) (xs ys : List A) → All P xs → All P ys → All P (xs ++ ys)
  All-append P [] ys hx hy = hy
  All-append P (x ∷ xs) ys hx hy = (hx.0, All-append P xs ys hx.1 hy)

  pub All-delete_where :
      (P Q : A → Type κ) (q : A → Bool) (xs : List A)
      → ((x : A) → q x ≡ false → P x → Q x)
      → All P xs
      → All Q (delete_where q xs)
  unfolding delete_where
  All-delete_where P Q q [] f h = tt
  All-delete_where P Q q (x ∷ xs) f h = elim (Bool-cases (q x)) [
    | inl e ↦ rw e (All-delete_where P Q q xs f h.1)
    | inr e ↦ rw e (f x e h.0, All-delete_where P Q q xs f h.1)
  ]

  pub All-select :
      (P Q : A → Type κ) (q : A → Bool) (xs : List A)
      → ((x : A) → q x ≡ true → P x → Q x)
      → All P xs
      → All Q (select q xs)
  unfolding select
  All-select P Q q [] f h = tt
  All-select P Q q (x ∷ xs) f h = elim (Bool-cases (q x)) [
    | inl e ↦ rw e (f x e h.0, All-select P Q q xs f h.1)
    | inr e ↦ rw e (All-select P Q q xs f h.1)
  ]

  pub All-update_where :
      (P Q : A → Type κ) (q : A → Bool) (f : A → A) (xs : List A)
      → ((x : A) → P x → Q x)
      → ((x : A) → P x → Q (f x))
      → All P xs
      → All Q (update_where q f xs)
  unfolding update_where
  All-update_where P Q q f [] keep change h = tt
  All-update_where P Q q f (x ∷ xs) keep change h = elim (Bool-cases (q x)) [
    | inl e ↦ rw e (change x h.0, All-update_where P Q q f xs keep change h.1)
    | inr e ↦ rw e (keep x h.0, All-update_where P Q q f xs keep change h.1)
  ]

module _ {ℓ} {A : Type ℓ} (key : A → Text) where
  pub Distinct-append :
      (xs : List A) (y : A)
      → any (λ x. key x == key y) xs ≡ false
      → Distinct key xs
      → Distinct key (xs ++ y ∷ [])
  unfolding any
  Distinct-append [] y h d = (tt, tt)
  Distinct-append (x ∷ xs) y h d = (
    All-append (λ z. (key z == key x) ≡ false) xs (y ∷ []) d.0
        (ground (arith, h, text_eq_iff (key x) (key y), text_eq_iff (key y) (key x))),
    Distinct-append xs y (ground arith) d.1,
  )

  pub Distinct-delete_where :
      (q : A → Bool) (xs : List A) → Distinct key xs → Distinct key (delete_where q xs)
  unfolding delete_where
  Distinct-delete_where q [] d = tt
  Distinct-delete_where q (x ∷ xs) d = elim (Bool-cases (q x)) [
    | inl e ↦ rw e (Distinct-delete_where q xs d.1)
    | inr e ↦ rw e (
      All-delete_where (λ y. (key y == key x) ≡ false) (λ y. (key y == key x) ≡ false) q xs
          (λ y _ k. k) d.0,
      Distinct-delete_where q xs d.1,
    )
  ]

  All-update_where_key :
      (k : Text) (q : A → Bool) (f : A → A) (xs : List A)
      → ((x : A) → key (f x) ≡ key x)
      → All (λ y. (key y == k) ≡ false) xs
      → All (λ y. (key y == k) ≡ false) (update_where q f xs)
  All-update_where_key k q f xs same h =
      All-update_where (λ y. (key y == k) ≡ false) (λ y. (key y == k) ≡ false) q f xs (λ y e. e)
        (λ y e. rw (same y) e) h

  -- An update that keeps the keys keeps them apart.
  pub Distinct-update_where :
      (q : A → Bool) (f : A → A) (xs : List A)
      → ((x : A) → key (f x) ≡ key x)
      → Distinct key xs
      → Distinct key (update_where q f xs)
  unfolding update_where
  Distinct-update_where q f [] same d = tt
  Distinct-update_where q f (x ∷ xs) same d = elim (Bool-cases (q x)) [
    | inl e ↦
        rw (e, same x)
          (All-update_where_key (key x) q f xs same d.0, Distinct-update_where q f xs same d.1)
    | inr e ↦
        rw e (All-update_where_key (key x) q f xs same d.0, Distinct-update_where q f xs same d.1)
  ]

module _ {ℓ} {A : Type ℓ} where
  pub delete_where-update_where :
      (p : A → Bool) (f : A → A) (xs : List A)
      → ((x : A) → p (f x) ≡ p x)
      → delete_where p (update_where p f xs) ≡ delete_where p xs
  unfolding delete_where update_where
  delete_where-update_where p f [] h = refl
  delete_where-update_where p f (x ∷ xs) h = ground (arith, h x, delete_where-update_where p f xs h)

  -- An update of every row that could pass, to a row that does not.
  pub any-update_where_of :
      (p q : A → Bool) (f : A → A) (xs : List A)
      → ((x : A) → q x ≡ true → p (f x) ≡ false)
      → ((x : A) → q x ≡ false → p x ≡ false)
      → any p (update_where q f xs) ≡ false
  unfolding any update_where
  any-update_where_of p q f [] h k = refl
  any-update_where_of p q f (x ∷ xs) h k =
      ground (arith, h x, k x, any-update_where_of p q f xs h k)

  -- No row passes, neither among those of `q` nor among the others.
  pub any-split :
      (p p' q : A → Bool) (xs : List A)
      → ((x : A) → p x ≡ true → q x ≡ true → p' x ≡ true)
      → any p (delete_where q xs) ≡ false
      → any p' xs ≡ false
      → any p xs ≡ false
  unfolding any delete_where
  any-split p p' q [] h k l = refl
  any-split p p' q (x ∷ xs) h k l = ground (arith, h x, any-split p p' q xs h)

  pub any-select :
      (p q : A → Bool) (xs : List A) → any (λ x. p x && q x) xs ≡ true → any p (select q xs) ≡ true
  unfolding any select
  any-select p q [] h = h
  any-select p q (x ∷ xs) h = ground (arith, any-select p q xs)

  -- A row that passes `r` passes `q`, and `p` after the update.
  pub any-update_where_to :
      (p q r : A → Bool) (f : A → A) (xs : List A)
      → ((x : A) → r x ≡ true → q x ≡ true)
      → ((x : A) → r x ≡ true → p (f x) ≡ true)
      → any r xs ≡ true
      → any p (update_where q f xs) ≡ true
  unfolding any update_where
  any-update_where_to p q r f [] g h k = k
  any-update_where_to p q r f (x ∷ xs) g h k =
      ground (arith, g x, h x, any-update_where_to p q r f xs g h)
