-- ===== src/Prelude/Sorting.antt =====
-- ORDER BY: the result is sorted, keeps what holds of every row, and commutes with WHERE.
use sleigh.Prelude.{
  Text, ◌==◌, ◌≡◌, refl, ap, ◌∙◌, Bool, true, false, ◌||◌, any, List, [], ◌∷◌, arith, All, select,
  insert_by, order_by, if◌then◌else◌, text_eq_iff, Bool-cases, inl, inr, text_lt, text_lt-asym,
  text_lt_trans, text_lt-negtrans, text_lt_total,
}
use sleigh.Prelude.Rows.{All-mono, All-select, Distinct}

abbrev pub Sorted {ℓ} : {A : Type ℓ} → (A → A → Bool) → List A → Type 0
Sorted below [] = Unit
Sorted below (x ∷ xs) = All (λ y. below y x ≡ false) xs × Sorted below xs

-- A strict weak order.
pub record IsOrder {ℓ} {A : Type ℓ} (below : A → A → Bool) : Type ℓ where
  pub asym : (x y : A) → below x y ≡ true → below y x ≡ false
  pub negtrans : (x y z : A) → below z x ≡ true → below y x ≡ false → below z y ≡ true

module _ {ℓ} {A : Type ℓ} (below : A → A → Bool) where
  pub insert_by-front :
      (x : A) (xs : List A) → All (λ z. below z x ≡ false) xs → insert_by below x xs ≡ x ∷ xs
  unfolding insert_by
  insert_by-front x [] h = refl
  insert_by-front x (y ∷ ys) h = rw (h.0)

  pub All-insert_by {κ} :
      (P : A → Type κ) (x : A) (xs : List A) → P x → All P xs → All P (insert_by below x xs)
  unfolding insert_by
  All-insert_by P x [] px h = (px, tt)
  All-insert_by P x (y ∷ ys) px h = elim (Bool-cases (below y x)) [
    | inl e ↦ rw e (h.0, All-insert_by P x ys px h.1)
    | inr e ↦ rw e (px, h)
  ]

  pub All-order_by {κ} : (P : A → Type κ) (xs : List A) → All P xs → All P (order_by below xs)
  unfolding order_by
  All-order_by P [] h = tt
  All-order_by P (x ∷ xs) h = All-insert_by P x (order_by below xs) h.0 (All-order_by P xs h.1)

  module _ (key : A → Text) where
    insert_by-Distinct :
        (x : A) (xs : List A)
        → All (λ y. (key y == key x) ≡ false) xs
        → Distinct key xs
        → Distinct key (insert_by below x xs)
    unfolding insert_by
    insert_by-Distinct x [] h d = (tt, tt)
    insert_by-Distinct x (y ∷ ys) h d = elim (Bool-cases (below y x)) [
      | inl e ↦ rw e (
        All-insert_by (λ z. (key z == key y) ≡ false) x ys
            (ground (arith, h.0, text_eq_iff (key x) (key y), text_eq_iff (key y) (key x))) d.0,
        insert_by-Distinct x ys h.1 d.1,
      )
      | inr e ↦ rw e (h, d)
    ]

    pub order_by-Distinct : (xs : List A) → Distinct key xs → Distinct key (order_by below xs)
    unfolding order_by
    order_by-Distinct [] d = tt
    order_by-Distinct (x ∷ xs) d =
        insert_by-Distinct x (order_by below xs)
          (All-order_by (λ y. (key y == key x) ≡ false) xs d.0) (order_by-Distinct xs d.1)

pub select-Distinct {ℓ} :
    {A : Type ℓ} (key : A → Text) (p : A → Bool) (xs : List A)
    → Distinct key xs
    → Distinct key (select p xs)
unfolding select
select-Distinct key p [] d = tt
select-Distinct key p (x ∷ xs) d = elim (Bool-cases (p x)) [
  | inl e ↦ rw e (
    All-select (λ y. (key y == key x) ≡ false) (λ y. (key y == key x) ≡ false) p xs (λ y _ k. k)
        d.0,
    select-Distinct key p xs d.1,
  )
  | inr e ↦ rw e (select-Distinct key p xs d.1)
]

module _ {ℓ} {A : Type ℓ} (below : A → A → Bool) (o : IsOrder below) where
  insert_by-Sorted : (x : A) (xs : List A) → Sorted below xs → Sorted below (insert_by below x xs)
  unfolding insert_by
  insert_by-Sorted x [] s = (tt, tt)
  insert_by-Sorted x (y ∷ ys) s = elim (Bool-cases (below y x)) [
    | inl e ↦ rw e (
      All-insert_by below (λ z. below z y ≡ false) x ys (o.asym y x e) s.0,
      insert_by-Sorted x ys s.1,
    )
    | inr e ↦ rw e (
      (
        e,
        All-mono (λ z. below z y ≡ false) (λ z. below z x ≡ false) ys
            (λ z h. ground (arith, h, e, o.negtrans x y z)) s.0,
      ),
      s,
    )
  ]

  pub order_by-Sorted : (xs : List A) → Sorted below (order_by below xs)
  unfolding order_by
  order_by-Sorted [] = tt
  order_by-Sorted (x ∷ xs) = insert_by-Sorted x (order_by below xs) (order_by-Sorted xs)

  select-insert_by :
      (p : A → Bool) (x : A) (xs : List A)
      → Sorted below xs
      → select p (insert_by below x xs)
        ≡ (if p x then insert_by below x (select p xs) else select p xs)
  unfolding insert_by select
  select-insert_by p x [] s = ground arith
  select-insert_by p x (y ∷ ys) s = elim (Bool-cases (below y x)) [
    | inl e ↦ rw e (ground (arith, select-insert_by p x ys s.1))
    | inr e ↦ rw e (ground (arith, insert_by-front below x (select p (y ∷ ys)) (rest e)))
  ]
    where
      rest : below y x ≡ false → All (λ z. below z x ≡ false) (select p (y ∷ ys))
      rest e =
          All-select (λ z. below z x ≡ false) (λ z. below z x ≡ false) p (y ∷ ys) (λ z _ h. h)
            (
              e,
              All-mono (λ z. below z y ≡ false) (λ z. below z x ≡ false) ys
                  (λ z h. ground (arith, h, e, o.negtrans x y z)) s.0,
            )

  -- WHERE after ORDER BY is ORDER BY after WHERE.
  pub select-order_by :
      (p : A → Bool) (xs : List A) → select p (order_by below xs) ≡ order_by below (select p xs)
  unfolding order_by select
  select-order_by p [] = refl
  select-order_by p (x ∷ xs) =
      ground
        (arith, select-insert_by p x (order_by below xs) (order_by-Sorted xs), select-order_by p xs)

  pub below_irrefl : (x : A) → below x x ≡ false
  below_irrefl x = elim (Bool-cases (below x x)) [ inl e ↦ o.asym x x e | inr e ↦ e ]

module _ {ℓ κ} {A : Type ℓ} (below : A → A → Bool) (P : A → Type κ) where
  All-of_insert_by : (x : A) (xs : List A) → All P (insert_by below x xs) → P x × All P xs
  unfolding insert_by
  All-of_insert_by x [] h = (h.0, tt)
  All-of_insert_by x (y ∷ ys) h = elim (Bool-cases (below y x)) [
    | inl e ↦
        let k : All P (y ∷ insert_by below x ys) = rw e at h in
        let (px, ps) = All-of_insert_by x ys k.1 in (px, (k.0, ps))
    | inr e ↦ rw e at h
  ]

  -- What holds of every row of the sorted list holds of every row.
  pub All-of_order_by : (xs : List A) → All P (order_by below xs) → All P xs
  unfolding order_by
  All-of_order_by [] h = tt
  All-of_order_by (x ∷ xs) h =
      let (px, ps) = All-of_insert_by x (order_by below xs) h in (px, All-of_order_by xs ps)

-- The order of rows by a text column.
pub text-IsOrder {ℓ} : {A : Type ℓ} (key : A → Text) → IsOrder (λ a b. text_lt (key a) (key b))
text-IsOrder key = record {
  asym = λ x y h. text_lt-asym (key x) (key y) h;
  negtrans = λ x y z h k. ground (
    arith,
    text_lt-negtrans (key z) (key x) (key y),
    text_lt_trans (key y) (key z) (key x),
    text_lt_total (key y) (key x),
    text_lt_total (key z) (key y),
    h,
    k,
  );
}

module _ {A : Type 0} (below : A → A → Bool) (q : A → Bool) where
  any-insert_by : (x : A) (xs : List A) → any q (insert_by below x xs) ≡ (q x || any q xs)
  unfolding any insert_by
  any-insert_by x [] = refl
  any-insert_by x (y ∷ ys) = ground (arith, any-insert_by x ys)

  pub any-order_by : (xs : List A) → any q (order_by below xs) ≡ any q xs
  unfolding any order_by
  any-order_by [] = refl
  any-order_by (x ∷ xs) = any-insert_by x (order_by below xs) ∙ ap (λ t. q x || t) (any-order_by xs)
