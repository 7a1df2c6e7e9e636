-- ===== src/Store/Acquire.antt =====
-- AcquireWarmPoolEntry: a pooled sandbox is handed out once, the oldest that fits first.
use sleigh.Prelude.{
  Text, ◌==◌, ◌≡◌, ◌≢◌, refl, sym, ap, subst, ◌∙◌, ◌↔◌, Bool, true, false, Bool-cases, Option, none,
  some, List, [], ◌∷◌, arith, length, All, any, select, delete_where, count_where, insert_by,
  order_by, text_eq_iff, text_lt, inl, inr,
}
use sleigh.Prelude.Int.{ℤ}
use sleigh.Prelude.Rows.{All-select, any-delete_where_self, length-select}
use sleigh.Prelude.Sorting.{
  Sorted, IsOrder, below_irrefl, text-IsOrder, order_by-Sorted, All-order_by, All-of_order_by,
}
use sleigh.Errors.{Result, ok}
use sleigh.Store.Schema.{Db, WarmPoolEntry, first}
use sleigh.Store.Pool.{
  fits, oldest_fit, take_entry, acquire_warm_pool_entry, count_warm_pool_available,
}

first-All {κ} :
    {A : Type 0} (P : A → Type κ) (xs : List A) {e : A} → All P xs → first xs ≡ some e → P e
first-All P [] h f = cc
first-All P (x ∷ xs) {e} h f = let same : x ≡ e = cc in rw (← same) h.0

head-least :
    {A : Type 0} (below : A → A → Bool) (o : IsOrder below) (l : List A) {e : A}
    → Sorted below l
    → first l ≡ some e
    → All (λ y. below y e ≡ false) l
head-least below o [] s f = tt
head-least below o (x ∷ l) {e} s f =
    let same : x ≡ e = cc in
    subst (λ z. All (λ y. below y z ≡ false) (x ∷ l)) same (below_irrefl below o x, s.0)

-- The first row of a sorted list is the least.
first-least :
    {A : Type 0} (below : A → A → Bool) (o : IsOrder below) (xs : List A) {e : A}
    → first (order_by below xs) ≡ some e
    → All (λ y. below y e ≡ false) xs
first-least below o xs {e} f =
    All-of_order_by below (λ y. below y e ≡ false) xs
      (head-least below o (order_by below xs) (order_by-Sorted below o xs) f)

first-insert_by :
    {A : Type 0} (below : A → A → Bool) (x : A) (xs : List A) → first (insert_by below x xs) ≢ none
unfolding insert_by
first-insert_by below x [] = ground arith
first-insert_by below x (y ∷ ys) = ground arith

first-none :
    {A : Type 0} (below : A → A → Bool) (xs : List A) → first (order_by below xs) ≡ none → xs ≡ []
unfolding order_by
first-none below [] h = refl
first-none below (x ∷ xs) h = absurd (first-insert_by below x (order_by below xs) h)

abbrev older : WarmPoolEntry → WarmPoolEntry → Bool
older a b = text_lt a.created_at b.created_at

module _ (image : Text) (memory_mb : ℤ) (db : Db) {e : WarmPoolEntry} where
  -- What holds of every entry of the pool holds of the one found, and it fits.
  oldest_fit-All :
      (P : WarmPoolEntry → Type 0)
      → All P db.warm_pool
      → oldest_fit image memory_mb db ≡ some e
      → P e × (fits image memory_mb e ≡ true)
  unfolding oldest_fit
  oldest_fit-All P h f =
      first-All (λ x. P x × (fits image memory_mb x ≡ true)) _
        (All-order_by older _ _ (
          All-select P (λ x. P x × (fits image memory_mb x ≡ true)) (fits image memory_mb)
            db.warm_pool (λ x t p. (p, t)) h))
        f

  oldest_fit-least :
      oldest_fit image memory_mb db ≡ some e
      → All (λ y. older y e ≡ false) (select (fits image memory_mb) db.warm_pool)
  unfolding oldest_fit
  oldest_fit-least f =
      first-least older (text-IsOrder (λ x. x.created_at))
        (select (fits image memory_mb) db.warm_pool) f

oldest_fit-none :
    (image : Text) (memory_mb : ℤ) (db : Db)
    → oldest_fit image memory_mb db ≡ none
    → select (fits image memory_mb) db.warm_pool ≡ []
unfolding oldest_fit
oldest_fit-none image memory_mb db h =
    first-none older (select (fits image memory_mb) db.warm_pool) h

listed :
    (l : List WarmPoolEntry) (a : Text)
    → any (λ x. x.sandbox_id == a) l ≡ false
    → All (λ x. (x.sandbox_id == a) ≡ false) l
unfolding any
listed [] a h = tt
listed (x ∷ l) a h = (ground arith, listed l a (ground arith))

All-unit : (l : List WarmPoolEntry) → All (λ _. Unit {0}) l
All-unit [] = tt
All-unit (x ∷ l) = (tt, All-unit l)

taken :
    (db : Db) {db' : Db} {a : Text} (o : Option WarmPoolEntry)
    → take_entry o db ≡ (ok (some a), db')
    → (e : WarmPoolEntry) × (o ≡ some e)
      × (e.sandbox_id ≡ a)
      × (db' ≡ record db { warm_pool = delete_where (λ x. x.sandbox_id == a) db.warm_pool })
taken db none h = cc
taken db {db'} {a} (some e) h =
    let same : e.sandbox_id ≡ a = cc in
    (
      e,
      refl,
      same,
      sym (ap (λ (p : Result (Option Text) × Db). p.1) h)
          ∙ ap (λ b. record db { warm_pool = delete_where (λ x. x.sandbox_id == b) db.warm_pool })
              same,
    )

-- A sandbox that is handed out fits the request, was in the pool, and no entry that fits is older;
-- afterwards the pool has lost the entries of that sandbox, and nothing else of the store changed.
pub acquire_warm_pool_entry_lem :
    (image : Text) (memory_mb : ℤ) (db db' : Db) (a : Text)
    → acquire_warm_pool_entry image memory_mb db ≡ (ok (some a), db')
    → (e : WarmPoolEntry) × (e.sandbox_id ≡ a)
      × (fits image memory_mb e ≡ true)
      × (any (λ x. x.sandbox_id == a) db.warm_pool ≡ true)
      × All
          (λ y. text_lt y.created_at e.created_at ≡ false)
          (select (fits image memory_mb) db.warm_pool)
      × (db' ≡ record db { warm_pool = delete_where (λ x. x.sandbox_id == a) db.warm_pool })
unfolding acquire_warm_pool_entry
acquire_warm_pool_entry_lem image memory_mb db db' a h =
    let (e, f, same, after) = taken db (oldest_fit image memory_mb db) h in
    (
      e,
      same,
      (oldest_fit-All image memory_mb db (λ _. Unit {0}) (All-unit db.warm_pool) f).1,
      elim (Bool-cases (any (λ x. x.sandbox_id == a) db.warm_pool)) [
        | inl t ↦ t
        | inr u ↦
            let other : (e.sandbox_id == a) ≡ false =
              (oldest_fit-All image memory_mb db (λ x. (x.sandbox_id == a) ≡ false)
                (listed db.warm_pool a u) f).0 in
            ground (arith, other, text_eq_iff e.sandbox_id a)
      ],
      oldest_fit-least image memory_mb db f,
      after,
    )

-- Two acquisitions in a row, for any requests, never hand out one sandbox twice.
pub acquire_twice_distinct :
    (image image' : Text) (memory_mb memory_mb' : ℤ) (db db' db'' : Db) (a b : Text)
    → acquire_warm_pool_entry image memory_mb db ≡ (ok (some a), db')
    → acquire_warm_pool_entry image' memory_mb' db' ≡ (ok (some b), db'')
    → a ≢ b
acquire_twice_distinct image image' memory_mb memory_mb' db db' db'' a b h k same =
    let (e, _, _, _, _, after) = acquire_warm_pool_entry_lem image memory_mb db db' a h in
    let (f, _, _, there, _, _) = acquire_warm_pool_entry_lem image' memory_mb' db' db'' b k in
    let gone : any (λ x. x.sandbox_id == a) db'.warm_pool ≡ false =
      rw after (any-delete_where_self (λ x. x.sandbox_id == a) db.warm_pool) in
    let back : any (λ x. x.sandbox_id == a) db'.warm_pool ≡ true = rw same there in cc

length-zero : (l : List WarmPoolEntry) → length l ≡ 0 → l ≡ []
length-zero [] h = refl
length-zero (x ∷ l) h = absurd (omega arith)

taken-none : (db : Db) (o : Option WarmPoolEntry) → ((take_entry o db).0 ≡ ok none) ↔ (o ≡ none)
taken-none db none = (λ _. refl, λ _. refl)
taken-none db (some e) = (λ h. cc, λ h. cc)

oldest_fit-none_iff :
    (image : Text) (memory_mb : ℤ) (db : Db)
    → (oldest_fit image memory_mb db ≡ none) ↔ (count_where (fits image memory_mb) db.warm_pool ≡ 0)
oldest_fit-none_iff image memory_mb db = (
  λ h.
      sym (length-select (fits image memory_mb) db.warm_pool)
      ∙ ap length (oldest_fit-none image memory_mb db h),
  λ h.
      unfold oldest_fit in
      rw
        (length-zero (select (fits image memory_mb) db.warm_pool)
          (length-select (fits image memory_mb) db.warm_pool ∙ h))
        refl,
)

-- Nothing is handed out exactly when the count of what fits is 0.
pub acquire-none_iff :
    (image : Text) (memory_mb : ℤ) (db : Db)
    → ((acquire_warm_pool_entry image memory_mb db).0 ≡ ok none)
      ↔ ((count_warm_pool_available image memory_mb db).0 ≡ ok 0)
unfolding acquire_warm_pool_entry count_warm_pool_available
acquire-none_iff image memory_mb db =
    let t = taken-none db (oldest_fit image memory_mb db) in
    let z = oldest_fit-none_iff image memory_mb db in
    (λ h. ap ok (z.0 (t.0 h)), λ h. t.1 (z.1 (cc)))
