-- ===== src/Store/Walk.antt =====
-- A client of ListExecTasksBySession that asks for page after page, as the README's SDK users do,
-- and what it collects.
use sleigh.Prelude.{
  ℕ, zero, suc, ◌-◌, ◌≤◌, ◌<◌, Text, ◌≡◌, refl, sym, ap, ◌∙◌, Option, none, some, List, [], ◌∷◌,
  ◌++◌, map, arith, length, select, order_by, take, drop, length-take, length-drop, length-map,
  take-append-drop, ◌⊎◌, inl, inr,
}
use mathlib.Core.List.{append_assoc, map-append}
use sleigh.Prelude.Int.{ℤ, pos, pos_part, ◌<ℤ◌, ◌≤ℤ◌}
use sleigh.Errors.{Result, ok, err}
use sleigh.Store.Schema.{Db, ExecTaskRow, ExecTaskRecord}
use sleigh.Store.Execs.{
  record_of_row, clamp_limit, in_session, newer, history_rows, list_exec_tasks_by_session,
}
use sleigh.Store.Paging.{IsKeyed, history_rows-start, history_rows-after}

abbrev pub last_of {ℓ} : {A : Type ℓ} → List A → Option A
last_of [] = none
last_of (x ∷ []) = some x
last_of (x ∷ y ∷ l) = last_of (y ∷ l)

abbrev pub rows_of : Result (List ExecTaskRecord) → List ExecTaskRecord
rows_of (ok rows) = rows
rows_of (err e) = []

-- One page.
unfoldable pub page : Text → ℤ → Text → Text → Db → List ExecTaskRecord
unfolding list_exec_tasks_by_session
page session_id limit started_at exec_id db =
    rows_of (list_exec_tasks_by_session session_id limit started_at exec_id db).0

abbrev collect :
    Option ExecTaskRecord
    → List ExecTaskRecord
    → (Text → Text → List ExecTaskRecord)
    → List ExecTaskRecord
collect none rows next = []
collect (some r) rows next = rows ++ next r.started_at r.id

-- Pages until one is empty; the cursor is the last row of the page before.
pub fetch_all : ℕ → Text → ℤ → Text → Text → Db → List ExecTaskRecord
fetch_all zero session_id limit started_at exec_id db = []
fetch_all (suc fuel) session_id limit started_at exec_id db =
    let rows = page session_id limit started_at exec_id db in
    collect (last_of rows) rows (λ ts eid. fetch_all fuel session_id limit ts eid db)

clamp_limit_bounds : (limit : ℤ) → (1 ≤ clamp_limit limit) × (clamp_limit limit ≤ 200)
unfolding clamp_limit
clamp_limit_bounds limit = ground arith

clamp_limit-suc : (limit : ℤ) → clamp_limit limit ≡ suc (clamp_limit limit - 1)
clamp_limit-suc limit = omega (arith, clamp_limit_bounds limit)

ℤ-sign : (limit : ℤ) → (pos 0 <ℤ limit) ⊎ (limit ≤ℤ pos 0)
ℤ-sign limit = omega arith

-- A page of the history has at most 200 rows, and at most as many as the limit, or 20 if the limit
-- is not positive.
pub page_bounds :
    (session_id : Text) (limit : ℤ) (started_at exec_id : Text) (db : Db)
    → (length (page session_id limit started_at exec_id db) ≤ 200)
      × (((pos 0 <ℤ limit)
            × (length (page session_id limit started_at exec_id db) ≤ pos_part limit))
          ⊎ ((limit ≤ℤ pos 0) × (length (page session_id limit started_at exec_id db) ≤ 20)))
unfolding page
page_bounds s limit ts eid db =
    let h = history_rows s ts eid db in
    let t = take (clamp_limit limit) h in
    let e : length (map record_of_row t) ≤ clamp_limit limit =
      omega (arith, length-map t record_of_row, length-take (clamp_limit limit) h) in
    (
      omega (arith, e, clamp_limit_bounds limit),
      elim (ℤ-sign limit) [
        | inl g ↦ inl (g, unfold clamp_limit in ground (arith, e, g))
        | inr g ↦ inr (g, unfold clamp_limit in ground (arith, e, g))
      ],
    )

split_last {ℓ} :
    {A : Type ℓ} (x : A) (l : List A)
    → (p : List A) × (r : A) × (last_of (x ∷ l) ≡ some r) × (x ∷ l ≡ p ++ r ∷ [])
split_last x [] = ([], x, refl, refl)
split_last x (y ∷ l) = let (p, r, e, s) = split_last y l in (x ∷ p, r, e, ap (λ t. x ∷ t) s)

last_of-map {ℓ κ} :
    {A : Type ℓ} {B : Type κ} (f : A → B) (l : List A) {r : A}
    → last_of l ≡ some r
    → last_of (map f l) ≡ some (f r)
last_of-map f [] h = ground arith
last_of-map f (x ∷ []) h = ground arith
last_of-map f (x ∷ y ∷ l) h = last_of-map f (y ∷ l) h

module _ (db : Db) (session_id : Text) (limit : ℤ) (keyed : IsKeyed db) where
  page-eq :
      (ts eid : Text) (q : List ExecTaskRow)
      → history_rows session_id ts eid db ≡ q
      → page session_id limit ts eid db ≡ map record_of_row (take (clamp_limit limit) q)
  unfolding page
  page-eq ts eid q e = rw e

  -- One page of the walk: its last row, and what the history holds behind it.
  page_step :
      (k : ℕ) (p : List ExecTaskRow) (x : ExecTaskRow) (xs : List ExecTaskRow)
      → history_rows session_id [] [] db ≡ p ++ x ∷ xs
      → (p' : List ExecTaskRow) × (r : ExecTaskRow) × (last_of (x ∷ take k xs) ≡ some r)
        × (history_rows session_id [] [] db ≡ p' ++ drop k xs)
        × (history_rows session_id r.started_at r.id db ≡ drop k xs)
  page_step k p x xs whole =
      let (f, r, l, s) = split_last x (take k xs) in
      let here : x ∷ xs ≡ f ++ r ∷ drop k xs =
        ap (λ t. x ∷ t) (sym (take-append-drop k xs))
        ∙ ap (λ t. t ++ drop k xs) s
        ∙ append_assoc f (r ∷ []) (drop k xs) in
      let split : history_rows session_id [] [] db ≡ (p ++ f) ++ r ∷ drop k xs =
        whole ∙ ap (λ t. p ++ t) here ∙ sym (append_assoc p f (r ∷ drop k xs)) in
      (
        (p ++ f) ++ r ∷ [],
        r,
        l,
        split ∙ sym (append_assoc (p ++ f) (r ∷ []) (drop k xs)),
        history_rows-after db session_id keyed (p ++ f) r (drop k xs) split,
      )

  walk :
      (fuel : ℕ) (ts eid : Text) (p q : List ExecTaskRow)
      → length q < fuel
      → history_rows session_id [] [] db ≡ p ++ q
      → history_rows session_id ts eid db ≡ q
      → fetch_all fuel session_id limit ts eid db ≡ map record_of_row q
  unfolding fetch_all record_of_row
  walk zero ts eid p q f whole e = absurd (omega arith)
  walk (suc fuel) ts eid p [] f whole e = rw (page-eq ts eid [] e, clamp_limit-suc limit)
  walk (suc fuel) ts eid p (x ∷ xs) f whole e =
      let k = clamp_limit limit - 1 in
      let (p', r, l, whole', after) = page_step k p x xs whole in
      rw
        (
          page-eq ts eid (x ∷ xs) e,
          clamp_limit-suc limit,
          last_of-map record_of_row (x ∷ take k xs) l,
        )
        (ap (λ t. record_of_row x ∷ t)
          (ap (λ t. map record_of_row (take k xs) ++ t)
              (walk fuel r.started_at r.id p' (drop k xs) (omega (arith, length-drop k xs)) whole'
                after)
            ∙ sym (map-append record_of_row (take k xs) (drop k xs))
            ∙ ap (map record_of_row) (take-append-drop k xs)))

  -- With the tasks' ids apart and no id or start empty, page after page of ListExecTasksBySession,
  -- each from the cursor of the last row of the page before, one round more than there are rows,
  -- gives the session's tasks, each once, newest first.
  pub fetch_all_lem :
      fetch_all (suc (length (history_rows session_id [] [] db))) session_id limit [] [] db
      ≡ map record_of_row (order_by newer (select (in_session db session_id) db.exec_tasks))
  fetch_all_lem =
      walk (suc (length (history_rows session_id [] [] db))) [] [] []
        (history_rows session_id [] [] db) (omega arith) refl refl
      ∙ ap (map record_of_row) (history_rows-start db session_id)
