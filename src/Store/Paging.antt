-- ===== src/Store/Paging.antt =====
-- ListExecTasksBySession: the pages that follow one another's cursors are the whole history.
use sleigh.Prelude.{
  Text, ◌==◌, ◌≡◌, refl, ap, true, false, List, [], ◌∷◌, ◌++◌, arith, All, select, order_by,
  text_eq_iff, text_lt_irrefl, text_lt-asym, text_lt-negtrans, text_lt_total,
}
use sleigh.Prelude.Rows.{All-select, Distinct}
use sleigh.Prelude.Sorting.{
  Sorted, IsOrder, All-order_by, order_by-Distinct, select-Distinct, order_by-Sorted,
  select-order_by,
}
use sleigh.Store.Schema.{Db, ExecTaskRow}
use sleigh.Store.Execs.{in_session, newer, history_rows}

newer-IsOrder : IsOrder newer
unfolding newer
newer-IsOrder = record {
  asym = λ x y h. ground (
    arith,
    text_lt-asym x.started_at y.started_at,
    text_lt-asym y.started_at x.started_at,
    text_lt-asym y.id x.id,
    text_lt_irrefl x.started_at,
    text_eq_iff y.started_at x.started_at,
    text_eq_iff x.started_at y.started_at,
  );
  negtrans = λ x y z h k. ground (
    arith,
    text_lt-negtrans x.started_at z.started_at y.started_at,
    text_lt-negtrans x.id z.id y.id,
    text_lt_total x.started_at y.started_at,
    text_eq_iff x.started_at z.started_at,
    text_eq_iff x.started_at y.started_at,
    text_eq_iff y.started_at z.started_at,
  );
}

-- Of two rows with different ids, one is newer.
newer_total : (r q : ExecTaskRow) → (q.id == r.id) ≡ false → newer q r ≡ false → newer r q ≡ true
unfolding newer
newer_total r q d h = ground (
  arith,
  text_lt_total r.started_at q.started_at,
  text_lt_total r.id q.id,
  text_eq_iff r.started_at q.started_at,
  text_eq_iff q.started_at r.started_at,
  text_eq_iff q.id r.id,
)

newer_irrefl : (r : ExecTaskRow) → newer r r ≡ false
unfolding newer
newer_irrefl r = ground (arith, text_lt_irrefl r.started_at, text_lt_irrefl r.id)

All-middle {ℓ κ} :
    {A : Type ℓ} (P : A → Type κ) (xs : List A) (y : A) (ys : List A) → All P (xs ++ y ∷ ys) → P y
All-middle P [] y ys h = h.0
All-middle P (x ∷ xs) y ys h = All-middle P xs y ys h.1

select_self :
    (r : ExecTaskRow) (xs : List ExecTaskRow)
    → All (λ q. newer q r ≡ false) xs
    → All (λ q. (q.id == r.id) ≡ false) xs
    → select (newer r) xs ≡ xs
unfolding select
select_self r [] h d = refl
select_self r (q ∷ xs) h d =
    rw (newer_total r q d.0 h.0) (ap (λ l. q ∷ l) (select_self r xs h.1 d.1))

-- In a sorted history, the rows that a cursor lets through are those behind its row.
select-after :
    (p : List ExecTaskRow) (r : ExecTaskRow) (q : List ExecTaskRow)
    → Sorted newer (p ++ r ∷ q)
    → Distinct (λ t. t.id) (p ++ r ∷ q)
    → select (newer r) (p ++ r ∷ q) ≡ q
unfolding select
select-after [] r q s d = rw (newer_irrefl r) (select_self r q s.0 d.0)
select-after (x ∷ p) r q s d =
    rw (All-middle (λ y. newer y x ≡ false) p r q s.0) (select-after p r q s.1 d.1)

-- What the program sees to: ids are apart, and no row lacks its id or its start.
pub record IsKeyed (db : Db) : Type 0 where
  pub distinct : Distinct (λ t. t.id) db.exec_tasks
  pub started : All (λ (t : ExecTaskRow). (t.started_at == []) ≡ false) db.exec_tasks
  pub named : All (λ (t : ExecTaskRow). (t.id == []) ≡ false) db.exec_tasks

module _ (db : Db) (session_id : Text) where
  abbrev pub session_rows : List ExecTaskRow
  session_rows = select (in_session db session_id) db.exec_tasks

  pub history_rows-start : history_rows session_id [] [] db ≡ order_by newer session_rows
  unfolding history_rows ◌==◌
  history_rows-start = refl

  history_rows-cursor :
      (r : ExecTaskRow)
      → (r.started_at == []) ≡ false
      → (r.id == []) ≡ false
      → history_rows session_id r.started_at r.id db
        ≡ order_by newer (select (newer r) session_rows)
  unfolding history_rows
  history_rows-cursor r h k = rw (h, k) refl

  -- A property of every task holds of every row of the history.
  pub All-history :
      (P : ExecTaskRow → Type 0) → All P db.exec_tasks → All P (history_rows session_id [] [] db)
  All-history P h = rw history_rows-start (
      All-order_by newer P session_rows
        (All-select P P (in_session db session_id) db.exec_tasks (λ x _ k. k) h))

  module _ (keyed : IsKeyed db) where
    -- The rows behind a row of the history are what its cursor finds.
    pub history_rows-after :
        (p : List ExecTaskRow) (r : ExecTaskRow) (q : List ExecTaskRow)
        → history_rows session_id [] [] db ≡ p ++ r ∷ q
        → history_rows session_id r.started_at r.id db ≡ q
    history_rows-after p r q e =
        rw
          (
            history_rows-cursor r
                (All-middle (λ t. (t.started_at == []) ≡ false) p r q
                  (rw e at (All-history (λ t. (t.started_at == []) ≡ false) keyed.started)))
                (All-middle (λ t. (t.id == []) ≡ false) p r q
                  (rw e at (All-history (λ t. (t.id == []) ≡ false) keyed.named))),
            ← select-order_by newer newer-IsOrder (newer r) session_rows,
            ← history_rows-start,
            e,
          )
          (select-after p r q sorted distinct)
      where
        sorted : Sorted newer (p ++ r ∷ q)
        sorted = rw (← e) (rw history_rows-start (order_by-Sorted newer newer-IsOrder session_rows))

        distinct : Distinct (λ t. t.id) (p ++ r ∷ q)
        distinct = rw (← e) (
            rw history_rows-start (
              order_by-Distinct newer (λ t. t.id) session_rows
                (select-Distinct (λ t. t.id) (in_session db session_id) db.exec_tasks
                  keyed.distinct)))
