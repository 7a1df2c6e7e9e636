-- ===== src/Store/Pool.antt =====
-- The warm_pool_entries table of internal/store/sqlite/store.go.
use sleigh.Prelude.{
  ℕ, Text, Bool, ◌&&◌, Option, none, some, [], ◌∷◌, ◌++◌, ◌==◌, codes, text_lt, any, select,
  delete_where, count_where, order_by, if◌then◌else◌,
}
use sleigh.Prelude.Int.{ℤ, eqb_ℤ}
use sleigh.Errors.{ok, err, failure}
use sleigh.Action.{Action}
use sleigh.Store.Schema.{Db, WarmPoolEntry, has_sandbox, first}

unfoldable pub create_warm_pool_entry : WarmPoolEntry → Action Db (Unit {0})
unfolding has_sandbox any
create_warm_pool_entry e db =
    if any (λ x. x.sandbox_id == e.sandbox_id) db.warm_pool
    then (err (failure (codes "insert warm pool entry: UNIQUE constraint failed")), db)
    else if has_sandbox db e.sandbox_id
    then (ok tt, record db { warm_pool = db.warm_pool ++ e ∷ [] })
    else (err (failure (codes "insert warm pool entry: FOREIGN KEY constraint failed")), db)

-- image = ? AND memory_mb = ?
unfoldable pub fits : Text → ℤ → WarmPoolEntry → Bool
fits image memory_mb e = (e.image == image) && eqb_ℤ e.memory_mb memory_mb

-- SELECT … ORDER BY created_at ASC LIMIT 1
unfoldable pub oldest_fit : Text → ℤ → Db → Option WarmPoolEntry
unfolding fits select order_by
oldest_fit image memory_mb db = first (
    order_by (λ a b. text_lt a.created_at b.created_at)
      (select (fits image memory_mb) db.warm_pool))

-- The transaction takes the entry found out of the pool; no row is `ok == false`.
abbrev pub take_entry : Option WarmPoolEntry → Action Db (Option Text)
take_entry none db = (ok none, db)
take_entry (some e) db = (
  ok (some e.sandbox_id),
  record db { warm_pool = delete_where (λ x. x.sandbox_id == e.sandbox_id) db.warm_pool },
)

unfoldable pub acquire_warm_pool_entry : Text → ℤ → Action Db (Option Text)
unfolding delete_where
acquire_warm_pool_entry image memory_mb db = take_entry (oldest_fit image memory_mb db) db

unfoldable pub count_warm_pool_available : Text → ℤ → Action Db ℕ
unfolding fits count_where
count_warm_pool_available image memory_mb db =
    (ok (count_where (fits image memory_mb) db.warm_pool), db)
