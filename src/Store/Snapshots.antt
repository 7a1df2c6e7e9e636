-- ===== src/Store/Snapshots.antt =====
-- The snapshots table of internal/store/sqlite/store.go.
use sleigh.Prelude.{
  Text, ◌&&◌, List, [], ◌∷◌, ◌++◌, ◌==◌, codes, text_lt, any, find?, select, delete_where, order_by,
  if◌then◌else◌,
}
use sleigh.Errors.{ok, err, not_found, failure}
use sleigh.Action.{Action}
use sleigh.Store.Schema.{Db, SnapshotRecord, has_sandbox, or_not_found, first}

-- An empty type is stored as "container".
unfoldable pub stored_snapshot : SnapshotRecord → SnapshotRecord
stored_snapshot r = if r.type == [] then record r { type = codes "container" } else r

unfoldable pub create_snapshot : SnapshotRecord → Action Db (Unit {0})
unfolding stored_snapshot has_sandbox any
create_snapshot r db =
    if any (λ m. m.id == r.id) db.snapshots
    then (err (failure (codes "insert snapshot: UNIQUE constraint failed")), db)
    else if has_sandbox db r.sandbox_id
    then (ok tt, record db { snapshots = db.snapshots ++ stored_snapshot r ∷ [] })
    else (err (failure (codes "insert snapshot: FOREIGN KEY constraint failed")), db)

unfoldable pub list_snapshots : Text → Action Db (List SnapshotRecord)
unfolding select order_by
list_snapshots sandbox_id db = (
  ok (
      order_by (λ a b. text_lt b.created a.created)
        (select (λ m. m.sandbox_id == sandbox_id) db.snapshots)),
  db,
)

unfoldable pub list_snapshots_created_before : Text → Action Db (List SnapshotRecord)
unfolding select order_by
list_snapshots_created_before before db = (
  ok (
      order_by (λ a b. text_lt a.created b.created)
        (select (λ m. text_lt m.created before) db.snapshots)),
  db,
)

unfoldable pub delete_snapshot_by_id : Text → Action Db (Unit {0})
unfolding any delete_where
delete_snapshot_by_id snapshot_id db =
    if any (λ m. m.id == snapshot_id) db.snapshots
    then (ok tt, record db { snapshots = delete_where (λ m. m.id == snapshot_id) db.snapshots })
    else (err not_found, db)

unfoldable pub get_snapshot : Text → Text → Action Db SnapshotRecord
unfolding find?
get_snapshot sandbox_id snapshot_id db = (
  or_not_found (find? (λ m. (m.sandbox_id == sandbox_id) && (m.id == snapshot_id)) db.snapshots),
  db,
)

-- ORDER BY created_at DESC LIMIT 1
unfoldable pub get_latest_workspace_snapshot : Text → Action Db SnapshotRecord
unfolding select order_by
get_latest_workspace_snapshot sandbox_id db = (
  or_not_found (
      first (
        order_by (λ a b. text_lt b.created a.created)
          (select (λ m. (m.sandbox_id == sandbox_id) && (m.type == codes "workspace"))
            db.snapshots))),
  db,
)
