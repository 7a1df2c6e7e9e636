-- ===== src/Store/Mounts.antt =====
-- The sandbox_mounts table of internal/store/sqlite/store.go.
use sleigh.Prelude.{
  Text, ◌&&◌, List, [], ◌∷◌, ◌++◌, ◌==◌, codes, text_lt, any, select, delete_where, order_by,
  if◌then◌else◌,
}
use sleigh.Errors.{ok, err, not_found, failure}
use sleigh.Action.{Action}
use sleigh.Store.Schema.{Db, MountRecord, has_sandbox}

unfoldable pub create_mount : MountRecord → Action Db (Unit {0})
unfolding has_sandbox any
create_mount r db =
    if any (λ m. m.id == r.id) db.mounts
    then (err (failure (codes "insert sandbox mount: UNIQUE constraint failed")), db)
    else if has_sandbox db r.sandbox_id
    then (ok tt, record db { mounts = db.mounts ++ r ∷ [] })
    else (err (failure (codes "insert sandbox mount: FOREIGN KEY constraint failed")), db)

unfoldable pub delete_mount : Text → Text → Action Db (Unit {0})
unfolding any delete_where
delete_mount sandbox_id mount_id db =
    if any (λ m. (m.sandbox_id == sandbox_id) && (m.id == mount_id)) db.mounts
    then (
      ok tt,
      record db {
        mounts = delete_where (λ m. (m.sandbox_id == sandbox_id) && (m.id == mount_id)) db.mounts;
      },
    )
    else (err not_found, db)

unfoldable pub list_mounts : Text → Action Db (List MountRecord)
unfolding select order_by
list_mounts sandbox_id db = (
  ok (
      order_by (λ a b. text_lt a.created b.created)
        (select (λ m. m.sandbox_id == sandbox_id) db.mounts)),
  db,
)
