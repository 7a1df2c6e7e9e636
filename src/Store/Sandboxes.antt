-- ===== src/Store/Sandboxes.antt =====
-- The sandboxes table of internal/store/sqlite/store.go.
pub mod Idle
use sleigh.Prelude.{
  Text, Bool, not, ◌&&◌, ◌||◌, List, [], ◌∷◌, ◌++◌, ◌==◌, codes, text_lt, any, find?, select,
  delete_where, update_where, order_by, if◌then◌else◌,
}
use sleigh.Errors.{ok, err, not_found, failure}
use sleigh.Action.{Action}
use sleigh.Store.Schema.{
  Db, Labels, SandboxRecord, ExecTaskRow, ExecWebhookSubscriptionRecord, has_sandbox, or_not_found,
}

-- INSERT: the primary key must be new. `last_accessed_at` is the creation time.
unfoldable pub create_sandbox : SandboxRecord → Action Db (Unit {0})
unfolding has_sandbox
create_sandbox r db =
    if has_sandbox db r.id
    then (err (failure (codes "insert sandbox: UNIQUE constraint failed")), db)
    else (
      ok tt,
      record db { sandboxes = db.sandboxes ++ record r { last_accessed = r.created } ∷ [] },
    )

unfoldable pub get_sandbox : Text → Action Db SandboxRecord
unfolding find?
get_sandbox id db = (or_not_found (find? (λ r. r.id == id) db.sandboxes), db)

-- UPDATE … WHERE id = ?; no row affected is ErrNotFound.
unfoldable pub update_sandbox : Text → (SandboxRecord → SandboxRecord) → Action Db (Unit {0})
unfolding has_sandbox update_where
update_sandbox id f db =
    if has_sandbox db id
    then (ok tt, record db { sandboxes = update_where (λ r. r.id == id) f db.sandboxes })
    else (err not_found, db)

unfoldable pub update_sandbox_status : Text → Text → Action Db (Unit {0})
unfolding update_sandbox
update_sandbox_status id status = update_sandbox id (λ r. record r { status = status })

unfoldable pub update_sandbox_image : Text → Text → Action Db (Unit {0})
unfolding update_sandbox
update_sandbox_image id image = update_sandbox id (λ r. record r { image = image })

unfoldable pub update_sandbox_assignment : Text → Text → Labels → Action Db (Unit {0})
unfolding update_sandbox
update_sandbox_assignment id session_id labels =
    update_sandbox id (λ r. record r { session_id = session_id; labels = labels })

unfoldable pub update_sandbox_last_access : Text → Text → Action Db (Unit {0})
unfolding update_sandbox
update_sandbox_last_access id accessed_at =
    update_sandbox id (λ r. record r { last_accessed = accessed_at })

-- A subscription of the sandbox `id` or of one of its exec tasks.
unfoldable pub follows_sandbox : Text → List ExecTaskRow → ExecWebhookSubscriptionRecord → Bool
unfolding any
follows_sandbox id tasks sub =
    (sub.sandbox_id == id) || any (λ t. (t.id == sub.exec_id) && (t.sandbox_id == id)) tasks

-- ON DELETE CASCADE of the sandbox `id`: its rows in the other tables go, and the subscriptions of
-- its exec tasks.
unfoldable pub cascade_sandbox : Text → Db → Db
unfolding delete_where follows_sandbox
cascade_sandbox id db = record db {
  sandboxes = delete_where (λ r. r.id == id) db.sandboxes;
  snapshots = delete_where (λ r. r.sandbox_id == id) db.snapshots;
  exec_tasks = delete_where (λ r. r.sandbox_id == id) db.exec_tasks;
  mounts = delete_where (λ r. r.sandbox_id == id) db.mounts;
  warm_pool = delete_where (λ r. r.sandbox_id == id) db.warm_pool;
  subscriptions = delete_where (follows_sandbox id db.exec_tasks) db.subscriptions;
}

unfoldable pub delete_sandbox : Text → Action Db (Unit {0})
unfolding cascade_sandbox has_sandbox
delete_sandbox id db =
    if has_sandbox db id then (ok tt, cascade_sandbox id db) else (err not_found, db)

unfoldable pub list_sandboxes_by_session : Text → Action Db (List SandboxRecord)
unfolding select order_by
list_sandboxes_by_session session_id db = (
  ok (
      order_by (λ a b. text_lt a.created b.created)
        (select (λ r. r.session_id == session_id) db.sandboxes)),
  db,
)

-- session_id <> '' AND last_accessed_at <> '' AND last_accessed_at < ?
unfoldable pub is_idle : Text → SandboxRecord → Bool
is_idle before r =
    not (r.session_id == []) && not (r.last_accessed == []) && text_lt r.last_accessed before

unfoldable pub list_idle_sandboxes_before : Text → Action Db (List SandboxRecord)
unfolding is_idle select order_by
list_idle_sandboxes_before before db = (
  ok (
      order_by (λ a b. text_lt a.last_accessed b.last_accessed)
        (select (is_idle before) db.sandboxes)),
  db,
)
