-- ===== src/Store/Execs.antt =====
-- The exec_tasks table of internal/store/sqlite/store.go.
use mathlib.Core.Option
use sleigh.Prelude.{
  ℕ, Text, Bool, ◌&&◌, ◌||◌, not, none, some, List, [], ◌∷◌, ◌++◌, map, ◌==◌, codes, text_lt, any,
  find?, select, delete_where, update_where, count_where, order_by, take, if◌then◌else◌,
}
use sleigh.Prelude.Int.{ℤ, pos, leb_ℤ, ltb_ℤ, pos_part}
use sleigh.Errors.{ok, err, not_found, failure}
use sleigh.Action.{Action}
use sleigh.Store.Schema.{
  Db, ExecTaskRecord, ExecTaskRow, ExecWebhookSubscriptionRecord, has_sandbox, or_not_found, first,
  nullable_string, read_nullable,
}

unfoldable pub row_of_record : ExecTaskRecord → ExecTaskRow
unfolding nullable_string
row_of_record r = record {
  id = r.id;
  sandbox_id = r.sandbox_id;
  command = r.command;
  status = r.status;
  stdout = r.stdout;
  stderr = r.stderr;
  exit_code = r.exit_code;
  error = r.error;
  recovery = r.recovery;
  started_at = r.started_at;
  completed_at = nullable_string r.completed_at;
}

unfoldable pub record_of_row : ExecTaskRow → ExecTaskRecord
unfolding read_nullable
record_of_row r = record {
  id = r.id;
  sandbox_id = r.sandbox_id;
  command = r.command;
  status = r.status;
  stdout = r.stdout;
  stderr = r.stderr;
  exit_code = r.exit_code;
  error = r.error;
  recovery = r.recovery;
  started_at = r.started_at;
  completed_at = read_nullable r.completed_at;
}

unfoldable pub create_exec_task : ExecTaskRecord → Action Db (Unit {0})
unfolding row_of_record has_sandbox any
create_exec_task r db =
    if any (λ t. t.id == r.id) db.exec_tasks
    then (err (failure (codes "insert exec task: UNIQUE constraint failed")), db)
    else if has_sandbox db r.sandbox_id
    then (ok tt, record db { exec_tasks = db.exec_tasks ++ row_of_record r ∷ [] })
    else (err (failure (codes "insert exec task: FOREIGN KEY constraint failed")), db)

-- The columns that UpdateExecTask sets; the others stay.
abbrev pub is_exec_task : Text → Text → ExecTaskRow → Bool
is_exec_task sandbox_id exec_id t = (t.id == exec_id) && (t.sandbox_id == sandbox_id)

unfoldable pub set_outcome : ExecTaskRecord → ExecTaskRow → ExecTaskRow
unfolding nullable_string
set_outcome r t = record t {
  status = r.status;
  stdout = r.stdout;
  stderr = r.stderr;
  exit_code = r.exit_code;
  error = r.error;
  recovery = r.recovery;
  completed_at = nullable_string r.completed_at;
}

unfoldable pub update_exec_task : ExecTaskRecord → Action Db (Unit {0})
unfolding set_outcome any update_where
update_exec_task r db =
    if any (is_exec_task r.sandbox_id r.id) db.exec_tasks
    then (
      ok tt,
      record db {
        exec_tasks = update_where (is_exec_task r.sandbox_id r.id) (set_outcome r) db.exec_tasks;
      },
    )
    else (err not_found, db)

unfoldable pub get_exec_task : Text → Text → Action Db ExecTaskRecord
unfolding record_of_row find?
get_exec_task sandbox_id exec_id db = (
  or_not_found (Option.map record_of_row (find? (is_exec_task sandbox_id exec_id) db.exec_tasks)),
  db,
)

-- ORDER BY started_at DESC LIMIT 1
unfoldable pub get_latest_exec_task_by_sandbox : Text → Action Db ExecTaskRecord
unfolding record_of_row select order_by
get_latest_exec_task_by_sandbox sandbox_id db = (
  or_not_found (
      Option.map record_of_row (
        first (
          order_by (λ a b. text_lt b.started_at a.started_at)
            (select (λ t. t.sandbox_id == sandbox_id) db.exec_tasks)))),
  db,
)

-- The page size that a request's limit gives.
unfoldable pub clamp_limit : ℤ → ℕ
clamp_limit limit =
    let limit' = if leb_ℤ limit (pos 0) then pos 20 else limit in
    if ltb_ℤ (pos 200) limit' then 200 else pos_part limit'

-- JOIN sandboxes s ON s.id = e.sandbox_id WHERE s.session_id = ?
unfoldable pub in_session : Db → Text → ExecTaskRow → Bool
unfolding any
in_session db session_id t =
    any (λ r. (r.id == t.sandbox_id) && (r.session_id == session_id)) db.sandboxes

-- (e.started_at < ?) OR (e.started_at = ? AND e.id < ?)
unfoldable pub before_cursor : Text → Text → ExecTaskRow → Bool
before_cursor started_at exec_id t =
    text_lt t.started_at started_at || ((t.started_at == started_at) && text_lt t.id exec_id)

-- ORDER BY e.started_at DESC, e.id DESC
unfoldable pub newer : ExecTaskRow → ExecTaskRow → Bool
unfolding before_cursor
newer a b = before_cursor a.started_at a.id b

-- The rows that a query with this cursor finds, before its LIMIT; an incomplete cursor is none.
unfoldable pub history_rows : Text → Text → Text → Db → List ExecTaskRow
unfolding in_session before_cursor newer select order_by
history_rows session_id started_at exec_id db =
    let rows = select (in_session db session_id) db.exec_tasks in
    order_by newer (
      if not (started_at == []) && not (exec_id == [])
      then select (before_cursor started_at exec_id) rows
      else rows)

unfoldable pub list_exec_tasks_by_session : Text → ℤ → Text → Text → Action Db (List ExecTaskRecord)
unfolding clamp_limit history_rows record_of_row
list_exec_tasks_by_session session_id limit started_at exec_id db = (
  ok (map record_of_row (take (clamp_limit limit) (history_rows session_id started_at exec_id db))),
  db,
)

-- completed_at IS NOT NULL AND completed_at < ?
unfoldable pub completed_before : Text → ExecTaskRow → Bool
completed_before before t = elim t.completed_at [ none ↦ Bool.false | some c ↦ text_lt c before ]

-- A subscription to a task that goes.
unfoldable pub follows_completed : Text → List ExecTaskRow → ExecWebhookSubscriptionRecord → Bool
unfolding completed_before any
follows_completed before tasks sub =
    any (λ t. (t.id == sub.exec_id) && completed_before before t) tasks

-- The deleted rows, counted; their webhook subscriptions go with them (ON DELETE CASCADE).
unfoldable pub cleanup_exec_tasks_before : Text → Action Db ℕ
unfolding completed_before follows_completed delete_where count_where
cleanup_exec_tasks_before before db = (
  ok (count_where (completed_before before) db.exec_tasks),
  record db {
    exec_tasks = delete_where (completed_before before) db.exec_tasks;
    subscriptions = delete_where (follows_completed before db.exec_tasks) db.subscriptions;
  },
)
