-- ===== src/Service/Execs.antt =====
-- service.go: the exec tasks that the service keeps in memory, and Execute, GetExec, CancelExec,
-- ensureSnapshotSafe.

pub mod Map
pub mod Run
pub mod Settle
pub mod Safe
pub mod Cancel
use sleigh.Prelude.{
  Text, Bool, true, false, ◌&&◌, ◌||◌, not, Option, none, some, List, [], ◌∷◌, ◌++◌, codes,
  trim_space, ◌==◌, any, find?, delete_where, update_where, if◌then◌else◌,
}
use sleigh.Errors.{not_found, bad_request, noted, ok, err, Result}
use sleigh.Service.Access.{session_of}
use sleigh.Action.{attempt, pure, raise, gets, modify, ignore, guard, ◌>>=◌, ◌>>◌}
use sleigh.Store.Schema.{ExecTaskRecord}
use sleigh.Store.Sandboxes.{get_sandbox, update_sandbox_status}
use sleigh.Store.Execs.{create_exec_task, get_exec_task, update_exec_task}
use sleigh.Service.Types.{
  World, Svc, Job, run_exec, ExecResult, ExecTask, running, cancelling, succeeded, failed,
  cancelled,
}
use sleigh.Service.Effects.{sql, spawn, new_id, read_clock}
use sleigh.Service.Events.{emit_session_aggregate}

abbrev pub has_id : Text → ExecTask → Bool
has_id exec_id t = t.result.id == exec_id

-- s.execMap[execID]
unfoldable pub find_task : Text → List ExecTask → Option ExecTask
unfolding find?
find_task exec_id m = find? (has_id exec_id) m

-- s.execMap[task.result.ID] = task
unfoldable pub put_task : ExecTask → List ExecTask → List ExecTask
unfolding delete_where
put_task t m = delete_where (has_id t.result.id) m ++ t ∷ []

-- A change through the pointer that the map holds.
unfoldable pub set_task : {R : Type 0} → Text → (ExecTask → ExecTask) → World R → World R
unfolding update_where
set_task exec_id f w = record w { exec_map = update_where (has_id exec_id) f w.exec_map }

abbrev pub new_task : Text → Text → Text → Text → ExecTask
new_task exec_id sandbox_id command started = record {
  result = record {
    id = exec_id;
    sandbox_id = sandbox_id;
    command = command;
    status = running;
    stdout = [];
    stderr = [];
    exit_code = none;
    error = [];
    started_at = started;
    completed_at = [];
    recovery = [];
  };
  cancel = true;
  canceled = false;
}

-- The row that Execute inserts and that the end of a task writes.
unfoldable pub record_of_result : ExecResult → ExecTaskRecord
record_of_result r = record {
  id = r.id;
  sandbox_id = r.sandbox_id;
  command = r.command;
  status = r.status;
  stdout = r.stdout;
  stderr = r.stderr;
  exit_code = r.exit_code;
  error = r.error;
  recovery = r.recovery;
  started_at = r.started_at;
  completed_at = r.completed_at;
}

unfoldable pub result_of_record : ExecTaskRecord → ExecResult
result_of_record r = record {
  id = r.id;
  sandbox_id = r.sandbox_id;
  command = r.command;
  status = r.status;
  stdout = r.stdout;
  stderr = r.stderr;
  exit_code = r.exit_code;
  error = r.error;
  started_at = r.started_at;
  completed_at = r.completed_at;
  recovery = r.recovery;
}

-- A task that is waited for or that is being stopped.
unfoldable pub is_live : Text → ExecTask → Bool
is_live sandbox_id t =
    (t.result.sandbox_id == sandbox_id)
    && (t.result.status == running || t.result.status == cancelling)

-- CancelExec on the task itself: the context is cancelled if the task still holds its function.
unfoldable pub mark_cancelling : ExecTask → ExecTask
mark_cancelling t = record t {
  result = record t.result { status = cancelling };
  canceled = t.canceled || t.cancel;
}

unfoldable pub is_exec_terminal_status : Text → Bool
is_exec_terminal_status status =
    let s = trim_space status in s == succeeded || s == failed || s == cancelled

unfoldable pub exec_result_to_webhook_status : ExecResult → Text
exec_result_to_webhook_status r =
    let s = trim_space r.status in
    if s == succeeded
    then codes "ok"
    else if s == failed || s == cancelled
    then codes "err"
    else codes "timeout"

module _ {R : Type 0} where
  unfoldable pub execute : Text → Text → Svc R ExecResult
  unfolding record_of_result put_task
  execute sandbox_id text = do
    let command = trim_space text
    guard (not (command == [])) bad_request
    sql (get_sandbox sandbox_id)
    row ← attempt (sql (get_sandbox sandbox_id))
    exec_id ← new_id (codes "exec_")
    started ← read_clock
    let task = new_task exec_id sandbox_id command started
    modify (λ w. record w { exec_map = put_task task w.exec_map })
    sql (create_exec_task (record_of_result task.result))
    ignore (sql (update_sandbox_status sandbox_id running))
    emit_session_aggregate (session_of row) sandbox_id (codes "exec_started") (codes "info")
    spawn (run_exec exec_id)
    pure task.result

  abbrev pub from_store : Text → Text → Svc R ExecResult
  from_store sandbox_id exec_id = do
    row ← sql (get_exec_task sandbox_id exec_id)
    pure (result_of_record row)

  -- The task in memory if it is one of the sandbox, or else the row of the store.
  abbrev pub from_memory : Text → Text → Option ExecTask → Svc R ExecResult
  from_memory sandbox_id exec_id none = from_store sandbox_id exec_id
  from_memory sandbox_id exec_id (some t) =
      if t.result.sandbox_id == sandbox_id then pure t.result else from_store sandbox_id exec_id

  unfoldable pub get_exec : Text → Text → Svc R ExecResult
  unfolding find_task result_of_record
  get_exec sandbox_id exec_id = do
    sql (get_sandbox sandbox_id)
    task ← gets (λ w. find_task exec_id w.exec_map)
    from_memory sandbox_id exec_id task

  -- The row that CancelExec writes has no note of a recovery.
  abbrev pub cancel_and_store : ExecTask → Svc R ExecResult
  cancel_and_store t = do
    let r = (mark_cancelling t).result
    modify (set_task t.result.id mark_cancelling)
    ignore (sql (update_exec_task (record (record_of_result r) { recovery = [] })))
    pure r

  abbrev pub cancel_running : ExecTask → Svc R ExecResult
  cancel_running t = if t.result.status == running then cancel_and_store t else pure t.result

  abbrev pub cancel_task : Text → Option ExecTask → Svc R ExecResult
  cancel_task sandbox_id none = raise not_found
  cancel_task sandbox_id (some t) =
      if t.result.sandbox_id == sandbox_id then cancel_running t else raise not_found

  unfoldable pub cancel_exec : Text → Text → Svc R ExecResult
  unfolding find_task mark_cancelling set_task record_of_result
  cancel_exec sandbox_id exec_id = do
    sql (get_sandbox sandbox_id)
    task ← gets (λ w. find_task exec_id w.exec_map)
    cancel_task sandbox_id task

  unfoldable pub ensure_snapshot_safe : Text → Svc R (Unit {0})
  unfolding is_live any
  ensure_snapshot_safe sandbox_id w =
      if any (is_live sandbox_id) w.exec_map
      then (err (noted bad_request (codes "exec task is running")), w)
      else (ok tt, w)
