-- ===== src/Service/Execs/Run.antt =====
-- service.go: runExecTask in two steps, before and after the command, one tick of
-- pollExecMemoryDuringRun, autoRecoverOOM and isOOMFailure.
use sleigh.Prelude.{
  Text, Bool, true, false, ◌||◌, not, Option, none, some, List, [], ◌∷◌, ◌++◌, codes, to_lower,
  contains, ◌==◌, if◌then◌else◌,
}
use sleigh.Prelude.Int.{ℤ, pos, eqb_ℤ, ltb_ℤ}
use sleigh.Errors.{Error, Result, ok, err, not_found, is_canceled, is_not_found, message}
use sleigh.Action.{pure, gets, modify, ignore, attempt, ◌>>=◌, ◌>>◌}
use sleigh.Store.Schema.{SandboxRecord}
use sleigh.Store.Sandboxes.{get_sandbox}
use sleigh.Store.Snapshots.{list_snapshots}
use sleigh.Store.Execs.{update_exec_task}
use sleigh.Service.Types.{
  Svc, deliver_webhooks, poll_memory, Backend, Policy, Snapshot, Metadata, ExecOutput, ExecTask,
  AutoExpandResult, running, cancelling, succeeded, failed, cancelled,
}
use sleigh.Service.Effects.{sql, call, spawn, read_clock}
use sleigh.Service.Events.{emit_session_aggregate}
use sleigh.Service.Memory.{pre_exec_auto_expand_if_needed}
use sleigh.Service.Execs.{find_task, set_task, record_of_result}

abbrev pub oom_text : Text → Bool
oom_text msg = contains (codes "out of memory") msg || contains (codes "cannot allocate memory") msg

unfoldable pub is_oom_failure : ExecOutput → Option Error → Bool
is_oom_failure output none = eqb_ℤ output.exit_code (pos 137)
is_oom_failure output (some e) =
    eqb_ℤ output.exit_code (pos 137)
    || oom_text (to_lower (message e ++ codes " " ++ output.stderr))

unfoldable pub set_recovery : Text → ExecTask → ExecTask
set_recovery note t = record t { result = record t.result { recovery = note } }

-- The status and the error that the end of the command gives.
unfoldable pub settled_status : Bool → Option Error → Text
settled_status was_cancelling none = succeeded
settled_status was_cancelling (some e) =
    if was_cancelling || is_canceled e then cancelled else failed

unfoldable pub settled_error : Bool → Text → Option Error → Text
settled_error was_cancelling old none = old
settled_error was_cancelling old (some e) =
    if was_cancelling
    then []
    else if is_canceled e
    then old
    else if is_not_found e
    then message not_found
    else message e

-- The exit code counts if it says something or if the command was run to its end.
unfoldable pub settled_exit_code : ExecOutput → Option Error → Option ℤ → Option ℤ
settled_exit_code output none old = some output.exit_code
settled_exit_code output (some e) old =
    if eqb_ℤ output.exit_code (pos 0) then old else some output.exit_code

unfoldable pub settle : ExecOutput → Option Error → Text → ExecTask → ExecTask
unfolding settled_status settled_error settled_exit_code
settle output error now t =
    let was_cancelling = t.result.status == cancelling in
    record t {
      result = record t.result {
        stdout = output.stdout;
        stderr = output.stderr;
        exit_code = settled_exit_code output error t.result.exit_code;
        completed_at = now;
        status = settled_status was_cancelling error;
        error = settled_error was_cancelling t.result.error error;
      };
      cancel = false;
    }

abbrev pub severity_of : Text → Text
severity_of status = if status == failed || status == cancelled then codes "warn" else codes "info"

-- A note behind those that are there.
unfoldable pub add_recovery : Text → ExecTask → ExecTask
add_recovery note t = record t {
  result = record t.result {
    recovery = if t.result.recovery == [] then note else t.result.recovery ++ codes "; " ++ note;
  };
}

abbrev pub manual_note : Text
manual_note = codes "oom detected; agent should decide new memory target via expand API"

abbrev pub recovery_note : Result Metadata → Text
recovery_note (ok meta) = codes "rolled back to latest snapshot; " ++ manual_note
recovery_note (err e) = manual_note

-- The snapshot as autoRecoverOOM hands it over: without its type, host path and base.
abbrev pub bare_snapshot : Snapshot → Snapshot
bare_snapshot s = record s { type = []; host_path = []; base_id = [] }

module _ {R : Type 0} where
  abbrev pub on_task : Option ExecTask → (ExecTask → Svc R (Unit {0})) → Svc R (Unit {0})
  on_task none f = pure tt
  on_task (some t) f = f t

  -- `task, ok := s.execMap[execID]; if !ok { return }`
  unfoldable pub with_task : Text → (ExecTask → Svc R (Unit {0})) → Svc R (Unit {0})
  unfolding find_task
  with_task exec_id f w = on_task (find_task exec_id w.exec_map) f w

  abbrev pub report_if : Result SandboxRecord → Text → Text → Text → Svc R (Unit {0})
  report_if (err e) sandbox_id trigger severity = pure tt
  report_if (ok row) sandbox_id trigger severity =
      emit_session_aggregate row.session_id sandbox_id trigger severity

  -- `if record, err := s.store.GetSandbox(…); err == nil { s.emitSessionAggregate(…) }`
  unfoldable pub report : Text → Text → Text → Svc R (Unit {0})
  report sandbox_id trigger severity = do
    row ← attempt (sql (get_sandbox sandbox_id))
    report_if row sandbox_id trigger severity

  abbrev pub note_triggered : Text → Text → AutoExpandResult → Svc R (Unit {0})
  note_triggered exec_id sandbox_id res = do
    modify (set_task exec_id (set_recovery res.reason))
    report sandbox_id (codes "memory_pressure_warning") (codes "warn")

  abbrev pub note_expansion : Text → Text → Result AutoExpandResult → Svc R (Unit {0})
  note_expansion exec_id sandbox_id (err e) =
      modify (set_task exec_id (set_recovery (codes "pre-exec auto-expand failed: " ++ message e)))
  note_expansion exec_id sandbox_id (ok res) =
      if res.triggered then note_triggered exec_id sandbox_id res else pure tt

  module _ (b : Backend R) where
    abbrev pub roll_back_latest : Text → Result (List Snapshot) → Svc R Text
    roll_back_latest sandbox_id (err e) = pure manual_note
    roll_back_latest sandbox_id (ok []) = pure manual_note
    roll_back_latest sandbox_id (ok (latest ∷ _)) = do
      rolled ← attempt (call (b.rollback_to_snapshot sandbox_id (bare_snapshot latest)))
      pure (recovery_note rolled)

    unfoldable pub auto_recover_oom : Text → Svc R Text
    auto_recover_oom sandbox_id = do
      snapshots ← attempt (sql (list_snapshots sandbox_id))
      roll_back_latest sandbox_id snapshots

    unfoldable pub note_recovery : Text → Text → Svc R (Unit {0})
    unfolding auto_recover_oom set_recovery set_task
    note_recovery exec_id sandbox_id = do
      note ← auto_recover_oom sandbox_id
      modify (set_task exec_id (set_recovery note))

    unfoldable pub close_task : ExecTask → Svc R (Unit {0})
    unfolding record_of_result report
    close_task t = do
      ignore (sql (update_exec_task (record_of_result t.result)))
      report t.result.sandbox_id (codes "exec_finished") (severity_of t.result.status)
      spawn (deliver_webhooks t.result.sandbox_id t.result.id t.result)

    unfoldable pub end_task : Text → ExecOutput → Option Error → Svc R (Unit {0})
    unfolding with_task settle set_task close_task
    end_task exec_id output error = do
      now ← read_clock
      modify (set_task exec_id (settle output error now))
      with_task exec_id close_task

    -- runExecTask from the return of the command, which gave `output` and `error`.
    unfoldable pub finish_exec : Text → ExecOutput → Option Error → Svc R (Unit {0})
    unfolding with_task is_oom_failure note_recovery end_task
    finish_exec exec_id output error = with_task exec_id λ task. do
      if is_oom_failure output error then note_recovery exec_id task.result.sandbox_id else pure tt
      end_task exec_id output error

    module _ (policy : Policy) (overflow : ℤ) where
      abbrev pub spawn_poll : Text → Svc R (Unit {0})
      spawn_poll exec_id =
          if ltb_ℤ (pos 0) policy.exec_memory_poll_interval_seconds
          then spawn (poll_memory exec_id)
          else pure tt

      -- runExecTask up to the call of the command.
      unfoldable pub begin_exec : Text → Svc R (Unit {0})
      unfolding with_task set_recovery set_task report
      begin_exec exec_id = with_task exec_id λ task. do
        expanded ← attempt (pre_exec_auto_expand_if_needed b policy overflow task.result.sandbox_id)
        note_expansion exec_id task.result.sandbox_id expanded
        spawn_poll exec_id

      abbrev pub add_if_running : Text → Text → ExecTask → Svc R (Unit {0})
      add_if_running exec_id note t =
          if t.result.status == running
          then modify (set_task exec_id (add_recovery note))
          else pure tt

      abbrev pub note_tick : Text → Text → AutoExpandResult → Svc R (Unit {0})
      note_tick exec_id sandbox_id res = do
        with_task exec_id (add_if_running exec_id res.reason)
        report sandbox_id (codes "memory_pressure_warning") (codes "warn")

      abbrev pub after_tick : Text → Text → Result AutoExpandResult → Svc R Bool
      after_tick exec_id sandbox_id (err e) = pure true
      after_tick exec_id sandbox_id (ok res) =
          if res.triggered then (note_tick exec_id sandbox_id res >> pure true) else pure true

      abbrev pub tick_task : Text → Option ExecTask → Svc R Bool
      tick_task exec_id none = pure false
      tick_task exec_id (some t) =
          if t.canceled || not (t.result.status == running) then pure false else do
            expanded ←
                attempt (pre_exec_auto_expand_if_needed b policy overflow t.result.sandbox_id)
            after_tick exec_id t.result.sandbox_id expanded

      -- One tick of pollExecMemoryDuringRun, and whether the loop goes on.
      unfoldable pub poll_exec_memory : Text → Svc R Bool
      unfolding find_task with_task add_recovery set_task report
      poll_exec_memory exec_id = do
        task ← gets (λ w. find_task exec_id w.exec_map)
        tick_task exec_id task
