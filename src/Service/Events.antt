-- ===== src/Service/Events.antt =====
-- service.go: the events that the service reports of a session.
use sleigh.Prelude.{
  ℕ, Text, not, ◌||◌, Option, none, some, List, [], ◌∷◌, ◌++◌, codes, is_blank, trim_space, ◌==◌,
  if◌then◌else◌,
}
use sleigh.Prelude.Decimal.{decimal}
use sleigh.Errors.{Result, ok, err}
use sleigh.Action.{pure, attempt, modify, ignore, ◌>>=◌}
use sleigh.Store.Schema.{Labels, SandboxRecord, ExecTaskRecord, label}
use sleigh.Store.Sandboxes.{list_sandboxes_by_session}
use sleigh.Store.Execs.{get_latest_exec_task_by_sandbox}
use sleigh.Store.Sequences.{next_session_sequence}
use sleigh.Service.Types.{Svc, SandboxEntry, LastExec}
use sleigh.Service.Effects.{sql, read_clock}

-- The label "session_id", or else "sessionId"; "" if neither says anything.
unfoldable pub session_id_from_labels : Labels → Text
session_id_from_labels labels =
    let first = trim_space (label labels (codes "session_id")) in
    if first == [] then trim_space (label labels (codes "sessionId")) else first

unfoldable pub event_id : Text → ℕ → Text
event_id session_id seq = codes "evt_" ++ session_id ++ codes "_" ++ decimal seq

unfoldable pub last_exec : Result ExecTaskRecord → Option LastExec
last_exec (err e) = none
last_exec (ok t) =
    some
      (record { exec_id = t.id; status = t.status; command = t.command; started_at = t.started_at })

abbrev pub entry_of : SandboxRecord → Result ExecTaskRecord → SandboxEntry
unfolding last_exec
entry_of sb task = record {
  sandbox_id = sb.id;
  status = sb.status;
  image = sb.image;
  last_exec = last_exec task;
}

module _ {R : Type 0} where
  unfoldable pub entries : List SandboxRecord → Svc R (List SandboxEntry)
  unfolding last_exec
  entries [] = pure []
  entries (sb ∷ rest) = do
    task ← attempt (sql (get_latest_exec_task_by_sandbox sb.id))
    more ← entries rest
    pure (entry_of sb task ∷ more)

  unfoldable pub report_session : Text → Text → Text → Text → Svc R (Unit {0})
  unfolding entries event_id
  report_session session_id sandbox_id trigger severity = do
    sandboxes ← sql (list_sandboxes_by_session session_id)
    items ← entries sandboxes
    seq ← sql (next_session_sequence session_id)
    timestamp ← read_clock
    modify (λ w. record w {
      sent =
          w.sent
          ++ record {
            event_id = event_id session_id seq;
            session_seq = seq;
            idempotency_key = session_id ++ codes ":" ++ decimal seq;
            severity = severity;
            timestamp = timestamp;
            session_id = session_id;
            trigger = trigger;
            trigger_sandbox_id = sandbox_id;
            sandboxes = items;
          }
            ∷ [];
    })

  -- emitSessionAggregate: a failure on the way drops the event, and the caller goes on.
  unfoldable pub emit_session_aggregate : Text → Text → Text → Text → Svc R (Unit {0})
  unfolding report_session
  emit_session_aggregate session_id sandbox_id trigger severity w =
      if not w.reporting || is_blank session_id
      then (ok tt, w)
      else ignore (report_session session_id sandbox_id trigger severity) w
