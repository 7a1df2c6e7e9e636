-- ===== src/Router/Workflow.antt =====
-- router.go: runWorkflow and normalizeWorkflowAction. The durations of the steps are left out.
pub mod Run
pub mod Stops
pub mod Traced
use sleigh.Prelude.{
  ℕ, ◌+◌, Text, Bool, true, false, not, ◌||◌, Option, none, some, List, [], ◌∷◌, ◌++◌, codes,
  trim_space, is_blank, to_lower, ◌==◌, if◌then◌else◌,
}
use sleigh.Prelude.Int.{ℤ}
use sleigh.Prelude.Decimal.{decimal_ℤ}
use sleigh.Errors.{Error, Result, ok, err, bad_request, failure, message}
use sleigh.Action.{pure, raise, attempt, guard, ignore, ◌>>=◌, ◌>>◌}
use sleigh.Store.Schema.{Labels}
use sleigh.Service.Types.{World, Svc, Backend, Policy, Metadata, Snapshot, ExecResult}
use sleigh.Service.Access.{authorize_sandbox_access, delete}
use sleigh.Service.Execs.{execute}
use sleigh.Service.Pool.{create}
use sleigh.Service.Snapshots.{Disk, create_snapshot, rollback}
use sleigh.Service.Webhooks.{subscribe_exec_webhook}
use sleigh.Router.Limits.{clamp_exec_result_output}
use sleigh.Router.Sandboxes.{set_label}
use sleigh.Router.Tasks.{wait_seconds, wait_exec_result}

pub record StepRequest : Type 0 where
  pub action : Text
  pub sandbox_id : Text
  pub image : Text
  pub labels : Labels
  pub memory_limit_mb : ℤ
  pub command : Text
  pub wait : Option Bool
  pub wait_timeout_seconds : ℤ
  pub snapshot_id : Text
  pub webhook_url : Text

-- What a step returns.
pub data StepValue : Type 0 where
  no_value : StepValue
  a_sandbox : Metadata → StepValue
  an_exec : ExecResult → StepValue
  a_snapshot : Snapshot → StepValue
  done : StepValue

pub record StepResult : Type 0 where
  pub index : ℕ
  pub action : Text
  pub status : Text
  pub sandbox_id : Text
  pub exec_id : Text
  pub snapshot_id : Text
  pub timed_out : Bool
  pub error : Text
  pub value : StepValue

abbrev one_of : Text → List Text → Bool
one_of s [] = false
one_of s (t ∷ ts) = s == t || one_of s ts

unfoldable pub normalize_workflow_action : Text → Text
normalize_workflow_action action =
    let a = to_lower (trim_space action) in
    if one_of a (codes "create_sandbox" ∷ codes "create" ∷ codes "createsandbox" ∷ [])
    then codes "create_sandbox"
    else if one_of a (codes "exec_command" ∷ codes "exec" ∷ codes "execcommand" ∷ [])
    then codes "exec_command"
    else if one_of a (codes "create_snapshot" ∷ codes "snapshot" ∷ codes "createsnapshot" ∷ [])
    then codes "create_snapshot"
    else if one_of a (codes "rollback_snapshot" ∷ codes "rollback" ∷ codes "rollbacksnapshot" ∷ [])
    then codes "rollback_snapshot"
    else if one_of a (codes "delete_sandbox" ∷ codes "delete" ∷ codes "deletesandbox" ∷ [])
    then codes "delete_sandbox"
    else trim_space action

abbrev pub succeeded_item : ℕ → Text → StepResult
succeeded_item index action = record {
  index = index;
  action = action;
  status = codes "succeeded";
  sandbox_id = [];
  exec_id = [];
  snapshot_id = [];
  timed_out = false;
  error = [];
  value = no_value;
}

-- The item, whether the workflow stops, and the sandbox that later steps mean.
pub record StepOutcome : Type 0 where
  pub item : StepResult
  pub stops : Bool
  pub current : Text

abbrev pub goes_on : StepResult → Text → StepOutcome
goes_on item current = record { item = item; stops = false; current = current }

-- markFailed, where a step returned an error.
abbrev pub settle_step : StepResult → Text → Result StepOutcome → StepOutcome
settle_step item current (ok outcome) = outcome
settle_step item current (err e) = record {
  item = record item { status = codes "failed"; error = message e };
  stops = true;
  current = current;
}

abbrev pub sandbox_or : Text → Text → Text
sandbox_or [] current = current
sandbox_or (c ∷ s) current = c ∷ s

abbrev timed_out_item : ℤ → Text → ExecResult → StepResult → StepResult
timed_out_item seconds sandbox_id result item = record item {
  timed_out = true;
  status = codes "timed_out";
  error =
      codes "exec step timed out after "
      ++ decimal_ℤ seconds
      ++ codes "s; call get_exec with exec_id="
      ++ result.id
      ++ codes " to continue polling";
  value = an_exec result;
  exec_id = result.id;
  sandbox_id = sandbox_id;
}

abbrev exec_item : Text → ExecResult → StepResult → StepResult
exec_item sandbox_id result item = record item {
  exec_id = result.id;
  sandbox_id = sandbox_id;
  value = an_exec result;
}

abbrev waits : Option Bool → Bool
waits none = true
waits (some b) = b

-- The result that was waited for is shadowed: a step that did not time out has the one of Execute.
abbrev pub after_wait : ℤ → Text → Text → ExecResult → StepResult → ExecResult × Bool → StepOutcome
after_wait seconds sandbox_id current started item (waited, true) = record {
  item = timed_out_item seconds sandbox_id (clamp_exec_result_output waited) item;
  stops = true;
  current = current;
}
after_wait seconds sandbox_id current started item (waited, false) =
    goes_on (exec_item sandbox_id (clamp_exec_result_output started) item) current

abbrev pub after_delete : Text → Text → Text
after_delete sandbox_id current = if sandbox_id == current then [] else current

module _ {R : Type 0} (b : Backend R) (policy : Policy) where
  abbrev pub create_step : Text → Text → StepRequest → StepResult → Svc R StepOutcome
  create_step session_id current step item = do
    meta ← create b policy (record {
      id = [];
      image = step.image;
      labels = set_label (codes "session_id") session_id step.labels;
      memory_limit_mb = step.memory_limit_mb;
    })
    pure (goes_on (record item { sandbox_id = meta.id; value = a_sandbox meta }) meta.id)

  abbrev subscribe_step : (Text → Option Text) → Text → Text → Text → Text → Svc R (Unit {0})
  subscribe_step scheme session_id sandbox_id exec_id [] = pure tt
  subscribe_step scheme session_id sandbox_id exec_id (c ∷ url) = do
    subscribe_exec_webhook scheme session_id sandbox_id exec_id (c ∷ url)
    pure tt

  abbrev pub finish_step :
      Svc R (Unit {0})
      → (ℤ → ℕ)
      → Bool
      → ℤ
      → Text
      → Text
      → ExecResult
      → StepResult
      → Svc R StepOutcome
  finish_step pause rounds false seconds sandbox_id current started item =
      pure (goes_on (exec_item sandbox_id (clamp_exec_result_output started) item) current)
  finish_step pause rounds true seconds sandbox_id current started item = do
    waited ← wait_exec_result pause (rounds seconds) sandbox_id started
    pure (after_wait seconds sandbox_id current started item waited)

  abbrev pub exec_step :
      Svc R (Unit {0})
      → (ℤ → ℕ)
      → (Text → Option Text)
      → Text
      → Text
      → Text
      → StepRequest
      → StepResult
      → Svc R StepOutcome
  exec_step pause rounds scheme session_id current sandbox_id step item = do
    guard (not (sandbox_id == []))
        (failure (codes "workflow step requires sandbox_id or a previously created sandbox"))
    authorize_sandbox_access session_id sandbox_id
    guard (not (trim_space step.command == []))
        (failure (codes "workflow exec_command step requires non-empty command"))
    started ← execute sandbox_id (trim_space step.command)
    subscribe_step scheme session_id sandbox_id started.id (trim_space step.webhook_url)
    finish_step pause rounds (waits step.wait) (wait_seconds step.wait_timeout_seconds) sandbox_id
        current started item

  abbrev pub snapshot_step : Disk R → Text → Text → Text → StepResult → Svc R StepOutcome
  snapshot_step disk session_id current sandbox_id item = do
    guard (not (sandbox_id == [])) (
        failure (
          codes
            "workflow create_snapshot step requires sandbox_id or a previously created sandbox"))
    authorize_sandbox_access session_id sandbox_id
    snapshot ← create_snapshot disk b policy sandbox_id
    pure (
        goes_on
          (record item {
            sandbox_id = sandbox_id;
            snapshot_id = snapshot.id;
            value = a_snapshot snapshot;
          })
          current)

  abbrev pub rollback_step :
      Disk R → Text → Text → Text → StepRequest → StepResult → Svc R StepOutcome
  rollback_step disk session_id current sandbox_id step item = do
    guard (not (sandbox_id == [] || is_blank step.snapshot_id))
        (failure (codes "workflow rollback_snapshot step requires sandbox_id and snapshot_id"))
    authorize_sandbox_access session_id sandbox_id
    meta ← rollback disk b policy sandbox_id step.snapshot_id
    pure (
        goes_on
          (record item {
            sandbox_id = sandbox_id;
            snapshot_id = step.snapshot_id;
            value = a_sandbox meta;
          })
          current)

  abbrev pub delete_step : Text → Text → Text → StepResult → Svc R StepOutcome
  delete_step session_id current sandbox_id item = do
    guard (not (sandbox_id == [])) (
        failure (
          codes "workflow delete_sandbox step requires sandbox_id or a previously created sandbox"))
    authorize_sandbox_access session_id sandbox_id
    delete b sandbox_id
    pure (
        goes_on (record item { sandbox_id = sandbox_id; value = done })
          (after_delete sandbox_id current))
