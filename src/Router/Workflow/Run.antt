-- ===== src/Router/Workflow/Run.antt =====
-- router.go: the steps of runWorkflow, one after the other.
use sleigh.Prelude.{
  ℕ, ◌+◌, Text, Bool, true, false, not, Option, List, [], ◌∷◌, ◌++◌, codes, trim_space, ◌==◌,
  if◌then◌else◌,
}
use sleigh.Prelude.Int.{ℤ}
use sleigh.Errors.{bad_request, failure}
use sleigh.Action.{pure, raise, attempt, guard, ◌>>=◌, ◌>>◌}
use sleigh.Service.Types.{Svc, Backend, Policy}
use sleigh.Service.Snapshots.{Disk}
use sleigh.Router.Limits.{clamp_exec_result_output}
use sleigh.Router.Workflow.{
  StepRequest, StepResult, StepOutcome, normalize_workflow_action, succeeded_item, settle_step,
  sandbox_or, create_step, exec_step, snapshot_step, rollback_step, delete_step,
}

module _ {R : Type 0} (b : Backend R) (policy : Policy) (disk : Disk R) (pause : Svc R (Unit {0}))
    (rounds : ℤ → ℕ) (scheme : Text → Option Text) where
  unfoldable pub step_action : Text → Text → StepRequest → Text → StepResult → Svc R StepOutcome
  unfolding clamp_exec_result_output
  step_action session_id current step action item =
      let sandbox_id = sandbox_or (trim_space step.sandbox_id) current in
      if action == codes "create_sandbox"
      then create_step b policy session_id current step item
      else if action == codes "exec_command"
      then exec_step b policy pause rounds scheme session_id current sandbox_id step item
      else if action == codes "create_snapshot"
      then snapshot_step b policy disk session_id current sandbox_id item
      else if action == codes "rollback_snapshot"
      then rollback_step b policy disk session_id current sandbox_id step item
      else if action == codes "delete_sandbox"
      then delete_step b policy session_id current sandbox_id item
      else raise (failure (codes "unsupported workflow action: " ++ trim_space step.action))

  unfoldable pub run_step : Text → ℕ → Text → StepRequest → Svc R StepOutcome
  unfolding normalize_workflow_action step_action
  run_step session_id index current step = do
    let action = normalize_workflow_action (trim_space step.action)
    let item = succeeded_item index action
    answer ← attempt (step_action session_id current step action item)
    pure (settle_step item current answer)

  -- The items, and whether the workflow stopped early.
  unfoldable pub run_steps : Text → ℕ → Text → List StepRequest → Svc R (List StepResult × Bool)
  unfolding run_step
  run_steps session_id index current [] = pure ([], false)
  run_steps session_id index current (step ∷ steps) =
      let rest : Text → Svc R (List StepResult × Bool) =
        λ current'. run_steps session_id (index + 1) current' steps in
      do
        outcome ← run_step session_id index current step
        if outcome.stops
            then pure (outcome.item ∷ [], true)
            else do (items, stopped) ← rest outcome.current; pure (outcome.item ∷ items, stopped)

  unfoldable pub run_workflow : Text → List StepRequest → Svc R (List StepResult × Bool)
  unfolding run_steps
  run_workflow session_token [] = raise bad_request
  run_workflow session_token (step ∷ steps) = do
    let session_id = trim_space session_token
    guard (not (session_id == [])) bad_request
    run_steps session_id 0 [] (step ∷ steps)
