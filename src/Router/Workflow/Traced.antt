-- ===== src/Router/Workflow/Traced.antt =====
-- What runWorkflow of router.go replies with, over all its steps.
use sleigh.Prelude.{
  ℕ, ◌+◌, Text, Option, Bool, true, false, List, [], ◌∷◌, codes, trim_space, ◌==◌, ◌≡◌, inl, inr,
  refl, Bool-cases, if◌then◌else◌,
}
use sleigh.Prelude.Int.{ℤ}
use sleigh.Errors.{Result, ok, err}
use sleigh.Action.{pure, continue, ◌>>=◌}
use sleigh.Service.Types.{World, Svc, Backend, Policy}
use sleigh.Service.Snapshots.{Disk}
use sleigh.Router.Workflow.{
  StepRequest, StepResult, StepOutcome, sandbox_or, settle_step, succeeded_item,
  normalize_workflow_action,
}
use sleigh.Router.Workflow.Run.{step_action, run_step, run_steps, run_workflow}
use sleigh.Router.Workflow.Stops.{
  IsMarked, IsTrace, AnswerOf, Gives, not_failed, create_step-Gives, snapshot_step-Gives,
  rollback_step-Gives, delete_step-Gives, exec_step-Gives,
}

abbrev pub TraceOf : List StepRequest → Result (List StepResult × Bool) → Type 0
TraceOf steps (ok (items, stopped)) = IsTrace steps items stopped
TraceOf steps (err e) = Unit

settle_step-IsMarked :
    (item : StepResult) (current : Text) (r : Result StepOutcome)
    → AnswerOf IsMarked r
    → IsMarked (settle_step item current r)
settle_step-IsMarked item current (ok o) h = h
settle_step-IsMarked item current (err e) h = inr (refl, not_failed)

module _ {R : Type 0} (b : Backend R) (policy : Policy) (disk : Disk R) (pause : Svc R (Unit {0}))
    (rounds : ℤ → ℕ) (scheme : Text → Option Text) (session_id : Text) where
  Gives-if :
      (c : Bool) (m n : Svc R StepOutcome)
      → Gives IsMarked m
      → Gives IsMarked n
      → Gives IsMarked (if c then m else n)
  Gives-if true m n km kn = km
  Gives-if false m n km kn = kn

  step_action-Gives :
      (current : Text) (step : StepRequest) (action : Text) (index : ℕ)
      → Gives IsMarked (
          step_action b policy disk pause rounds scheme session_id current step action
            (succeeded_item index action))
  unfolding step_action
  step_action-Gives current step action index =
      let id = sandbox_or (trim_space step.sandbox_id) current in
      Gives-if (action == codes "create_sandbox") _ _
        (create_step-Gives b policy session_id current step index action)
        (Gives-if (action == codes "exec_command") _ _
          (exec_step-Gives b policy session_id current step index action id pause rounds scheme)
          (Gives-if (action == codes "create_snapshot") _ _
            (snapshot_step-Gives b policy session_id current step index action id disk)
            (Gives-if (action == codes "rollback_snapshot") _ _
              (rollback_step-Gives b policy session_id current step index action id disk)
              (Gives-if (action == codes "delete_sandbox") _ _
                (delete_step-Gives b policy session_id current step index action id)
                (record { at = λ w. tt })))))

  trace-cons :
      (step : StepRequest) (steps : List StepRequest) (item : StepResult)
      (r : Result (List StepResult × Bool)) (w : World R)
      → item.status ≡ codes "succeeded"
      → TraceOf steps r
      → TraceOf
          (step ∷ steps)
          (continue r (λ (answer : List StepResult × Bool). pure (item ∷ answer.0, answer.1)) w).0
  trace-cons step steps item (ok (items, stopped)) w h k = inr (h, k)
  trace-cons step steps item (err e) w h k = tt

  trace-continue :
      (step : StepRequest) (steps : List StepRequest) (o : StepOutcome) (w : World R)
      (rest : Text → Svc R (List StepResult × Bool))
      → IsMarked o
      → ((current : Text) (w : World R) → TraceOf steps (rest current w).0)
      → TraceOf
          (step ∷ steps)
          ((if o.stops
              then pure (o.item ∷ [], true)
              else do (items, stopped) ← rest o.current; pure (o.item ∷ items, stopped))
            w).0
  trace-continue step steps o w rest (inr (e, h)) k = rw e (inl (h, refl, refl))
  trace-continue step steps o w rest (inl (e, h)) k =
      rw e
        (trace-cons step steps o.item (rest o.current w).0 (rest o.current w).1 h (k o.current w))

  run_steps-TraceOf :
      (steps : List StepRequest) (index : ℕ) (current : Text) (w : World R)
      → TraceOf steps
          (run_steps b policy disk pause rounds scheme session_id index current steps w).0
  unfolding run_steps run_step
  run_steps-TraceOf [] index current w = (refl, refl)
  run_steps-TraceOf (step ∷ steps) index current w =
      let action = normalize_workflow_action (trim_space step.action) in
      let item = succeeded_item index action in
      let answer =
        step_action b policy disk pause rounds scheme session_id current step action item w in
      trace-continue step steps (settle_step item current answer.0) answer.1
        (λ current'.
          run_steps b policy disk pause rounds scheme session_id (index + 1) current' steps)
        (settle_step-IsMarked item current answer.0
          ((step_action-Gives current step action index).at w))
        (run_steps-TraceOf steps (index + 1))

-- Whatever the driver, the runtime, the host and the others do, when runWorkflow replies with items
-- there is one for each step up to the first that is not marked as succeeded, all before it are, and
-- the reply says that it stopped early exactly if there is such a step.
pub run_workflow-TraceOf :
    {R : Type 0} (b : Backend R) (policy : Policy) (disk : Disk R) (pause : Svc R (Unit {0}))
    (rounds : ℤ → ℕ) (scheme : Text → Option Text) (session_token : Text) (steps : List StepRequest)
    (w : World R)
    → TraceOf steps (run_workflow b policy disk pause rounds scheme session_token steps w).0
unfolding run_workflow
run_workflow-TraceOf b policy disk pause rounds scheme session_token [] w = tt
run_workflow-TraceOf b policy disk pause rounds scheme session_token (step ∷ steps) w =
    elim (Bool-cases (trim_space session_token == [])) [
      | inl e ↦ rw e tt
      | inr e ↦ rw e (
          run_steps-TraceOf b policy disk pause rounds scheme (trim_space session_token)
            (step ∷ steps) 0 [] w)
    ]
