-- ===== src/Router/Workflow/Stops.antt =====
-- The items that runWorkflow of router.go replies with.
use sleigh.Prelude.{
  ℕ, Text, Option, Bool, true, false, List, [], ◌∷◌, codes, ◌==◌, ◌≡◌, ◌≢◌, ◌⊎◌, inl, inr, refl,
  text_eq_iff,
}
use sleigh.Prelude.Int.{ℤ}
use sleigh.Errors.{Result, ok, err}
use sleigh.Action.{Action, pure, continue, ◌>>=◌}
use sleigh.Service.Types.{Svc, Backend, Policy, ExecResult}
use sleigh.Service.Snapshots.{Disk}
use sleigh.Router.Workflow.{
  StepRequest, StepResult, StepOutcome, goes_on, succeeded_item, finish_step, after_wait, exec_step,
  create_step, snapshot_step, rollback_step, delete_step,
}

-- A step stops the workflow exactly if its item is not marked as succeeded.
abbrev pub IsMarked : StepOutcome → Type 0
IsMarked o =
    ((o.stops ≡ false) × (o.item.status ≡ codes "succeeded"))
    ⊎ ((o.stops ≡ true) × (o.item.status ≢ codes "succeeded"))

-- One item for each step, up to the first that did not succeed.
abbrev pub IsTrace : List StepRequest → List StepResult → Bool → Type 0
IsTrace [] items stopped = (items ≡ []) × (stopped ≡ false)
IsTrace (step ∷ steps) [] stopped = true ≡ false
IsTrace (step ∷ steps) (item ∷ items) stopped =
    ((item.status ≢ codes "succeeded") × (items ≡ []) × (stopped ≡ true))
    ⊎ ((item.status ≡ codes "succeeded") × IsTrace steps items stopped)

abbrev pub AnswerOf : {A : Type 0} → (A → Type 0) → Result A → Type 0
AnswerOf Q (ok a) = Q a
AnswerOf Q (err e) = Unit

pub record Gives {S A : Type 0} (Q : A → Type 0) (m : Action S A) : Type 0 where
  pub at : (s : S) → AnswerOf Q (m s).0

module _ {S A B : Type 0} {Q : B → Type 0} where
  answer-continue :
      (r : Result A) (f : A → Action S B) (s : S)
      → ((a : A) → Gives Q (f a))
      → AnswerOf Q (continue r f s).0
  answer-continue (ok a) f s k = (k a).at s
  answer-continue (err e) f s k = tt

  Gives-bind : (m : Action S A) (f : A → Action S B) → ((a : A) → Gives Q (f a)) → Gives Q (m >>= f)
  Gives-bind m f k = record { at = λ s. answer-continue (m s).0 f (m s).1 k }

Gives-pure : {S A : Type 0} {Q : A → Type 0} (a : A) → Q a → Gives {S = S} Q (pure a)
Gives-pure a h = record { at = λ s. h }

IsMarked-goes_on :
    (item : StepResult) (current : Text)
    → item.status ≡ codes "succeeded"
    → IsMarked (goes_on item current)
IsMarked-goes_on item current h = inl (refl, h)

differs : (s t : Text) → (s == t) ≡ false → s ≢ t
differs s t e h = let f = (text_eq_iff s t).1 h in cc

not_succeeded : codes "timed_out" ≢ codes "succeeded"
unfolding ◌==◌
not_succeeded = differs (codes "timed_out") (codes "succeeded") refl

pub not_failed : codes "failed" ≢ codes "succeeded"
unfolding ◌==◌
not_failed = differs (codes "failed") (codes "succeeded") refl

Gives-goes_on :
    {S : Type 0} (item : StepResult) (current : Text)
    → item.status ≡ codes "succeeded"
    → Gives {S = S} IsMarked (pure (goes_on item current))
Gives-goes_on item current h = Gives-pure _ (IsMarked-goes_on item current h)

module _ {R : Type 0} (b : Backend R) (policy : Policy) (session_id current : Text)
    (step : StepRequest) (index : ℕ) (action : Text) where
  pub create_step-Gives :
      Gives IsMarked (create_step b policy session_id current step (succeeded_item index action))
  create_step-Gives = Gives-bind _ _ (λ meta. Gives-pure _ (inl (refl, refl)))

  module _ (sandbox_id : Text) where
    pub snapshot_step-Gives :
        (disk : Disk R)
        → Gives IsMarked (
            snapshot_step b policy disk session_id current sandbox_id (succeeded_item index action))
    snapshot_step-Gives disk = search (Gives-bind, Gives-goes_on)

    pub rollback_step-Gives :
        (disk : Disk R)
        → Gives IsMarked (
            rollback_step b policy disk session_id current sandbox_id step
              (succeeded_item index action))
    rollback_step-Gives disk = search (Gives-bind, Gives-goes_on)

    pub delete_step-Gives :
        Gives IsMarked
          (delete_step b policy session_id current sandbox_id (succeeded_item index action))
    delete_step-Gives = search (Gives-bind, Gives-goes_on)

    after_wait-IsMarked :
        (seconds : ℤ) (started : ExecResult) (waited : ExecResult × Bool)
        → IsMarked
            (after_wait seconds sandbox_id current started (succeeded_item index action) waited)
    after_wait-IsMarked seconds started (result, true) = inr (refl, not_succeeded)
    after_wait-IsMarked seconds started (result, false) = inl (refl, refl)

    pub finish_step-Gives :
        (pause : Svc R (Unit {0})) (rounds : ℤ → ℕ) (wait : Bool) (seconds : ℤ)
        (started : ExecResult)
        → Gives IsMarked (
            finish_step b policy pause rounds wait seconds sandbox_id current started
              (succeeded_item index action))
    finish_step-Gives pause rounds false seconds started = Gives-pure _ (inl (refl, refl))
    finish_step-Gives pause rounds true seconds started =
        Gives-bind _ _ (λ waited. Gives-pure _ (after_wait-IsMarked seconds started waited))

    pub exec_step-Gives :
        (pause : Svc R (Unit {0})) (rounds : ℤ → ℕ) (scheme : Text → Option Text)
        → Gives IsMarked (
            exec_step b policy pause rounds scheme session_id current sandbox_id step
              (succeeded_item index action))
    exec_step-Gives pause rounds scheme =
        search (Gives-bind, finish_step-Gives pause rounds) depth 9
