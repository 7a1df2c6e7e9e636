-- ===== src/Service/Expand/Bounds.antt =====
-- The target that autoExpandTargetOneStep computes lies above the limit and within the policy.
use sleigh.Prelude.{ℕ, zero, suc, ◌*◌, ◌<◌, ◌≡◌, ◌↔◌, ◌⊎◌, arith, true, false, Option, none, some}
use sleigh.Prelude.Int.{ℤ, pos, ◌+ℤ◌, ◌≤ℤ◌, ◌<ℤ◌}
use sleigh.Prelude.Machine.{max_int64, add_int64, double_by_float-exact}
use sleigh.Service.Types.{Policy}
use sleigh.Service.Expand.{first_target, settle, settle_first, auto_expand_target_one_step}

-- What a target owes to the limit and to the policy.
pub record IsWithin (current : ℤ) (policy : Policy) (target : ℤ) : Type 0 where
  pub up : current <ℤ target
  pub ceiling : (policy.max_expand_mb ≤ℤ pos 0) ⊎ (target ≤ℤ policy.max_expand_mb)
  pub stepwise :
      (policy.max_expand_step_mb ≤ℤ pos 0)
      ⊎ ((add_int64 current policy.max_expand_step_mb <ℤ policy.min_expand_mb)
          ⊎ (target ≤ℤ add_int64 current policy.max_expand_step_mb))

settle-IsWithin :
    (policy : Policy) (current first : ℤ)
    → (settle policy current first).no_op ≡ false
    → IsWithin current policy (settle policy current first).target
unfolding settle
settle-IsWithin policy current first h = record {
  up = ground arith;
  ceiling = ground arith;
  stepwise = ground arith;
}

settle_first-IsWithin :
    (policy : Policy) (current : ℤ) (o : Option ℤ)
    → (settle_first policy current o).no_op ≡ false
    → IsWithin current policy (settle_first policy current o).target
settle_first-IsWithin policy current none h = cc
settle_first-IsWithin policy current (some first) h = settle-IsWithin policy current first h

-- A target of autoExpandTargetOneStep that is not a no-op is above the limit, at most the ceiling
-- and at most one step up unless the minimum is above that.
pub auto_expand_target-IsWithin :
    (overflow current : ℤ) (policy : Policy)
    → (auto_expand_target_one_step overflow current policy).no_op ≡ false
    → IsWithin current policy (auto_expand_target_one_step overflow current policy).target
unfolding auto_expand_target_one_step
auto_expand_target-IsWithin overflow current policy h =
    settle_first-IsWithin policy current (first_target overflow current) h

first_target-double :
    (overflow : ℤ) (n : ℕ)
    → 0 < n
    → n < 4503599627370496
    → first_target overflow (pos n) ≡ some (pos (2 * n))
unfolding first_target
first_target-double overflow n h k = ground (arith, double_by_float-exact overflow n)

settle-no_op_iff :
    (policy : Policy) (n : ℕ)
    → 0 < n
    → pos 0 ≤ℤ policy.max_expand_step_mb
    → pos n +ℤ policy.max_expand_step_mb ≤ℤ max_int64
    → ((settle policy (pos n) (pos (2 * n))).no_op ≡ true)
      ↔ ((pos 0 <ℤ policy.max_expand_mb) × (policy.max_expand_mb ≤ℤ pos n))
unfolding settle add_int64
settle-no_op_iff policy n h k l = (λ e. ground arith, λ e. ground arith)

first_target-zero : (overflow : ℤ) → first_target overflow (pos 0) ≡ some (pos 256)
unfolding first_target add_int64
first_target-zero overflow = ground (arith, double_by_float-exact overflow 0)

settle-up :
    (policy : Policy)
    → pos 0 ≤ℤ policy.max_expand_step_mb
    → pos 0 +ℤ policy.max_expand_step_mb ≤ℤ max_int64
    → ((settle policy (pos 0) (pos 256)).no_op ≡ true)
      ↔ ((pos 0 <ℤ policy.max_expand_mb) × (policy.max_expand_mb ≤ℤ pos 0))
unfolding settle add_int64
settle-up policy k l = (λ e. ground arith, λ e. ground arith)

-- For a limit from 0 on and below 2^52 MB, with a step that is not negative and does not overflow,
-- autoExpandTargetOneStep does nothing exactly when a ceiling is set and reached.
pub auto_expand_target-no_op_iff :
    (overflow : ℤ) (n : ℕ) (policy : Policy)
    → n < 4503599627370496
    → pos 0 ≤ℤ policy.max_expand_step_mb
    → pos n +ℤ policy.max_expand_step_mb ≤ℤ max_int64
    → ((auto_expand_target_one_step overflow (pos n) policy).no_op ≡ true)
      ↔ ((pos 0 <ℤ policy.max_expand_mb) × (policy.max_expand_mb ≤ℤ pos n))
unfolding auto_expand_target_one_step
auto_expand_target-no_op_iff overflow zero policy s k l =
    rw (first_target-zero overflow) (settle-up policy k l)
auto_expand_target-no_op_iff overflow (suc n) policy s k l =
    rw (first_target-double overflow (suc n) (omega arith) s)
      (settle-no_op_iff policy (suc n) (omega arith) k l)
