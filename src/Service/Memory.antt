-- ===== src/Service/Memory.antt =====
-- service.go: GetMemoryPressure, ExpandMemory, AutoExpandMemory, preExecAutoExpandIfNeeded.
use sleigh.Prelude.{
  Text, Bool, false, not, ◌&&◌, [], ◌++◌, codes, trim_space, is_blank, to_lower, ◌==◌,
  if◌then◌else◌,
}
use sleigh.Prelude.Int.{ℤ, pos, leb_ℤ, ltb_ℤ}
use sleigh.Errors.{bad_request}
use sleigh.Action.{pure, guard, ◌>>=◌, ◌>>◌}
use sleigh.Store.Schema.{Labels, label}
use sleigh.Store.Sandboxes.{get_sandbox}
use sleigh.Service.Types.{Backend, Policy, AutoExpandResult, MemoryPressure, Svc}
use sleigh.Service.Effects.{sql, call}
use sleigh.Service.Expand.{Step, auto_expand_target_one_step}

abbrev pub not_expanded : AutoExpandResult
not_expanded = record { triggered = false; from_mb = pos 0; to_mb = pos 0; reason = [] }

-- strings.EqualFold(strings.TrimSpace(labels["auto_expand_memory"]), "true")
unfoldable pub wants_auto_expand : Labels → Bool
wants_auto_expand labels =
    to_lower (trim_space (label labels (codes "auto_expand_memory"))) == codes "true"

-- The runtime's reason goes behind that of the pressure.
unfoldable pub joined_reason : Text → AutoExpandResult → AutoExpandResult
joined_reason pressure res =
    if res.triggered && not (pressure == [])
    then record res {
      reason = if is_blank res.reason then pressure else pressure ++ codes "; " ++ res.reason;
    }
    else res

module _ {R : Type 0} (b : Backend R) where
  unfoldable pub get_memory_pressure : Text → Svc R MemoryPressure
  get_memory_pressure sandbox_id = do
    sql (get_sandbox sandbox_id)
    call (b.get_memory_pressure sandbox_id)

  module _ (policy : Policy) where
    unfoldable pub expand_memory : Text → ℤ → Svc R AutoExpandResult
    expand_memory sandbox_id target_mb = do
      sql (get_sandbox sandbox_id)
      guard (leb_ℤ policy.min_expand_mb target_mb) bad_request
      meta ← call (b.get sandbox_id)
      guard (ltb_ℤ meta.memory_limit_mb target_mb) bad_request
      call (b.expand_memory sandbox_id target_mb)

    abbrev pub expand_by : Text → ℤ → Step → Svc R AutoExpandResult
    expand_by sandbox_id current step =
        if step.no_op
        then pure
            (record { triggered = false; from_mb = current; to_mb = current; reason = step.reason })
        else call (b.expand_memory sandbox_id step.target)

    abbrev pub expand_one_step : ℤ → Text → ℤ → Svc R AutoExpandResult
    expand_one_step overflow sandbox_id current =
        if leb_ℤ current (pos 0)
        then pure (record not_expanded {
          reason = codes "current memory limit unavailable from runtime metadata";
        })
        else expand_by sandbox_id current (auto_expand_target_one_step overflow current policy)

    -- `overflow` is what the implementation makes of a float64 outside int64.
    unfoldable pub auto_expand_memory : ℤ → Text → Svc R AutoExpandResult
    auto_expand_memory overflow sandbox_id = do
      sql (get_sandbox sandbox_id)
      meta ← call (b.get sandbox_id)
      expand_one_step overflow sandbox_id meta.memory_limit_mb

    unfoldable pub pre_exec_auto_expand_if_needed : ℤ → Text → Svc R AutoExpandResult
    pre_exec_auto_expand_if_needed overflow sandbox_id = do
      row ← sql (get_sandbox sandbox_id)
      if not (wants_auto_expand row.labels) then pure not_expanded else do
        pressure ← call (b.get_memory_pressure sandbox_id)
        if not pressure.near_limit then pure not_expanded else do
          res ← auto_expand_memory overflow sandbox_id
          pure (joined_reason pressure.reason res)
