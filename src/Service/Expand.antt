-- ===== src/Service/Expand.antt =====
-- service.go, autoExpandTargetOneStep: the next memory limit of a sandbox under pressure.
pub mod Bounds
use sleigh.Prelude.{
  ℕ, ◌+◌, ◌*◌, ◌≤◌, ◌<◌, ◌≡◌, refl, arith, Text, codes, Bool, true, false, ◌&&◌, Option, none, some,
  ◌++◌, if◌then◌else◌, [],
}
use sleigh.Prelude.Int.{ℤ, pos, negsuc, ◌+ℤ◌, ltb_ℤ, leb_ℤ, ◌≤ℤ◌, ◌<ℤ◌}
use sleigh.Prelude.Machine.{max_int64, min_int64, add_int64, double_by_float, double_by_float-exact}
use sleigh.Prelude.Decimal.{decimal_ℤ}
use sleigh.Service.Types.{Policy}

-- The three results: the target, whether there is nothing to do, and why.
pub record Step : Type 0 where
  pub target : ℤ
  pub no_op : Bool
  pub reason : Text

-- Twice the limit, or 256 MB more where doubling does not go up; `none` at the end of int64.
unfoldable pub first_target : ℤ → ℤ → Option ℤ
first_target overflow current =
    let target = double_by_float overflow current in
    if leb_ℤ target current
    then (if leb_ℤ current (pos 9223372036854775551)
        then some (add_int64 current (pos 256))
        else none)
    else some target

unfoldable pub cap_step : Policy → ℤ → ℤ → ℤ
cap_step policy current target =
    let step_cap = add_int64 current policy.max_expand_step_mb in
    if ltb_ℤ (pos 0) policy.max_expand_step_mb && ltb_ℤ step_cap target then step_cap else target

unfoldable pub raise_to_min : Policy → ℤ → ℤ
raise_to_min policy target =
    if ltb_ℤ (pos 0) policy.min_expand_mb && ltb_ℤ target policy.min_expand_mb
    then policy.min_expand_mb
    else target

unfoldable pub cap_total : Policy → ℤ → ℤ
cap_total policy target =
    if ltb_ℤ (pos 0) policy.max_expand_mb && ltb_ℤ policy.max_expand_mb target
    then policy.max_expand_mb
    else target

abbrev pub nothing : Text → Step
nothing reason = record { target = pos 0; no_op = true; reason = reason }

unfoldable pub at_ceiling : Policy → ℤ → Text
at_ceiling policy current =
    if ltb_ℤ (pos 0) policy.max_expand_mb
    then codes "already at-or-above configured ceiling ("
      ++ decimal_ℤ policy.max_expand_mb
      ++ codes " MB); current="
      ++ decimal_ℤ current
      ++ codes " MB"
    else codes "cannot compute higher target; current=" ++ decimal_ℤ current ++ codes " MB"

unfoldable pub settle : Policy → ℤ → ℤ → Step
unfolding cap_step raise_to_min cap_total at_ceiling
settle policy current first =
    let target = cap_total policy (raise_to_min policy (cap_step policy current first)) in
    if leb_ℤ target current
    then nothing (at_ceiling policy current)
    else record { target = target; no_op = false; reason = [] }

abbrev pub settle_first : Policy → ℤ → Option ℤ → Step
settle_first policy current none = nothing (
    codes "current memory limit already at maximum representable ("
    ++ decimal_ℤ current
    ++ codes " MB)")
settle_first policy current (some first) = settle policy current first

unfoldable pub auto_expand_target_one_step : ℤ → ℤ → Policy → Step
unfolding first_target settle
auto_expand_target_one_step overflow current policy =
    settle_first policy current (first_target overflow current)
