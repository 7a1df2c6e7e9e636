-- ===== src/Tests/Runs.antt =====
-- The theorems on the service at concrete worlds.
use sleigh.Store.Schema.{WarmPoolEntry}
use sleigh.Prelude.{
  All, List, length, ◌++◌, ◌-◌, ◌≤◌, ◌≡◌, ◌↔◌, refl, Text, ◌==◌, codes, true, false, none, some, [],
  ◌∷◌, arith, any, find?, trim_space, delete_where, count_where,
}
use sleigh.Prelude.Int.{pos, ◌<ℤ◌, ◌≤ℤ◌, ◌+ℤ◌}
use sleigh.Errors.{ok, err, failure, noted, bad_request}
use sleigh.Store.Schema.{has_sandbox}
use sleigh.Store.Sandboxes.{get_sandbox, create_sandbox}
use sleigh.Store.Pool.{fits, count_warm_pool_available, create_warm_pool_entry}
use sleigh.Service.Types.{World, running, cancelling}
use sleigh.Service.Effects.{sql, new_id, hex, read_clock}
use sleigh.Prelude.Machine.{double_by_float, add_int64, max_int64}
use sleigh.Service.Expand.{first_target, settle, auto_expand_target_one_step}
use sleigh.Service.Expand.Bounds.{
  IsWithin, auto_expand_target-IsWithin, auto_expand_target-no_op_iff,
}
use sleigh.Service.Execs.{find_task, is_live, cancel_exec, execute, ensure_snapshot_safe}
use sleigh.Service.Execs.Run.{finish_exec}
use sleigh.Service.Execs.Settle.{is_open, others}
use sleigh.Service.Execs.Safe.{
  finish_exec_lem, finish_exec-ensure_snapshot_safe, ensure_snapshot_safe_lem, IsQuietFor,
}
use sleigh.Service.Execs.Cancel.{
  cancel_answer, cancel_map, cancel_exec_lem, execute-ensure_snapshot_safe,
}
use sleigh.Service.Pool.{
  warm_image, warm_memory, warm_enabled, add_pool_sandbox, fill, fill_missing, ensure_pool,
  pool_request, pool_row, pool_entry,
}
use sleigh.Service.Pool.Filled.{IsOf, target, fitting, ensure_pool_lem}
use sleigh.Tests.Data.{box, policy, calm, task, world, done}

abbrev e1 : Text
e1 = codes "e1"

abbrev a : Text
a = codes "a"

-- One task that waits, one that is being cancelled.
abbrev busy : World (Unit {0})
busy = world [] (task e1 running ∷ task (codes "e2") cancelling ∷ [])

abbrev single : World (Unit {0})
single = world [] (task e1 running ∷ [])

finish_exec_example :
    (any (is_open e1) (finish_exec calm e1 done none busy).1.exec_map ≡ false)
    × (others e1 (finish_exec calm e1 done none busy).1.exec_map ≡ others e1 busy.exec_map)
finish_exec_example = finish_exec_lem calm e1 done none busy

alone : any (is_live a) (others e1 single.exec_map) ≡ false
unfolding any is_live delete_where ◌==◌
alone = refl

finish_exec-ensure_example :
    (ensure_snapshot_safe a (finish_exec calm e1 done none single).1).0 ≡ ok tt
finish_exec-ensure_example = finish_exec-ensure_snapshot_safe calm e1 done none single a alone

ensure_snapshot_safe_example :
    (((ensure_snapshot_safe a busy).0 ≡ ok tt) ↔ All (IsQuietFor a) busy.exec_map)
    × ((ensure_snapshot_safe a busy).1 ≡ busy)
ensure_snapshot_safe_example = ensure_snapshot_safe_lem a busy

sandbox_found : (sql (get_sandbox a) busy).0 ≡ ok (box a (codes "s"))
unfolding sql get_sandbox find? ◌==◌
sandbox_found = refl

task_found : find_task e1 busy.exec_map ≡ some (task e1 running)
unfolding find_task find? ◌==◌
task_found = refl

cancel_exec_example :
    ((cancel_exec a e1 busy).0 ≡ ok (cancel_answer (task e1 running)))
    × ((cancel_exec a e1 busy).1.exec_map ≡ cancel_map (task e1 running) busy.exec_map)
cancel_exec_example =
    cancel_exec_lem a e1 busy (box a (codes "s")) (task e1 running) sandbox_found task_found refl

-- The second lookup, whose error does not matter, and the insertion of the task fail.
abbrev failing : World (Unit {0})
failing = world (false ∷ true ∷ true ∷ []) []

not_blank : (trim_space (codes "ls") == []) ≡ false
unfolding trim_space ◌==◌
not_blank = refl

box_found : (get_sandbox a failing.db).0 ≡ ok (box a (codes "s"))
unfolding get_sandbox find? ◌==◌
box_found = refl

execute-ensure_example :
    ((execute a (codes "ls") failing).0 ≡ err (failure (codes "database call failed")))
    × ((execute a (codes "ls") failing).1.jobs ≡ [])
    × ((ensure_snapshot_safe a (execute a (codes "ls") failing).1).0
        ≡ err (noted bad_request (codes "exec task is running")))
execute-ensure_example =
    execute-ensure_snapshot_safe a (codes "ls") failing (box a (codes "s")) true [] (1 ∷ [])
      (some (2 ∷ []) ∷ []) not_blank box_found refl refl

pool_filled : (ensure_pool calm policy single).0 ≡ ok tt
unfolding ensure_pool warm_enabled fill_missing fill add_pool_sandbox sql new_id hex read_clock
    warm_image warm_memory pool_request pool_row pool_entry count_warm_pool_available create_sandbox
    create_warm_pool_entry fits has_sandbox any count_where trim_space ◌==◌
pool_filled = refl

ensure_pool_example :
    (added : List WarmPoolEntry) × ((ensure_pool calm policy single).1.db.warm_pool
      ≡ single.db.warm_pool ++ added)
    × (length added ≡ target calm policy - fitting calm policy single)
    × All (IsOf (warm_image policy) (warm_memory policy)) added
    × (target calm policy ≤ fitting calm policy (ensure_pool calm policy single).1)
ensure_pool_example = ensure_pool_lem calm policy single (omega arith) pool_filled

step_taken : (auto_expand_target_one_step (pos 0) (pos 256) policy).no_op ≡ false
unfolding auto_expand_target_one_step first_target settle double_by_float add_int64
step_taken = refl

auto_expand_target-IsWithin_example :
    IsWithin (pos 256) policy (auto_expand_target_one_step (pos 0) (pos 256) policy).target
auto_expand_target-IsWithin_example =
    auto_expand_target-IsWithin (pos 0) (pos 256) policy step_taken

in_range : pos 256 +ℤ pos 1024 ≤ℤ max_int64
unfolding ◌+ℤ◌
in_range = omega arith

auto_expand_target-no_op_example :
    ((auto_expand_target_one_step (pos 0) (pos 256) policy).no_op ≡ true)
    ↔ ((pos 0 <ℤ pos 4096) × (pos 4096 ≤ℤ pos 256))
auto_expand_target-no_op_example =
    auto_expand_target-no_op_iff (pos 0) 256 policy (omega arith) (omega arith) in_range
