-- ===== src/Service/Execs/Cancel.antt =====
-- CancelExec of service.go, and an Execute whose row the database refuses.
use sleigh.Prelude.{
  ℕ, Text, codes, ◌||◌, trim_space, ◌==◌, ◌≡◌, refl, sym, ap, ◌∙◌, Bool, true, false, Option, some,
  List, [], ◌∷◌, arith, any, delete_where, update_where, Bool-cases, inl, inr, text_eq_iff,
  if◌then◌else◌,
}
use sleigh.Prelude.Rows.{any-append}
use sleigh.Errors.{ok, err, failure, noted, bad_request}
use sleigh.Store.Schema.{SandboxRecord}
use sleigh.Store.Sandboxes.{get_sandbox}
use sleigh.Service.Types.{World, ExecTask, ExecResult, running}
use sleigh.Service.Effects.{sql, new_id, read_clock}
use sleigh.Service.Execs.{
  has_id, find_task, put_task, set_task, is_live, new_task, mark_cancelling, cancel_exec,
  cancel_task, cancel_and_store, execute, ensure_snapshot_safe,
}
use sleigh.Service.Execs.Map.{sql-OnMap}

-- The answer of CancelExec and the map after it, from the task found.
unfoldable pub cancel_answer : ExecTask → ExecResult
cancel_answer t =
    if t.result.status == codes "running"
    then record t.result { status = codes "cancelling" }
    else t.result

unfoldable pub cancel_map : ExecTask → List ExecTask → List ExecTask
unfolding update_where
cancel_map t m =
    if t.result.status == codes "running"
    then update_where (λ x. x.result.id == t.result.id)
        (λ x. record x {
          result = record x.result { status = codes "cancelling" };
          canceled = x.canceled || x.cancel;
        })
        m
    else m

new_task-is_live :
    (exec_id sandbox_id command now : Text) (m : List ExecTask)
    → any (is_live sandbox_id) (put_task (new_task exec_id sandbox_id command now) m) ≡ true
unfolding put_task is_live any ◌==◌
new_task-is_live exec_id sandbox_id command now m =
    let old = delete_where (has_id exec_id) m in
    let t = new_task exec_id sandbox_id command now in
    any-append (is_live sandbox_id) old (t ∷ [])
    ∙ rw ((text_eq_iff sandbox_id sandbox_id).1 refl) (ground arith)

module _ {R : Type 0} where
  cancel_and_store_lem :
      (t : ExecTask) (w : World R)
      → ((cancel_and_store t w).0 ≡ ok (mark_cancelling t).result)
        × ((cancel_and_store t w).1.exec_map
            ≡ update_where (has_id t.result.id) mark_cancelling w.exec_map)
  unfolding set_task
  cancel_and_store_lem t w = (
    refl,
    (sql-OnMap (λ m. m ≡ update_where (has_id t.result.id) mark_cancelling w.exec_map) _).at
        (set_task t.result.id mark_cancelling w) refl,
  )

  cancel_task_lem :
      (sandbox_id : Text) (t : ExecTask) (w : World R) (m : List ExecTask)
      → w.exec_map ≡ m
      → t.result.sandbox_id ≡ sandbox_id
      → ((cancel_task sandbox_id (some t) w).0 ≡ ok (cancel_answer t))
        × ((cancel_task sandbox_id (some t) w).1.exec_map ≡ cancel_map t m)
  unfolding cancel_answer cancel_map mark_cancelling
  cancel_task_lem sandbox_id t w m same l = elim (Bool-cases (t.result.status == running)) [
    | inl e ↦
        rw ((text_eq_iff t.result.sandbox_id sandbox_id).1 l, e, sym same)
          (cancel_and_store_lem t w)
    | inr e ↦ rw ((text_eq_iff t.result.sandbox_id sandbox_id).1 l, e) (refl, same)
  ]

  -- CancelExec on a task that is found, of a sandbox that is found: if the task is not running it
  -- answers with the task and leaves the tasks in memory as they are; if it is, it answers with the
  -- task in the status "cancelling", and of the tasks in memory those of this id, and no others, get
  -- that status, with their context cancelled if they hold its cancel function, whatever the update
  -- of the row gives.
  pub cancel_exec_lem :
      (sandbox_id exec_id : Text) (w : World R) (row : SandboxRecord) (t : ExecTask)
      → (sql (get_sandbox sandbox_id) w).0 ≡ ok row
      → find_task exec_id w.exec_map ≡ some t
      → t.result.sandbox_id ≡ sandbox_id
      → ((cancel_exec sandbox_id exec_id w).0 ≡ ok (cancel_answer t))
        × ((cancel_exec sandbox_id exec_id w).1.exec_map ≡ cancel_map t w.exec_map)
  unfolding cancel_exec
  cancel_exec_lem sandbox_id exec_id w row t h k l =
      let w1 = (sql (get_sandbox sandbox_id) w).1 in
      let same : w1.exec_map ≡ w.exec_map =
        (sql-OnMap (λ m. m ≡ w.exec_map) (get_sandbox sandbox_id)).at w refl in
      let found : find_task exec_id w1.exec_map ≡ some t = ap (find_task exec_id) same ∙ k in
      rw (h, found) (cancel_task_lem sandbox_id t w1 w.exec_map same l)

  live-refused :
      (sandbox_id : Text) (w : World R)
      → any (is_live sandbox_id) w.exec_map ≡ true
      → (ensure_snapshot_safe sandbox_id w).0
        ≡ err (noted bad_request (codes "exec task is running"))
  unfolding ensure_snapshot_safe
  live-refused sandbox_id w h = rw h refl

  -- An Execute of a command that is not blank, on a sandbox that the first lookup finds, with an id
  -- drawn, whose insertion of the row the driver fails, whether or not the driver fails the second
  -- lookup, returns the error, starts no goroutine, and leaves a running task that blocks every
  -- snapshot of the sandbox.
  pub execute-ensure_snapshot_safe :
      (sandbox_id command : Text) (w : World R) (row : SandboxRecord) (second : Bool)
      (fs : List Bool) (bytes : List ℕ) (es : List (Option (List ℕ)))
      → (trim_space command == []) ≡ false
      → (get_sandbox sandbox_id w.db).0 ≡ ok row
      → w.faults ≡ false ∷ second ∷ true ∷ fs
      → w.entropy ≡ some bytes ∷ es
      → ((execute sandbox_id command w).0 ≡ err (failure (codes "database call failed")))
        × ((execute sandbox_id command w).1.jobs ≡ w.jobs)
        × ((ensure_snapshot_safe sandbox_id (execute sandbox_id command w).1).0
            ≡ err (noted bad_request (codes "exec task is running")))
  unfolding execute sql new_id read_clock get_sandbox
  execute-ensure_snapshot_safe sandbox_id command w row false fs bytes es hc hr hf he =
      rw (hc, hf, hr, hr, he)
        (refl, refl, live-refused sandbox_id _ (new_task-is_live _ sandbox_id _ _ w.exec_map))
  execute-ensure_snapshot_safe sandbox_id command w row true fs bytes es hc hr hf he =
      rw (hc, hf, hr, he)
        (refl, refl, live-refused sandbox_id _ (new_task-is_live _ sandbox_id _ _ w.exec_map))
