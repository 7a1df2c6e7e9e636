-- ===== src/Service/Execs/Settle.antt =====
-- What runExecTask leaves in memory, whatever the runtime and the database did meanwhile.
use sleigh.Prelude.{
  Text, trim_space, ◌==◌, ◌≡◌, refl, ◌∙◌, Bool, true, false, not, ◌&&◌, Option, none, some, List,
  [], ◌∷◌, arith, any, delete_where, update_where, find?, Bool-cases, Option-cases, inl, inr,
  if◌then◌else◌,
}
use sleigh.Prelude.Rows.{delete_where-update_where, any-update_where_of}
use sleigh.Errors.{Error, Result, ok, err, is_canceled}
use sleigh.Action.{pure, modify}
use sleigh.Action.Keeps.{Keeps, Keeps-bind, Keeps-if, Keeps-pure, keeps_rules}
use sleigh.Action.Ends.{
  Succeeds, Ends, Ends-bind, Ends-keep, Succeeds-if, Succeeds-pure, succeeds_rules,
}
use sleigh.Store.Schema.{SandboxRecord}
use sleigh.Service.Types.{World, Svc, ExecTask, ExecOutput, Backend, Snapshot, cancelling}
use sleigh.Service.Effects.{read_clock}
use sleigh.Service.Execs.{has_id, find_task, set_task, is_exec_terminal_status}
use sleigh.Service.Execs.Map.{
  OnMap, sql-OnMap, call-OnMap, read_clock-OnMap, spawn-OnMap, emit_session_aggregate-OnMap,
}
use sleigh.Service.Execs.Run.{
  on_task, with_task, report, report_if, settle, settled_status, set_recovery, roll_back_latest,
  auto_recover_oom, note_recovery, close_task, is_oom_failure, end_task, finish_exec,
}

settled_status-terminal :
    (was : Bool) (e : Option Error) → is_exec_terminal_status (settled_status was e) ≡ true
unfolding settled_status is_exec_terminal_status trim_space ◌==◌
settled_status-terminal was none = refl
settled_status-terminal true (some e) = refl
settled_status-terminal false (some e) = elim (Bool-cases (is_canceled e)) [
  | inl k ↦ rw k refl
  | inr k ↦ rw k refl
]

-- A task of this id that has not ended.
unfoldable pub is_open : Text → ExecTask → Bool
unfolding is_exec_terminal_status
is_open exec_id t = has_id exec_id t && not (is_exec_terminal_status t.result.status)

-- The tasks of other ids.
abbrev pub others : Text → List ExecTask → List ExecTask
others exec_id m = delete_where (has_id exec_id) m

module _ {R : Type 0} (Q : List ExecTask → Type 0) where
  report_if-OnMap :
      (r : Result SandboxRecord) (id t v : Text) → Keeps (OnMap Q) (report_if {R = R} r id t v)
  report_if-OnMap (ok row) id t v = emit_session_aggregate-OnMap Q row.session_id id t v
  report_if-OnMap (err e) id t v = search keeps_rules

  pub report-OnMap : (id t v : Text) → Keeps (OnMap Q) (report {R = R} id t v)
  unfolding report
  report-OnMap id t v = search (keeps_rules, sql-OnMap, report_if-OnMap)

  on_task-OnMap :
      (t : Option ExecTask) (f : ExecTask → Svc R (Unit {0}))
      → ((t : ExecTask) → Keeps (OnMap Q) (f t))
      → Keeps (OnMap Q) (on_task t f)
  on_task-OnMap none f k = search keeps_rules
  on_task-OnMap (some t) f k = k t

  pub with_task-OnMap :
      (exec_id : Text) (f : ExecTask → Svc R (Unit {0}))
      → ((t : ExecTask) → Keeps (OnMap Q) (f t))
      → Keeps (OnMap Q) (with_task exec_id f)
  unfolding with_task
  with_task-OnMap exec_id f k = record {
    at = λ w h. (on_task-OnMap (find_task exec_id w.exec_map) f k).at w h;
  }

  module _ (b : Backend R) where
    roll_back_latest-OnMap :
        (id : Text) (r : Result (List Snapshot)) → Keeps (OnMap Q) (roll_back_latest b id r)
    roll_back_latest-OnMap id (ok []) = search keeps_rules
    roll_back_latest-OnMap id (ok (latest ∷ rest)) = search (keeps_rules, call-OnMap)
    roll_back_latest-OnMap id (err e) = search keeps_rules

    auto_recover_oom-OnMap : (id : Text) → Keeps (OnMap Q) (auto_recover_oom b id)
    unfolding auto_recover_oom
    auto_recover_oom-OnMap id = search (keeps_rules, sql-OnMap, roll_back_latest-OnMap)

    close_task-OnMap : (t : ExecTask) → Keeps (OnMap Q) (close_task b t)
    unfolding close_task
    close_task-OnMap t = search (keeps_rules, sql-OnMap, report-OnMap, spawn-OnMap)

    note_recovery-OnMap :
        (exec_id id : Text)
        → ((note : Text) (m : List ExecTask)
            → Q m
            → Q (update_where (has_id exec_id) (set_recovery note) m))
        → Keeps (OnMap Q) (note_recovery b exec_id id)
    unfolding note_recovery set_task
    note_recovery-OnMap exec_id id k =
        Keeps-bind _ _ (auto_recover_oom-OnMap id)
          (λ note. record { at = λ w h. k note w.exec_map h })

module _ {R : Type 0} (b : Backend R) where
  roll_back_latest-Succeeds :
      (id : Text) (r : Result (List Snapshot)) → Succeeds (roll_back_latest b id r)
  roll_back_latest-Succeeds id (ok []) = search succeeds_rules
  roll_back_latest-Succeeds id (ok (latest ∷ rest)) = search succeeds_rules
  roll_back_latest-Succeeds id (err e) = search succeeds_rules

  auto_recover_oom-Succeeds : (id : Text) → Succeeds (auto_recover_oom b id)
  unfolding auto_recover_oom
  auto_recover_oom-Succeeds id = search (succeeds_rules, roll_back_latest-Succeeds)

  note_recovery-Succeeds : (exec_id id : Text) → Succeeds (note_recovery b exec_id id)
  unfolding note_recovery
  note_recovery-Succeeds exec_id id = search (succeeds_rules, auto_recover_oom-Succeeds)

  read_clock-Succeeds : Succeeds (read_clock {R = R})
  unfolding read_clock
  read_clock-Succeeds = record { from = λ w. tt }

  settle-others :
      (exec_id : Text) (output : ExecOutput) (e : Option Error) (now : Text) (m l : List ExecTask)
      → others exec_id m ≡ l
      → others exec_id (update_where (has_id exec_id) (settle output e now) m) ≡ l
  unfolding settle
  settle-others exec_id output e now m l h =
      delete_where-update_where (has_id exec_id) (settle output e now) m (λ t. refl) ∙ h

  recovery-others :
      (exec_id note : Text) (m l : List ExecTask)
      → others exec_id m ≡ l
      → others exec_id (update_where (has_id exec_id) (set_recovery note) m) ≡ l
  unfolding set_recovery
  recovery-others exec_id note m l h =
      delete_where-update_where (has_id exec_id) (set_recovery note) m (λ t. refl) ∙ h

  settle-Closed :
      (exec_id : Text) (output : ExecOutput) (e : Option Error) (now : Text) (m : List ExecTask)
      → any (is_open exec_id) (update_where (has_id exec_id) (settle output e now) m) ≡ false
  unfolding settle is_open
  settle-Closed exec_id output e now m =
      any-update_where_of (is_open exec_id) (has_id exec_id) (settle output e now) m
        (λ t h. rw (settled_status-terminal (t.result.status == cancelling) e, h) refl)
        (λ t h. rw h refl)

  module _ (exec_id : Text) (output : ExecOutput) (e : Option Error) where
    set_settled-OnMap :
        (Q : List ExecTask → Type 0) (now : Text)
        → ((m : List ExecTask) → Q m → Q (update_where (has_id exec_id) (settle output e now) m))
        → Keeps (OnMap {R = R} Q) (modify (set_task exec_id (settle output e now)))
    unfolding set_task
    set_settled-OnMap Q now k = record { at = λ w h. k w.exec_map h }

    end_task-others :
        (l : List ExecTask)
        → Keeps (OnMap {R = R} (λ m. others exec_id m ≡ l)) (end_task b exec_id output e)
    unfolding end_task
    end_task-others l =
        let Q : List ExecTask → Type 0 = λ m. others exec_id m ≡ l in
        Keeps-bind _ _ (read_clock-OnMap Q) (λ now.
          Keeps-bind (modify (set_task exec_id (settle output e now))) _
            (set_settled-OnMap Q now (λ m h. settle-others exec_id output e now m l h))
            (λ _. with_task-OnMap Q exec_id _ (close_task-OnMap Q b)))

    pub finish_exec-others :
        (l : List ExecTask)
        → Keeps (OnMap {R = R} (λ m. others exec_id m ≡ l)) (finish_exec b exec_id output e)
    unfolding finish_exec
    finish_exec-others l =
        let Q : List ExecTask → Type 0 = λ m. others exec_id m ≡ l in
        with_task-OnMap Q exec_id _ (λ t.
          Keeps-bind _ _
            (Keeps-if _ _ _
              (note_recovery-OnMap Q b exec_id t.result.sandbox_id
                (λ note m h. recovery-others exec_id note m l h))
              (Keeps-pure tt))
            (λ _. end_task-others l))

    abbrev Closed : World R → Type 0
    Closed = OnMap (λ m. any (is_open exec_id) m ≡ false)

    end_task-Closed : Ends Closed (end_task b exec_id output e)
    unfolding end_task set_task
    end_task-Closed = Ends-bind _ _ read_clock-Succeeds (λ now.
        Ends-keep (modify (set_task exec_id (settle output e now))) _
          (record { at = λ w. settle-Closed exec_id output e now w.exec_map })
          (λ _.
            with_task-OnMap (λ m. any (is_open exec_id) m ≡ false) exec_id _
              (close_task-OnMap (λ m. any (is_open exec_id) m ≡ false) b)))

    absent-Closed :
        (m : List ExecTask) → find_task exec_id m ≡ none → any (is_open exec_id) m ≡ false
    unfolding find_task find? any is_open
    absent-Closed [] h = refl
    absent-Closed (t ∷ m) h = ground (arith, absent-Closed m)

    pub finish_exec-Closed : (w : World R) → Closed (finish_exec b exec_id output e w).1
    unfolding finish_exec with_task
    finish_exec-Closed w = elim (Option-cases (find_task exec_id w.exec_map)) [
      | inl h ↦ rw h (absent-Closed w.exec_map h)
      | inr (t, h) ↦ rw h (
          (Ends-bind
              (if is_oom_failure output e
                then note_recovery b exec_id t.result.sandbox_id
                else pure tt)
              _
              (Succeeds-if _ _ _ (note_recovery-Succeeds exec_id t.result.sandbox_id)
                (Succeeds-pure tt))
              (λ _. end_task-Closed)).at
            w)
    ]
