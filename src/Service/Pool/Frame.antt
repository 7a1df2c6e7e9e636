-- ===== src/Service/Pool/Frame.antt =====
-- What the steps around a database call keep of the database.
use sleigh.Prelude.{
  ℕ, ◌≡◌, sym, subst, refl, Text, Bool, true, false, not, ◌||◌, is_blank, trim_space, ◌==◌, Option,
  none, some, List, [], ◌∷◌, Bool-cases, inl, inr,
}
use sleigh.Action.{Action, pure, modify}
use sleigh.Action.Triple.{Triple, Post}
use sleigh.Action.Keeps.{Keeps, Keeps-bind, Keeps-attempt, Keeps-pure, keeps_rules}
use sleigh.Store.Schema.{Db, SandboxRecord, SequenceRow}
use sleigh.Store.Sandboxes.{list_sandboxes_by_session}
use sleigh.Store.Execs.{get_latest_exec_task_by_sandbox}
use sleigh.Store.Sequences.{
  increment_sequence, upsert_sequence, find_sequence, commit_sequence, next_session_sequence,
}
use sleigh.Service.Types.{World, Job, Event, Metadata}
use sleigh.Service.Effects.{sql, sql_with, spawn, call, new_id, draw, read_clock}
use sleigh.Service.Events.{entry_of, entries, report_session, emit_session_aggregate}
use sleigh.Errors.{Result, ok, err}
use sleigh.Service.Pool.{record_managed_image_usage, created_or_now}

module _ {R : Type 0} where
  -- A predicate of the world that looks at the database alone.
  abbrev pub OnDb : (Db → Type 0) → World R → Type 0
  OnDb P w = P w.db

  module _ {A : Type 0} (P : Db → Type 0) (Q : A → Db → Type 0) where
    Post-OnDb :
        (r : Result A) (db : Db) (w : World R)
        → w.db ≡ db
        → Post Q r db
        → Post (λ a. OnDb (Q a)) r w
    Post-OnDb (ok a) db w e h = subst (Q a) (sym e) h
    Post-OnDb (err _) db w e h = tt

    sql_with-Triple :
        (fs : List Bool) (q : Action Db A) (w : World R)
        → Triple P q Q
        → P w.db
        → Post (λ a. OnDb (Q a)) (sql_with fs q w).0 (sql_with fs q w).1
    sql_with-Triple [] q w k h = Post-OnDb (q w.db).0 (q w.db).1 _ refl (k.at w.db h)
    sql_with-Triple (true ∷ fs) q w k h = tt
    sql_with-Triple (false ∷ fs) q w k h = Post-OnDb (q w.db).0 (q w.db).1 _ refl (k.at w.db h)

    pub sql-Triple : (q : Action Db A) → Triple P q Q → Triple (OnDb P) (sql q) (λ a. OnDb (Q a))
    unfolding sql
    sql-Triple q k = record { at = λ w h. sql_with-Triple w.faults q w k h }

  module _ (P : Db → Type 0) where
    draw-OnDb :
        (p : Text) (es : List (Option (List ℕ))) (w : World R) → OnDb P w → OnDb P (draw p es w).1
    draw-OnDb p [] w h = h
    draw-OnDb p (none ∷ es) w h = h
    draw-OnDb p (some bytes ∷ es) w h = h

    pub new_id-OnDb : (p : Text) → Keeps (OnDb P) (new_id {R = R} p)
    unfolding new_id
    new_id-OnDb p = record { at = λ w h. draw-OnDb p w.entropy w h }

    pub call-OnDb : {A : Type 0} (m : Action R A) → Keeps (OnDb P) (call m)
    call-OnDb m = record { at = λ w h. h }

    pub read_clock-OnDb : Keeps (OnDb P) (read_clock {R = R})
    unfolding read_clock
    read_clock-OnDb = record { at = λ w h. h }

    pub created_or_now-OnDb : (t : Text) → Keeps (OnDb P) (created_or_now {R = R} t)
    created_or_now-OnDb [] = read_clock-OnDb
    created_or_now-OnDb (c ∷ t) = Keeps-pure (c ∷ t)

module _ (P : Db → Type 0) where
  list_sandboxes-Keeps : (s : Text) → Keeps P (list_sandboxes_by_session s)
  unfolding list_sandboxes_by_session
  list_sandboxes-Keeps s = record { at = λ db h. h }

  get_latest-Keeps : (id : Text) → Keeps P (get_latest_exec_task_by_sandbox id)
  unfolding get_latest_exec_task_by_sandbox
  get_latest-Keeps id = record { at = λ db h. h }

  module _
      (counted : (db : Db) (rows : List SequenceRow)
        → P db
        → P (record db { sequences = rows })) where
    commit-Keeps :
        (rows : List SequenceRow) (o : Option SequenceRow) → Keeps P (commit_sequence rows o)
    commit-Keeps rows none = record { at = λ db h. h }
    commit-Keeps rows (some r) = record { at = λ db h. counted db rows h }

    next_session_sequence-Keeps : (s : Text) → Keeps P (next_session_sequence s)
    unfolding next_session_sequence
    next_session_sequence-Keeps s = record {
      at = λ db h.
          let rows = increment_sequence s (upsert_sequence s db.sequences) in
          (commit-Keeps rows (find_sequence s rows)).at db h;
    }

module _ {R : Type 0} (P : Db → Type 0) where
  sql_with-OnDb :
      {A : Type 0} (fs : List Bool) (q : Action Db A) (w : World R)
      → Keeps P q
      → P w.db
      → P (sql_with fs q w).1.db
  sql_with-OnDb [] q w k h = k.at w.db h
  sql_with-OnDb (true ∷ fs) q w k h = h
  sql_with-OnDb (false ∷ fs) q w k h = k.at w.db h

  pub sql-OnDb : {A : Type 0} (q : Action Db A) → Keeps P q → Keeps (OnDb {R = R} P) (sql q)
  unfolding sql
  sql-OnDb q k = record { at = λ w h. sql_with-OnDb w.faults q w k h }

  pub spawn-OnDb : (j : Job) → Keeps (OnDb {R = R} P) (spawn j)
  spawn-OnDb j = record { at = λ w h. h }

  entries-OnDb : (rows : List SandboxRecord) → Keeps (OnDb {R = R} P) (entries rows)
  unfolding entries
  entries-OnDb [] = Keeps-pure []
  entries-OnDb (sb ∷ rest) =
      Keeps-bind _ _ (Keeps-attempt _ (sql-OnDb _ (get_latest-Keeps P sb.id))) (λ task.
        Keeps-bind _ (λ more. pure (entry_of sb task ∷ more)) (entries-OnDb rest)
          (λ more. Keeps-pure (entry_of sb task ∷ more)))

  sent-OnDb : (f : World R → List Event) → Keeps (OnDb P) (modify (λ w. record w { sent = f w }))
  sent-OnDb f = record { at = λ w h. h }

  module _
      (counted : (db : Db) (rows : List SequenceRow)
        → P db
        → P (record db { sequences = rows })) where
    report_session-OnDb : (s id t v : Text) → Keeps (OnDb {R = R} P) (report_session s id t v)
    unfolding report_session
    report_session-OnDb s id t v = search (
      keeps_rules,
      sql-OnDb,
      list_sandboxes-Keeps P,
      next_session_sequence-Keeps P counted,
      entries-OnDb,
      read_clock-OnDb,
      sent-OnDb,
    )

    pub emit_session_aggregate-OnDb :
        (s id t v : Text) → Keeps (OnDb {R = R} P) (emit_session_aggregate s id t v)
    unfolding emit_session_aggregate
    emit_session_aggregate-OnDb s id t v = record {
      at = λ w h. elim (Bool-cases (not w.reporting || is_blank s)) [
        | inl e ↦ rw e h
        | inr e ↦ rw e ((report_session-OnDb s id t v).at w h)
      ];
    }

  pub record_managed_image_usage-OnDb :
      (meta : Metadata) → Keeps (OnDb {R = R} P) (record_managed_image_usage meta)
  unfolding record_managed_image_usage
  record_managed_image_usage-OnDb meta = elim (Bool-cases (trim_space meta.image == [])) [
    | inl e ↦ rw e (Keeps-pure tt)
    | inr e ↦ rw e (search (keeps_rules, read_clock-OnDb, spawn-OnDb))
  ]
