-- ===== src/Service/Execs/Map.antt =====
-- What leaves the exec tasks in memory alone: predicates of the map that an action keeps.
use sleigh.Prelude.{
  ℕ, Text, Bool, true, false, not, ◌||◌, is_blank, Option, none, some, List, [], ◌∷◌, Bool-cases,
  inl, inr,
}
use sleigh.Action.{Action, pure, modify}
use sleigh.Action.Keeps.{Keeps, Keeps-bind, Keeps-attempt, Keeps-pure, keeps_rules}
use sleigh.Store.Schema.{Db, SandboxRecord}
use sleigh.Service.Types.{World, Job, Event, ExecTask}
use sleigh.Service.Effects.{sql_with, sql, call, spawn, read_clock, draw, new_id}
use sleigh.Service.Events.{entry_of, entries, report_session, emit_session_aggregate}

module _ {R : Type 0} (Q : List ExecTask → Type 0) where
  -- The predicate of the world that looks at the map alone.
  abbrev pub OnMap : World R → Type 0
  OnMap w = Q w.exec_map

  sql_with-OnMap :
      {A : Type 0} (fs : List Bool) (q : Action Db A) (w : World R)
      → OnMap w
      → OnMap (sql_with fs q w).1
  sql_with-OnMap [] q w h = h
  sql_with-OnMap (true ∷ fs) q w h = h
  sql_with-OnMap (false ∷ fs) q w h = h

  pub sql-OnMap : {A : Type 0} (q : Action Db A) → Keeps OnMap (sql {R = R} q)
  unfolding sql
  sql-OnMap q = record { at = λ w h. sql_with-OnMap w.faults q w h }

  pub call-OnMap : {A : Type 0} (m : Action R A) → Keeps OnMap (call m)
  call-OnMap m = record { at = λ w h. h }

  pub read_clock-OnMap : Keeps OnMap (read_clock {R = R})
  unfolding read_clock
  read_clock-OnMap = record { at = λ w h. h }

  pub spawn-OnMap : (j : Job) → Keeps OnMap (spawn {R = R} j)
  spawn-OnMap j = record { at = λ w h. h }

  draw-OnMap :
      (p : Text) (es : List (Option (List ℕ))) (w : World R) → OnMap w → OnMap (draw p es w).1
  draw-OnMap p [] w h = h
  draw-OnMap p (none ∷ es) w h = h
  draw-OnMap p (some bytes ∷ es) w h = h

  pub new_id-OnMap : (p : Text) → Keeps OnMap (new_id {R = R} p)
  unfolding new_id
  new_id-OnMap p = record { at = λ w h. draw-OnMap p w.entropy w h }

  entries-OnMap : (rows : List SandboxRecord) → Keeps OnMap (entries {R = R} rows)
  unfolding entries
  entries-OnMap [] = Keeps-pure []
  entries-OnMap (sb ∷ rest) = Keeps-bind _ _ (Keeps-attempt _ (sql-OnMap _)) (λ task.
      Keeps-bind _ (λ more. pure (entry_of sb task ∷ more)) (entries-OnMap rest)
        (λ more. Keeps-pure (entry_of sb task ∷ more)))

  sent-OnMap : (f : World R → List Event) → Keeps OnMap (modify (λ w. record w { sent = f w }))
  sent-OnMap f = record { at = λ w h. h }

  report_session-OnMap : (s id t v : Text) → Keeps OnMap (report_session {R = R} s id t v)
  unfolding report_session
  report_session-OnMap s id t v =
      search (keeps_rules, sql-OnMap, entries-OnMap, read_clock-OnMap, sent-OnMap)

  pub emit_session_aggregate-OnMap :
      (s id t v : Text) → Keeps OnMap (emit_session_aggregate {R = R} s id t v)
  unfolding emit_session_aggregate
  emit_session_aggregate-OnMap s id t v = record {
    at = λ w h. elim (Bool-cases (not w.reporting || is_blank s)) [
      | inl e ↦ rw e h
      | inr e ↦ rw e ((report_session-OnMap s id t v).at w h)
    ];
  }
