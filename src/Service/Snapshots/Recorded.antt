-- ===== src/Service/Snapshots/Recorded.antt =====
-- CreateSnapshot of service.go: the table of snapshots holds what it returns, and no more.
use sleigh.Prelude.{
  Text, ◌==◌, ◌≡◌, ap, Bool, true, false, not, is_blank, Option, none, some, List, [], ◌∷◌, ◌++◌,
  codes, any, Bool-cases, inl, inr,
}
use sleigh.Errors.{Error, Result, ok, err, noted, bad_request}
use sleigh.Action.{Action, pure, continue, guard, attempt, ◌>>◌}
use sleigh.Action.Keeps.{Keeps, keeps_rules, Keeps-bind, Keeps-pure, Keeps-guard, Keeps-attempt}
use sleigh.Action.Outcome.{Outcome, Outcome-bind}
use sleigh.Store.Schema.{Db, SnapshotRecord, has_sandbox}
use sleigh.Store.Sandboxes.{get_sandbox}
use sleigh.Store.Snapshots.{get_latest_workspace_snapshot, stored_snapshot}
use sleigh.Service.Types.{World, Backend, Policy, MountSpec, Snapshot}
use sleigh.Service.Effects.{sql, sql_with, call, new_id, read_clock}
use sleigh.Service.Mounts.{pick_workspace_mount}
use sleigh.Service.Execs.{ensure_snapshot_safe, is_live}
use sleigh.Service.Pool.Frame.{OnDb, sql-OnDb, call-OnDb, new_id-OnDb, read_clock-OnDb}
use sleigh.Service.Snapshots.{
  Disk, build_snapshot, snapshot_dir, latest_dir, latest_id, create_workspace_snapshot,
  take_snapshot, create_snapshot, new_snapshot,
}

-- The table was `rows` before: the snapshot is added to it, or an error is returned.
abbrev pub Recorded : List SnapshotRecord → Result Snapshot → List SnapshotRecord → Type 0
Recorded rows (ok snapshot) now = now ≡ rows ++ stored_snapshot snapshot ∷ []
Recorded rows (err e) now = now ≡ rows

abbrev Holds : List SnapshotRecord → Db → Type 0
Holds rows db = db.snapshots ≡ rows

module _ (rows : List SnapshotRecord) where
  get_sandbox-Holds : (id : Text) → Keeps (Holds rows) (get_sandbox id)
  unfolding get_sandbox
  get_sandbox-Holds id = record { at = λ db h. h }

  list_mounts-Holds : (id : Text) → Keeps (Holds rows) (sleigh.Store.Mounts.list_mounts id)
  unfolding sleigh.Store.Mounts.list_mounts
  list_mounts-Holds id = record { at = λ db h. h }

  latest-Holds : (id : Text) → Keeps (Holds rows) (get_latest_workspace_snapshot id)
  unfolding get_latest_workspace_snapshot
  latest-Holds id = record { at = λ db h. h }

-- The same of the insertion alone.
abbrev Added : List SnapshotRecord → Snapshot → Result (Unit {0}) → List SnapshotRecord → Type 0
Added rows snapshot (ok u) now = now ≡ rows ++ stored_snapshot snapshot ∷ []
Added rows snapshot (err e) now = now ≡ rows

create_snapshot-Added :
    (rows : List SnapshotRecord) (snapshot : Snapshot) (db : Db)
    → Holds rows db
    → let (r, db') = sleigh.Store.Snapshots.create_snapshot snapshot db in
      Added rows snapshot r db'.snapshots
unfolding sleigh.Store.Snapshots.create_snapshot
create_snapshot-Added rows snapshot db h =
    elim (Bool-cases (any (λ m. m.id == snapshot.id) db.snapshots)) [
      | inl e ↦ rw e h
      | inr e ↦ rw e (elim (Bool-cases (has_sandbox db snapshot.sandbox_id)) [
        | inl e' ↦ rw e' (ap (λ l. l ++ stored_snapshot snapshot ∷ []) h)
        | inr e' ↦ rw e' h
      ])
    ]

module _ {R : Type 0} (rows : List SnapshotRecord) where
  abbrev OnRows : World R → Type 0
  OnRows = OnDb (Holds rows)

  abbrev Done : Result Snapshot → World R → Type 0
  Done r w = Recorded rows r w.db.snapshots

  safe-OnRows : (id : Text) → Keeps OnRows (ensure_snapshot_safe id)
  unfolding ensure_snapshot_safe
  safe-OnRows id = record {
    at = λ w h. elim (Bool-cases (any (is_live id) w.exec_map)) [ inl e ↦ rw e h | inr e ↦ rw e h ];
  }

  pick-OnRows : (id : Text) → Keeps OnRows (pick_workspace_mount id)
  unfolding pick_workspace_mount
  pick-OnRows id =
      Keeps-bind (sql (sleigh.Store.Mounts.list_mounts id)) _
        (sql-OnDb (Holds rows) (sleigh.Store.Mounts.list_mounts id) (list_mounts-Holds rows id))
        (λ mounts. record { at = λ w h. h })

  module _ (disk : Disk R) (policy : Policy) where
    workspace-OnRows :
        (sandbox_id id source : Text)
        → Keeps OnRows (create_workspace_snapshot disk policy sandbox_id id source)
    unfolding create_workspace_snapshot
    workspace-OnRows sandbox_id id source =
        let latest_of = sql {R = R} (get_latest_workspace_snapshot sandbox_id) in
        let latest_kept =
          sql-OnDb (Holds rows) (get_latest_workspace_snapshot sandbox_id)
            (latest-Holds rows sandbox_id) in
        Keeps-bind
          (guard (not (is_blank policy.snapshot_root_dir))
            (noted bad_request (codes "snapshot root dir is empty")))
          _ (Keeps-guard _ _)
          (λ _. Keeps-bind (ensure_snapshot_safe sandbox_id) _ (safe-OnRows sandbox_id) (λ _.
            Keeps-bind (attempt latest_of) _ (Keeps-attempt latest_of latest_kept) (λ latest.
              Keeps-bind
                (call (
                  build_snapshot disk (snapshot_dir disk policy.snapshot_root_dir sandbox_id id)
                    (latest_dir disk policy sandbox_id latest) sandbox_id source
                    (latest_id disk latest)))
                (λ _. pure (latest_id disk latest)) (call-OnDb (Holds rows) _)
                (λ _. Keeps-pure (latest_id disk latest)))))

    take-OnRows :
        (b : Backend R) (s : Snapshot) (mount : Option MountSpec)
        → Keeps OnRows (take_snapshot disk b policy s mount)
    take-OnRows b s none = search (keeps_rules, call-OnDb)
    take-OnRows b s (some mount) = search (keeps_rules, workspace-OnRows)

module _ {R : Type 0} (rows : List SnapshotRecord) (snapshot : Snapshot) where
  abbrev insert_row : Action (World R) (Unit {0})
  insert_row = sql (sleigh.Store.Snapshots.create_snapshot snapshot)

  sql_with-Added :
      (fs : List Bool) (w : World R)
      → OnRows rows w
      → let (r, w') = sql_with fs (sleigh.Store.Snapshots.create_snapshot snapshot) w in
        Added rows snapshot r w'.db.snapshots
  sql_with-Added [] w h = create_snapshot-Added rows snapshot w.db h
  sql_with-Added (true ∷ fs) w h = h
  sql_with-Added (false ∷ fs) w h = create_snapshot-Added rows snapshot w.db h

  continue-Done :
      (r : Result (Unit {0})) (w : World R)
      → Added rows snapshot r w.db.snapshots
      → let (answer, w') = continue r (λ _. pure snapshot) w in Done rows answer w'
  continue-Done (ok u) w h = h
  continue-Done (err e) w h = h

  insert_row-Done : Outcome (OnRows rows) (insert_row >> pure snapshot) (Done rows)
  unfolding sql
  insert_row-Done = record {
    at = λ w h. continue-Done (insert_row w).0 (insert_row w).1 (sql_with-Added w.faults w h);
  }

module _ {R : Type 0} (rows : List SnapshotRecord) (disk : Disk R) (b : Backend R)
    (policy : Policy) where
  failed-Done : (e : Error) (w : World R) → OnRows rows w → Done rows (err e) w
  failed-Done e w h = h

  create_snapshot-Done :
      (sandbox_id : Text)
      → Outcome (OnRows rows) (create_snapshot disk b policy sandbox_id) (Done rows)
  unfolding create_snapshot
  create_snapshot-Done sandbox_id =
      Outcome-bind (sql (get_sandbox sandbox_id)) _ failed-Done
        (sql-OnDb (Holds rows) (get_sandbox sandbox_id) (get_sandbox-Holds rows sandbox_id))
        (λ _.
          Outcome-bind (new_id (codes "snap_")) _ failed-Done
            (new_id-OnDb (Holds rows) (codes "snap_"))
            (λ id. Outcome-bind read_clock _ failed-Done (read_clock-OnDb (Holds rows)) (λ created.
              Outcome-bind (pick_workspace_mount sandbox_id) _ failed-Done
                (pick-OnRows rows sandbox_id)
                (λ mount.
                  Outcome-bind
                    (take_snapshot disk b policy (new_snapshot sandbox_id id created) mount) _
                    failed-Done
                    (take-OnRows rows disk policy b (new_snapshot sandbox_id id created) mount)
                    (λ snapshot. insert_row-Done rows snapshot)))))

  -- Whatever the driver, the runtime and the host's directories do, CreateSnapshot adds the snapshot
  -- that it returns to the table of snapshots, and adds nothing when it returns an error.
  pub create_snapshot-Recorded :
      (sandbox_id : Text) (w : World R)
      → w.db.snapshots ≡ rows
      → let (answer, w') = create_snapshot disk b policy sandbox_id w in
        Recorded rows answer w'.db.snapshots
  create_snapshot-Recorded sandbox_id w h = (create_snapshot-Done sandbox_id).at w h
