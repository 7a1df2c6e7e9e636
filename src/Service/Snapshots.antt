-- ===== src/Service/Snapshots.antt =====
-- service.go: CreateSnapshot, ListSnapshots, Rollback, and the snapshots of a workspace in
-- workspace_snapshot.go. The host's directories are part of what the program does not see.
pub mod Restored
pub mod Recorded
use sleigh.Prelude.{
  ℕ, Text, Bool, true, false, not, Option, none, some, List, [], ◌∷◌, ◌++◌, codes, drop, length,
  has_prefix, is_blank, ◌==◌, if◌then◌else◌,
}
use sleigh.Errors.{Result, ok, err, not_found, bad_request, failure, wrapped, noted}
use sleigh.Action.{Action, pure, raise, attempt, guard, modify, ◌>>=◌, ◌>>◌}
use sleigh.Store.Schema.{SandboxRecord, SnapshotRecord}
use sleigh.Store.Sandboxes.{get_sandbox, update_sandbox_image, update_sandbox_status}
use sleigh.Store.Snapshots.{get_snapshot, get_latest_workspace_snapshot}
use sleigh.Service.Types.{Svc, World, Backend, Policy, MountSpec, Metadata, Snapshot}
use sleigh.Service.Effects.{sql, call, new_id, read_clock}
use sleigh.Service.Events.{emit_session_aggregate}
use sleigh.Service.Access.{session_of, get}
use sleigh.Service.Mounts.{pick_workspace_mount}
use sleigh.Service.Execs.{ensure_snapshot_safe}
use sleigh.Workspace.Tree.{File, Entries, end, file, insert}
use sleigh.Workspace.Sync.{Target, sync_tree, clone_snapshot_base, snapshot_meta_file_name}

-- The host's directories: the tree at a path, and the time that a new file gets.
pub record Disk (R : Type 0) : Type 0 where
  pub tree : Text → R → Option Entries
  pub set_tree : Text → Entries → R → R
  pub now : R → ℕ
  pub clean : Text → Text
  pub follow : Text → Target

abbrev join : Text → Text → Text
join [] t = t
join (c ∷ s) t = c ∷ s ++ codes "/" ++ t

-- A run of an action on a tree that is there.
abbrev pub on_tree : {A : Type 0} → Option Entries → Action Entries A → Result A × Option Entries
on_tree none m = (err (failure (codes "no such file or directory")), none)
on_tree (some es) m = let (r, es') = m es in (r, some es')

-- strings.TrimPrefix(s, p)
abbrev trim_prefix : Text → Text → Text
trim_prefix p s = if has_prefix s p then drop (length p) s else s

-- The snapshot before it has a type.
abbrev pub new_snapshot : Text → Text → Text → Snapshot
new_snapshot sandbox_id snapshot_id created = record {
  id = snapshot_id;
  sandbox_id = sandbox_id;
  image_ref = codes "hwr-snapshot:" ++ trim_prefix (codes "snap_") snapshot_id;
  type = [];
  host_path = [];
  base_id = [];
  created = created;
}

-- fmt.Errorf("…: %w", err)
abbrev pub note : {A : Type 0} → Text → Result A → Result A
note m (ok a) = ok a
note m (err e) = err (wrapped m e)

abbrev meta_content : Text → Text → Text → Text
meta_content sandbox_id source base =
    codes "sandbox_id="
    ++ sandbox_id
    ++ codes "\nsource_host_path="
    ++ source
    ++ codes "\nbase_snapshot_id="
    ++ base
    ++ codes "\n"

module _ {R : Type 0} (disk : Disk R) where
  -- filepath.Join(root, sandbox, snapshot)
  unfoldable pub snapshot_dir : Text → Text → Text → Text
  snapshot_dir root sandbox_id snapshot_id = disk.clean (join root (join sandbox_id snapshot_id))

  abbrev pub write_back : Text → Option Entries → R → R
  write_back path none r = r
  write_back path (some es) r = disk.set_tree path es r

  -- An action on the tree at a path, its error under a heading.
  unfoldable pub in_tree : {A : Type 0} → Text → Text → Action Entries A → Action R A
  in_tree heading path m r =
      let (a, es) = on_tree (disk.tree path r) m in (note heading a, write_back path es r)

  abbrev pub make_dir : Text → Option Entries → R → R
  make_dir path none r = disk.set_tree path end r
  make_dir path (some es) r = r

  unfoldable pub ensure_dir : Text → Action R (Unit {0})
  ensure_dir path r = (ok tt, make_dir path (disk.tree path r) r)

  abbrev pub sync_from : Text → Text → Option Entries → Action R (Unit {0})
  sync_from heading dst none r =
      (err (wrapped heading (failure (codes "no such file or directory"))), r)
  sync_from heading dst (some src) r = in_tree heading dst (sync_tree disk.follow src) r

  -- syncTree(src, dst)
  unfoldable pub sync_dirs : Text → Text → Text → Action R (Unit {0})
  sync_dirs heading src dst r = sync_from heading dst (disk.tree src r) r

  abbrev pub base_tree : Text → R → Option Entries
  base_tree [] r = none
  base_tree (c ∷ s) r = disk.tree (c ∷ s) r

  unfoldable pub clone_dir : Text → Text → Text → Action R (Unit {0})
  clone_dir heading base target r =
      in_tree heading target (clone_snapshot_base disk.follow (base_tree base r)) r

  abbrev pub meta_file : Text → Text → Text → R → File
  meta_file sandbox_id source base r = record {
    content = meta_content sandbox_id source base;
    mod_time = disk.now r;
  }

  unfoldable pub write_snapshot_meta : Text → Text → Text → Text → Action R (Unit {0})
  write_snapshot_meta dir sandbox_id source base r =
      in_tree (codes "write snapshot metadata") dir
        (modify
          (λ es. insert snapshot_meta_file_name (file (meta_file sandbox_id source base r)) es))
        r

  abbrev pub latest_id : Result SnapshotRecord → Text
  latest_id (ok latest) = latest.id
  latest_id (err e) = []

  abbrev pub latest_dir : Policy → Text → Result SnapshotRecord → Text
  latest_dir policy sandbox_id (ok latest) =
      snapshot_dir policy.snapshot_root_dir sandbox_id latest.id
  latest_dir policy sandbox_id (err e) = []

  -- The directory of a new snapshot, from its base and the workspace.
  unfoldable pub build_snapshot : Text → Text → Text → Text → Text → Action R (Unit {0})
  build_snapshot target base sandbox_id source base_snapshot_id = do
    ensure_dir target
    clone_dir (codes "clone base snapshot") base target
    sync_dirs (codes "sync workspace into snapshot") source target
    write_snapshot_meta target sandbox_id source base_snapshot_id

  -- The id of the snapshot that the new one is based on, or the empty text.
  unfoldable pub create_workspace_snapshot : Policy → Text → Text → Text → Svc R Text
  create_workspace_snapshot policy sandbox_id snapshot_id source = do
    guard (not (is_blank policy.snapshot_root_dir))
        (noted bad_request (codes "snapshot root dir is empty"))
    ensure_snapshot_safe sandbox_id
    latest ← attempt (sql (get_latest_workspace_snapshot sandbox_id))
    let target = snapshot_dir policy.snapshot_root_dir sandbox_id snapshot_id
    call (
        build_snapshot target (latest_dir policy sandbox_id latest) sandbox_id source
          (latest_id latest))
    pure (latest_id latest)

  abbrev pub dir_exists : Option Entries → Result (Unit {0})
  dir_exists none = err not_found
  dir_exists (some es) = ok tt

  -- os.Stat of the directory
  abbrev pub check_dir : Text → Action R (Unit {0})
  check_dir path r = (dir_exists (disk.tree path r), r)

  -- A workspace from the directory of a snapshot.
  unfoldable pub restore_dir : Text → Text → Action R (Unit {0})
  restore_dir src host_path = do
    ensure_dir host_path
    check_dir src
    sync_dirs (codes "restore snapshot to workspace") src host_path

  unfoldable pub rollback_workspace_snapshot : Policy → Snapshot → Svc R (Unit {0})
  rollback_workspace_snapshot policy snapshot = do
    guard (not (is_blank snapshot.host_path))
        (noted bad_request (codes "snapshot host path is empty"))
    ensure_snapshot_safe snapshot.sandbox_id
    let src = snapshot_dir policy.snapshot_root_dir snapshot.sandbox_id snapshot.id
    call (restore_dir src snapshot.host_path)
    row ← attempt (sql (get_sandbox snapshot.sandbox_id))
    emit_session_aggregate (session_of row) snapshot.sandbox_id (codes "workspace_rollback")
        (codes "info")

  module _ (b : Backend R) (policy : Policy) where
    -- The snapshot of the workspace that is mounted, or of the container where none is.
    abbrev pub take_snapshot : Snapshot → Option MountSpec → Svc R Snapshot
    take_snapshot snapshot none = do
      let whole = record snapshot { type = codes "container" }
      call (b.create_snapshot snapshot.sandbox_id whole)
      pure whole
    take_snapshot snapshot (some mount) = do
      base ← create_workspace_snapshot policy snapshot.sandbox_id snapshot.id mount.host_path
      pure (record snapshot {
        type = codes "workspace";
        host_path = mount.host_path;
        base_id = base;
        image_ref = codes "workspace:" ++ snapshot.id;
      })

    unfoldable pub create_snapshot : Text → Svc R Snapshot
    unfolding create_workspace_snapshot
    create_snapshot sandbox_id = do
      sql (get_sandbox sandbox_id)
      snapshot_id ← new_id (codes "snap_")
      created ← read_clock
      mount ← pick_workspace_mount sandbox_id
      snapshot ← take_snapshot (new_snapshot sandbox_id snapshot_id created) mount
      sql (sleigh.Store.Snapshots.create_snapshot snapshot)
      pure snapshot

    abbrev restore_workspace : Text → Snapshot → Svc R Metadata
    restore_workspace sandbox_id snapshot = do
      rollback_workspace_snapshot policy snapshot
      get b sandbox_id

    abbrev restore_container : Text → Snapshot → Svc R Metadata
    restore_container sandbox_id snapshot = do
      meta ← call (b.rollback_to_snapshot sandbox_id snapshot)
      sql (update_sandbox_image sandbox_id snapshot.image_ref)
      sql (update_sandbox_status sandbox_id meta.status)
      pure (record meta { id = sandbox_id })

    abbrev restore : Text → Snapshot → Svc R Metadata
    restore sandbox_id snapshot =
        if snapshot.type == codes "workspace"
        then restore_workspace sandbox_id snapshot
        else restore_container sandbox_id snapshot

    unfoldable pub rollback : Text → Text → Svc R Metadata
    unfolding rollback_workspace_snapshot
    rollback sandbox_id snapshot_id = do
      guard (not (is_blank snapshot_id)) bad_request
      sql (get_sandbox sandbox_id)
      snapshot ← sql (get_snapshot sandbox_id snapshot_id)
      restore sandbox_id snapshot

module _ {R : Type 0} where
  unfoldable pub list_snapshots : Text → Svc R (List Snapshot)
  list_snapshots sandbox_id = do
    sql (get_sandbox sandbox_id)
    sql (sleigh.Store.Snapshots.list_snapshots sandbox_id)
