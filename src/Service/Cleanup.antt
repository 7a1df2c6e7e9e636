-- ===== src/Service/Cleanup.antt =====
-- service.go: one run of each clean-up loop. `days_before n t` is the time text `n` days before `t`.
pub mod Spared
use sleigh.Prelude.{
  ℕ, ◌+◌, Text, Bool, true, false, not, ◌&&◌, List, [], ◌∷◌, codes, trim_space, is_blank, length,
  ◌==◌, if◌then◌else◌,
}
use sleigh.Prelude.Int.{ℤ, pos, leb_ℤ, ltb_ℤ}
use sleigh.Errors.{Result, ok, err, is_not_found, failure, wrapped}
use sleigh.Action.{pure, raise, lift, attempt, ◌>>=◌, ◌>>◌}
use sleigh.Store.Schema.{SandboxRecord, SnapshotRecord, ManagedImageRecord}
use sleigh.Store.Sandboxes.{get_sandbox, delete_sandbox, list_idle_sandboxes_before}
use sleigh.Store.Execs.{cleanup_exec_tasks_before}
use sleigh.Store.Images.{list_managed_images_unused_before, delete_managed_image}
use sleigh.Store.Snapshots.{list_snapshots_created_before, delete_snapshot_by_id}
use sleigh.Service.Types.{Svc, Backend, Policy}
use sleigh.Service.Effects.{sql, call, read_clock}

abbrev pub ttl_or_14 : ℤ → ℤ
ttl_or_14 days = if leb_ℤ days (pos 0) then pos 14 else days

-- `err != nil && !errors.Is(err, ErrNotFound)`
abbrev pub gone_or_ok : {A : Type 0} → Result A → Bool
gone_or_ok (ok a) = true
gone_or_ok (err e) = is_not_found e

abbrev pub is_ok : {A : Type 0} → Result A → Bool
is_ok (ok a) = true
is_ok (err e) = false

abbrev pub count_if : Bool → ℕ → ℕ
count_if b n = if b then n + 1 else n

module _ {R : Type 0} (days_before : ℤ → Text → Text) (policy : Policy) where
  unfoldable pub cleanup_exec_history : Svc R (ℕ × Text)
  cleanup_exec_history = do
    now ← read_clock
    let before = days_before (ttl_or_14 policy.exec_ttl_days) now
    deleted ← sql (cleanup_exec_tasks_before before)
    pure (deleted, before)

module _ {R : Type 0} (b : Backend R) where
  -- Whether the sandbox is gone: from the runtime, and only then from the store.
  unfoldable pub delete_idle : Text → Svc R Bool
  delete_idle id = do
    stopped ← attempt (call (b.delete id))
    if not (gone_or_ok stopped)
        then pure false
        else do deleted ← attempt (sql (delete_sandbox id)); pure (gone_or_ok deleted)

  unfoldable pub delete_all_idle : List SandboxRecord → Svc R ℕ
  unfolding delete_idle
  delete_all_idle [] = pure 0
  delete_all_idle (item ∷ items) = do
    gone ← delete_idle item.id
    n ← delete_all_idle items
    pure (count_if gone n)

  -- The image is forgotten only if the runtime deleted it.
  unfoldable pub delete_unused_image : Text → Svc R Bool
  delete_unused_image image = do
    answer ← attempt (call (b.delete_image_if_unused image))
    elim answer [
      | err e ↦ pure false
      | ok (deleted, reason) ↦
          if not deleted
          then pure false
          else do forgotten ← attempt (sql (delete_managed_image image)); pure (is_ok forgotten)
    ]

  unfoldable pub delete_unused_images : List ManagedImageRecord → Svc R ℕ
  unfolding delete_unused_image
  delete_unused_images [] = pure 0
  delete_unused_images (r ∷ rows) = do
    deleted ← delete_unused_image r.image
    n ← delete_unused_images rows
    pure (count_if deleted n)

  module _ (days_before : ℤ → Text → Text) where
    -- How many were scanned and how many deleted.
    unfoldable pub cleanup_unused_managed_images : Svc R (ℕ × ℕ)
    unfolding delete_unused_images
    cleanup_unused_managed_images = do
      now ← read_clock
      candidates ← sql (list_managed_images_unused_before (days_before (pos 14) now))
      deleted ← delete_unused_images candidates
      pure (length candidates, deleted)

    module _ (policy : Policy) where
      unfoldable pub cleanup_idle_sandboxes : Svc R (ℕ × Text)
      unfolding delete_all_idle
      cleanup_idle_sandboxes = do
        now ← read_clock
        let before = days_before (ttl_or_14 policy.sandbox_idle_ttl_days) now
        idle ← sql (list_idle_sandboxes_before before)
        deleted ← delete_all_idle idle
        pure (deleted, before)

  -- A snapshot whose image the sandbox runs on stays; an error other than a missing sandbox ends.
  abbrev pub check_in_use : SnapshotRecord → Result SandboxRecord → Result (Unit {0})
  check_in_use row (ok rec) =
      if trim_space rec.image == trim_space row.image_ref
      then err (failure (codes "snapshot image still in use by sandbox"))
      else ok tt
  check_in_use row (err e) = if is_not_found e then ok tt else err e

  abbrev pub check_deleted : Bool × Text → Result (Unit {0})
  check_deleted (deleted, reason) =
      if not deleted && (reason == codes "referenced_by_container")
      then err (failure (codes "snapshot image still referenced by a container"))
      else ok tt

  -- `remove_all` removes the snapshot's directory (os.RemoveAll).
  module _ (remove_all : Text → Text → Svc R (Unit {0})) (policy : Policy) where
    abbrev pub remove_workspace : SnapshotRecord → Svc R (Unit {0})
    remove_workspace row =
        if is_blank policy.snapshot_root_dir
        then raise (failure (codes "snapshot root dir unset"))
        else remove_all row.sandbox_id row.id

    abbrev pub remove_image : SnapshotRecord → Svc R (Unit {0})
    remove_image row = do
      answer ← call (b.delete_image_if_unused row.image_ref)
      lift (check_deleted answer)

    unfoldable pub cleanup_one_expired_snapshot : SnapshotRecord → Svc R (Unit {0})
    cleanup_one_expired_snapshot row = do
      rec ← attempt (sql (get_sandbox row.sandbox_id))
      lift (check_in_use row rec)
      if trim_space row.type == codes "workspace" then remove_workspace row else remove_image row
      sql (delete_snapshot_by_id row.id)

    unfoldable pub cleanup_expired : List SnapshotRecord → Svc R ℕ
    unfolding cleanup_one_expired_snapshot
    cleanup_expired [] = pure 0
    cleanup_expired (row ∷ rows) = do
      cleaned ← attempt (cleanup_one_expired_snapshot row)
      n ← cleanup_expired rows
      pure (count_if (is_ok cleaned) n)

    abbrev pub expire : (ℤ → Text → Text) → Svc R ℕ
    expire days_before = do
      now ← read_clock
      rows ← sql (list_snapshots_created_before (days_before policy.snapshot_retention_days now))
      cleanup_expired rows

    abbrev pub prune : Svc R Bool
    prune = do
      answer ← attempt (call b.prune_dangling_images)
      elim answer [
        | ok _ ↦ pure true
        | err e ↦ raise (wrapped (codes "docker dangling image prune") e)
      ]

    -- How many snapshots went, and whether the prune ran.
    unfoldable pub cleanup_snapshot_lifecycle : (ℤ → Text → Text) → Svc R (ℕ × Bool)
    unfolding cleanup_expired
    cleanup_snapshot_lifecycle days_before = do
      n ← if ltb_ℤ (pos 0) policy.snapshot_retention_days then expire days_before else pure 0
      pruned ← if policy.prune_dangling_images then prune else pure false
      pure (n, pruned)
