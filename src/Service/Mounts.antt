-- ===== src/Service/Mounts.antt =====
-- service.go: ListMounts, MountPath, UnmountPath, pickWorkspaceMount, isPathWithinRoot. What
-- path/filepath and os say of the host's file system is a parameter.
pub mod Undo
use sleigh.Prelude.{
  Text, Bool, true, false, not, ◌&&◌, ◌||◌, Option, none, some, List, [], ◌∷◌, ◌++◌, codes,
  trim_space, to_lower, has_prefix, ◌==◌, find?, if◌then◌else◌,
}
use sleigh.Errors.{Result, ok, err, not_found, bad_request, wrapped}
use sleigh.Action.{pure, raise, lift, ignore, attempt, ◌>>=◌, ◌>>◌}
use sleigh.Store.Schema.{MountRecord}
use sleigh.Store.Sandboxes.{get_sandbox}
use sleigh.Store.Mounts.{create_mount, delete_mount}
use sleigh.Service.Types.{Svc, Backend, Policy, MountSpec}
use sleigh.Service.Effects.{sql, call, new_id, read_clock}
use sleigh.Service.Events.{emit_session_aggregate}
use sleigh.Service.Access.{session_of}

pub data Stat : Type 0 where
  missing : Stat
  inaccessible : (reason : Text) → Stat
  entry : (is_dir : Bool) → Stat

pub record Files : Type 0 where
  pub is_abs : Text → Bool
  pub clean : Text → Text
  pub eval_symlinks : Text → Option Text
  pub rel : Text → Text → Option Text
  pub stat : Text → Stat

pub record MountRequest : Type 0 where
  pub host_path : Text
  pub container_path : Text
  pub mode : Text

abbrev pub resolved : Option Text → Text → Text
resolved none path = path
resolved (some real) path = real

abbrev pub inside : Option Text → Bool
inside none = false
inside (some rel) =
    rel == codes "." || (not (has_prefix rel (codes "../")) && not (rel == codes ".."))

abbrev pub mode_or_rw : Text → Text
mode_or_rw [] = codes "rw"
mode_or_rw (c ∷ s) = c ∷ s

abbrev pub is_rw : MountRecord → Bool
is_rw m = to_lower m.mode == codes "rw"

module _ (files : Files) where
  unfoldable pub is_path_within_root : Text → Text → Bool
  is_path_within_root target root =
      let clean_root = resolved (files.eval_symlinks (files.clean root)) (files.clean root) in
      let clean_target = resolved (files.eval_symlinks (files.clean target)) (files.clean target) in
      clean_target == clean_root || inside (files.rel clean_root clean_target)

  -- The host path must be there, as a directory.
  abbrev pub check_stat : Stat → Result (Unit {0})
  check_stat missing = err (
      wrapped
        (codes "host mount path does not exist (missing directory; server will not auto-create)")
        not_found)
  check_stat (inaccessible reason) =
      err (wrapped (codes "host mount path not accessible: " ++ reason) bad_request)
  check_stat (entry true) = ok tt
  check_stat (entry false) =
      err (wrapped (codes "host mount path must be an existing directory") bad_request)

  -- The checks of MountPath on a request, in their order, and what it makes of the request.
  unfoldable pub checked : Policy → MountRequest → Result MountRequest
  unfolding is_path_within_root
  checked policy req =
      let mode = mode_or_rw (to_lower (trim_space req.mode)) in
      let host = trim_space req.host_path in
      let container = trim_space req.container_path in
      let root = trim_space policy.mount_allowed_root in
      if not (mode == codes "rw" || mode == codes "ro")
      then err bad_request
      else if host == [] || container == []
      then err bad_request
      else if not (files.is_abs host && files.is_abs container)
      then err bad_request
      else if root == [] || not (files.is_abs root) || not (is_path_within_root host root)
      then err bad_request
      else elim (check_stat (files.stat host)) [
        | ok _ ↦ ok (record { host_path = host; container_path = container; mode = mode })
        | err e ↦ err e
      ]

module _ {R : Type 0} where
  unfoldable pub list_mounts : Text → Svc R (List MountSpec)
  list_mounts sandbox_id = do
    sql (get_sandbox sandbox_id)
    sql (sleigh.Store.Mounts.list_mounts sandbox_id)

  unfoldable pub pick_workspace_mount : Text → Svc R (Option MountSpec)
  unfolding find?
  pick_workspace_mount sandbox_id = do
    mounts ← sql (sleigh.Store.Mounts.list_mounts sandbox_id)
    pure (find? is_rw mounts)

  unfoldable pub report_mount : Text → Text → Svc R (Unit {0})
  report_mount sandbox_id trigger = do
    row ← attempt (sql (get_sandbox sandbox_id))
    emit_session_aggregate (session_of row) sandbox_id trigger (codes "info")

  module _ (b : Backend R) where
    -- The runtime's answer to the new list of mounts; a refusal takes the row back.
    abbrev pub or_take_back : Text → Text → Result (Unit {0}) → Svc R (Unit {0})
    or_take_back sandbox_id mount_id (ok u) = pure tt
    or_take_back sandbox_id mount_id (err e) = do
      ignore (sql (delete_mount sandbox_id mount_id))
      raise e

    unfoldable pub mount_path : Files → Policy → Text → MountRequest → Svc R MountSpec
    unfolding checked list_mounts report_mount
    mount_path files policy sandbox_id req = do
      sql (get_sandbox sandbox_id)
      good ← lift (checked files policy req)
      mount_id ← new_id (codes "mnt_")
      created ← read_clock
      let mount : MountSpec = record {
        id = mount_id;
        sandbox_id = sandbox_id;
        host_path = good.host_path;
        container_path = good.container_path;
        mode = good.mode;
        created = created;
      }
      sql (create_mount mount)
      mounts ← list_mounts sandbox_id
      updated ← attempt (call (b.update_mounts sandbox_id mounts))
      or_take_back sandbox_id mount_id updated
      report_mount sandbox_id (codes "mount_added")
      pure mount

    unfoldable pub unmount_path : Text → Text → Svc R (Unit {0})
    unfolding list_mounts report_mount
    unmount_path sandbox_id mount_id = do
      sql (get_sandbox sandbox_id)
      sql (delete_mount sandbox_id mount_id)
      mounts ← list_mounts sandbox_id
      call (b.update_mounts sandbox_id mounts)
      report_mount sandbox_id (codes "mount_removed")
