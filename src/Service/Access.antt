-- ===== src/Service/Access.antt =====
-- service.go: Get, ListBySession, AuthorizeSandboxAccess, Delete, EnsureRunning.
pub mod Owner
use sleigh.Prelude.{Text, Bool, not, ◌||◌, List, [], ◌∷◌, codes, trim_space, ◌==◌}
use sleigh.Errors.{Result, ok, err, not_found, bad_request, forbidden}
use sleigh.Action.{pure, raise, attempt, ignore, guard, ◌>>=◌, ◌>>◌}
use sleigh.Store.Schema.{SandboxRecord}
use sleigh.Store.Sandboxes.{
  get_sandbox, update_sandbox_status, update_sandbox_last_access, delete_sandbox,
  list_sandboxes_by_session,
}
use sleigh.Service.Types.{Backend, Metadata, Svc, running}
use sleigh.Service.Effects.{sql, call, read_clock}
use sleigh.Service.Events.{emit_session_aggregate}
use sleigh.Prelude.Int.{pos}

-- A field that the runtime left empty is taken from the store.
abbrev pub or_else : Text → Text → Text
or_else [] d = d
or_else (c ∷ s) d = c ∷ s

abbrev pub session_of : Result SandboxRecord → Text
session_of (ok row) = row.session_id
session_of (err e) = []

module _ {R : Type 0} where
  -- `if err != nil && err != ErrNotFound { return err }`
  abbrev pub unless_not_found : Result (Unit {0}) → Svc R (Unit {0})
  unless_not_found (ok u) = pure tt
  unless_not_found (err not_found) = pure tt
  unless_not_found (err e) = raise e

  unfoldable pub authorize_sandbox_access : Text → Text → Svc R (Unit {0})
  authorize_sandbox_access session_id sandbox_id = do
    let s = trim_space session_id
    let id = trim_space sandbox_id
    guard (not (s == [] || id == [])) bad_request
    row ← sql (get_sandbox id)
    guard (trim_space row.session_id == s) forbidden
    now ← read_clock
    ignore (sql (update_sandbox_last_access id now))

  module _ (b : Backend R) where
    unfoldable pub get : Text → Svc R Metadata
    get sandbox_id = do
      row ← sql (get_sandbox sandbox_id)
      meta ← call (b.get sandbox_id)
      updated ← attempt (sql (update_sandbox_status sandbox_id meta.status))
      unless_not_found updated
      pure (record meta {
        id = row.id;
        labels = row.labels;
        image = or_else meta.image row.image;
        created = or_else meta.created row.created;
      })

    abbrev pub metadata_of_row : SandboxRecord → Metadata
    metadata_of_row row = record {
      id = row.id;
      image = row.image;
      status = row.status;
      memory_limit_mb = pos 0;
      labels = row.labels;
      created = row.created;
      image_pull_triggered = Bool.false;
    }

    -- The live status and limit where the runtime knows the sandbox.
    abbrev pub refresh : SandboxRecord → Result Metadata → Svc R Metadata
    refresh row (err e) = pure (metadata_of_row row)
    refresh row (ok live) = do
      updated ← attempt (sql (update_sandbox_status row.id live.status))
      unless_not_found updated
      pure (record (metadata_of_row row) {
        status = live.status;
        memory_limit_mb = live.memory_limit_mb;
      })

    unfoldable pub refresh_all : List SandboxRecord → Svc R (List Metadata)
    refresh_all [] = pure []
    refresh_all (row ∷ rows) = do
      live ← attempt (call (b.get row.id))
      meta ← refresh row live
      more ← refresh_all rows
      pure (meta ∷ more)

    unfoldable pub list_by_session : Text → Svc R (List Metadata)
    unfolding refresh_all
    list_by_session session_id = do
      guard (not (trim_space session_id == [])) bad_request
      rows ← sql (list_sandboxes_by_session (trim_space session_id))
      refresh_all rows

    unfoldable pub delete : Text → Svc R (Unit {0})
    delete sandbox_id = do
      sql (get_sandbox sandbox_id)
      row ← attempt (sql (get_sandbox sandbox_id))
      call (b.delete sandbox_id)
      sql (delete_sandbox sandbox_id)
      emit_session_aggregate (session_of row) sandbox_id (codes "sandbox_deleted") (codes "info")

    unfoldable pub ensure_running : Text → Svc R (Unit {0})
    ensure_running sandbox_id = do
      sql (get_sandbox sandbox_id)
      call (b.ensure_running sandbox_id)
      updated ← attempt (sql (update_sandbox_status sandbox_id running))
      unless_not_found updated
