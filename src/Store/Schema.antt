-- ===== src/Store/Schema.antt =====
-- The tables of server/internal/store/sqlite/store.go (`migrate`, lines 1178-1286) and their rows.
-- A column `updated_at` is written and never read, and is left out.
use sleigh.Prelude.{ℕ, Text, Bool, Option, none, some, List, [], ◌∷◌, ◌==◌, any, if◌then◌else◌}
use sleigh.Prelude.Int.{ℤ}
use sleigh.Errors.{Result, ok, err, not_found}

-- map[string]string; a missing key reads as "".
abbrev pub Labels : Type 0
Labels = List (Text × Text)

unfoldable pub label : Labels → Text → Text
label [] k = []
label ((j, v) ∷ m) k = if j == k then v else label m k

pub record SandboxRecord : Type 0 where
  pub id : Text
  pub session_id : Text
  pub image : Text
  pub status : Text
  pub labels : Labels
  pub created : Text
  pub last_accessed : Text

pub record SnapshotRecord : Type 0 where
  pub id : Text
  pub sandbox_id : Text
  pub image_ref : Text
  pub type : Text
  pub host_path : Text
  pub base_id : Text
  pub created : Text

pub record MountRecord : Type 0 where
  pub id : Text
  pub sandbox_id : Text
  pub host_path : Text
  pub container_path : Text
  pub mode : Text
  pub created : Text

pub record WarmPoolEntry : Type 0 where
  pub sandbox_id : Text
  pub image : Text
  pub memory_mb : ℤ
  pub created_at : Text

pub record ManagedImageRecord : Type 0 where
  pub image : Text
  pub last_used_at : Text

pub record ExecTaskRecord : Type 0 where
  pub id : Text
  pub sandbox_id : Text
  pub command : Text
  pub status : Text
  pub stdout : Text
  pub stderr : Text
  pub exit_code : Option ℤ
  pub error : Text
  pub recovery : Text
  pub started_at : Text
  pub completed_at : Text

-- A row of exec_tasks: `completed_at` may be NULL.
pub record ExecTaskRow : Type 0 where
  pub id : Text
  pub sandbox_id : Text
  pub command : Text
  pub status : Text
  pub stdout : Text
  pub stderr : Text
  pub exit_code : Option ℤ
  pub error : Text
  pub recovery : Text
  pub started_at : Text
  pub completed_at : Option Text

pub record ExecWebhookSubscriptionRecord : Type 0 where
  pub id : Text
  pub session_id : Text
  pub sandbox_id : Text
  pub exec_id : Text
  pub webhook_url : Text
  pub delivered_status : Text
  pub delivered_at : Text
  pub last_error : Text
  pub created_at : Text
  pub updated_at : Text

pub record SequenceRow : Type 0 where
  pub session_id : Text
  pub last_seq : ℕ

pub record Db : Type 0 where
  pub sandboxes : List SandboxRecord
  pub snapshots : List SnapshotRecord
  pub exec_tasks : List ExecTaskRow
  pub sequences : List SequenceRow
  pub mounts : List MountRecord
  pub warm_pool : List WarmPoolEntry
  pub managed_images : List ManagedImageRecord
  pub subscriptions : List ExecWebhookSubscriptionRecord

abbrev pub empty_db : Db
empty_db = record {
  sandboxes = [];
  snapshots = [];
  exec_tasks = [];
  sequences = [];
  mounts = [];
  warm_pool = [];
  managed_images = [];
  subscriptions = [];
}

-- REFERENCES sandboxes(id): the key that the rows of five tables refer to.
unfoldable pub has_sandbox : Db → Text → Bool
has_sandbox db id = any (λ r. r.id == id) db.sandboxes

-- REFERENCES exec_tasks(id)
unfoldable pub has_exec_task : Db → Text → Bool
has_exec_task db id = any (λ r. r.id == id) db.exec_tasks

-- The first row of a query, or sql.ErrNoRows read as ErrNotFound.
abbrev pub or_not_found : {A : Type 0} → Option A → Result A
or_not_found none = err not_found
or_not_found (some a) = ok a

abbrev pub first : {A : Type 0} → List A → Option A
first [] = none
first (x ∷ xs) = some x

-- nullableString: "" is stored as NULL.
unfoldable pub nullable_string : Text → Option Text
nullable_string [] = none
nullable_string (c ∷ s) = some (c ∷ s)

unfoldable pub read_nullable : Option Text → Text
read_nullable none = []
read_nullable (some s) = s
