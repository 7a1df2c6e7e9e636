-- ===== src/Service/Types.antt =====
-- The data of server/internal/sandbox: backend.go and the types of service.go.
use sleigh.Prelude.{ℕ, Text, Bool, Option, List, codes}
use sleigh.Prelude.Int.{ℤ}
use sleigh.Action.{Action}
use sleigh.Store.Schema.{Db, Labels, MountRecord, SnapshotRecord}

pub record Metadata : Type 0 where
  pub id : Text
  pub image : Text
  pub status : Text
  pub memory_limit_mb : ℤ
  pub labels : Labels
  pub created : Text
  pub image_pull_triggered : Bool

pub record CreateRequest : Type 0 where
  pub id : Text
  pub image : Text
  pub labels : Labels
  pub memory_limit_mb : ℤ

pub record ExecOutput : Type 0 where
  pub stdout : Text
  pub stderr : Text
  pub exit_code : ℤ

pub record AutoExpandResult : Type 0 where
  pub triggered : Bool
  pub from_mb : ℤ
  pub to_mb : ℤ
  pub reason : Text

pub record MemoryPressure : Type 0 where
  pub near_limit : Bool
  pub reason : Text

-- MountSpec and Snapshot have the fields of the rows that they are stored as.
abbrev pub MountSpec : Type 0
MountSpec = MountRecord

abbrev pub Snapshot : Type 0
Snapshot = SnapshotRecord

-- The interface of the container runtime, over a state `R` that the program does not see. What
-- `Exec` returns comes in with the step that ends an exec task.
pub record Backend (R : Type 0) : Type 0 where
  pub image_exists : Text → Action R Bool
  pub create : CreateRequest → Action R Metadata
  pub get : Text → Action R Metadata
  pub delete : Text → Action R (Unit {0})
  pub update_mounts : Text → List MountSpec → Action R (Unit {0})
  pub ensure_running : Text → Action R (Unit {0})
  pub get_memory_pressure : Text → Action R MemoryPressure
  pub expand_memory : Text → ℤ → Action R AutoExpandResult
  pub delete_image_if_unused : Text → Action R (Bool × Text)
  pub prune_dangling_images : Action R (Unit {0})
  pub create_snapshot : Text → Snapshot → Action R (Unit {0})
  pub rollback_to_snapshot : Text → Snapshot → Action R Metadata

pub record Policy : Type 0 where
  pub min_expand_mb : ℤ
  pub max_expand_mb : ℤ
  pub max_expand_step_mb : ℤ
  pub exec_memory_poll_interval_seconds : ℤ
  pub exec_ttl_days : ℤ
  pub mount_allowed_root : Text
  pub warm_pool_size : ℤ
  pub warm_pool_image : Text
  pub warm_pool_memory_mb : ℤ
  pub snapshot_root_dir : Text
  pub cursor_token_secret : Text
  pub cursor_token_ttl_seconds : ℤ
  pub sandbox_idle_ttl_days : ℤ
  pub snapshot_retention_days : ℤ
  pub prune_dangling_images : Bool

pub record ExecResult : Type 0 where
  pub id : Text
  pub sandbox_id : Text
  pub command : Text
  pub status : Text
  pub stdout : Text
  pub stderr : Text
  pub exit_code : Option ℤ
  pub error : Text
  pub started_at : Text
  pub completed_at : Text
  pub recovery : Text

-- `cancel` is whether the task still holds its CancelFunc, `canceled` whether it was called.
pub record ExecTask : Type 0 where
  pub result : ExecResult
  pub cancel : Bool
  pub canceled : Bool

abbrev pub running : Text
running = codes "running"

abbrev pub cancelling : Text
cancelling = codes "cancelling"

abbrev pub succeeded : Text
succeeded = codes "succeeded"

abbrev pub failed : Text
failed = codes "failed"

abbrev pub cancelled : Text
cancelled = codes "cancelled"

-- What an event says of one sandbox: its state, and its last exec task if there is one.
pub record LastExec : Type 0 where
  pub exec_id : Text
  pub status : Text
  pub command : Text
  pub started_at : Text

pub record SandboxEntry : Type 0 where
  pub sandbox_id : Text
  pub status : Text
  pub image : Text
  pub last_exec : Option LastExec

-- A "session-sandbox-update" event.
pub record Event : Type 0 where
  pub event_id : Text
  pub session_seq : ℕ
  pub idempotency_key : Text
  pub severity : Text
  pub timestamp : Text
  pub session_id : Text
  pub trigger : Text
  pub trigger_sandbox_id : Text
  pub sandboxes : List SandboxEntry

-- A goroutine that the service has started and that has not run yet.
pub data Job : Type 0 where
  run_exec : Text → Job
  poll_memory : Text → Job
  ensure_warm_pool : Job
  deliver_webhooks : Text → Text → ExecResult → Job
  record_image_pull touch_image_usage : Text → Text → Job

-- The service and what stands around it. `faults` says which of the coming database calls the
-- driver fails, `entropy` what the random source gives, `clock` what the n-th reading shows.
pub record World (R : Type 0) : Type 0 where
  pub db : Db
  pub faults : List Bool
  pub runtime : R
  pub exec_map : List ExecTask
  pub warm_pool_hits : ℕ
  pub warm_pool_misses : ℕ
  pub warm_pool_refill_total : ℕ
  pub entropy : List (Option (List ℕ))
  pub clock : ℕ → Text
  pub ticks : ℕ
  pub reporting : Bool
  pub sent : List Event
  pub jobs : List Job

abbrev pub Svc : Type 0 → Type 0 → Type 0
Svc R A = Action (World R) A
