-- ===== src/Store/Integrity/Trace.antt =====
-- Any sequence of the store's queries, from an empty store.
use sleigh.Prelude.{Text, ◌==◌, ◌≡◌, refl, true, false, List, [], ◌∷◌, arith, any}
use sleigh.Prelude.Int.{ℤ}
use sleigh.Prelude.Rows.{any-delete_where_self, any-delete_where_of}
use sleigh.Errors.{ok}
use sleigh.Action.{Action, ignore}
use sleigh.Action.Keeps.{Keeps, Keeps-ignore}
use sleigh.Store.Schema.{
  Db, Labels, SandboxRecord, SnapshotRecord, MountRecord, ExecTaskRecord, WarmPoolEntry,
  ExecWebhookSubscriptionRecord, empty_db, has_sandbox,
}
use sleigh.Store.Sandboxes.{
  create_sandbox, update_sandbox_status, update_sandbox_image, update_sandbox_assignment,
  update_sandbox_last_access, follows_sandbox, cascade_sandbox, delete_sandbox,
}
use sleigh.Store.Mounts.{create_mount, delete_mount}
use sleigh.Store.Snapshots.{create_snapshot, delete_snapshot_by_id}
use sleigh.Store.Execs.{create_exec_task, update_exec_task, cleanup_exec_tasks_before}
use sleigh.Store.Pool.{create_warm_pool_entry, acquire_warm_pool_entry}
use sleigh.Store.Webhooks.{
  create_exec_webhook_subscription, mark_exec_webhook_subscription_delivered,
}
use sleigh.Store.Sequences.{next_session_sequence}
use sleigh.Store.Images.{
  record_managed_image_pull, touch_managed_image_if_tracked, delete_managed_image,
}
use sleigh.Store.Integrity.{IsIntegral}
use sleigh.Store.Integrity.Sandboxes.{
  create_sandbox-IsIntegral, update_sandbox_status-IsIntegral, update_sandbox_image-IsIntegral,
  update_sandbox_assignment-IsIntegral, update_sandbox_last_access-IsIntegral,
  delete_sandbox-IsIntegral,
}
use sleigh.Store.Integrity.Rows.{
  create_mount-IsIntegral, delete_mount-IsIntegral, create_snapshot-IsIntegral,
  delete_snapshot_by_id-IsIntegral, create_warm_pool_entry-IsIntegral,
  acquire_warm_pool_entry-IsIntegral,
}
use sleigh.Store.Integrity.Execs.{
  create_exec_task-IsIntegral, update_exec_task-IsIntegral, cleanup_exec_tasks_before-IsIntegral,
  create_exec_webhook_subscription-IsIntegral, mark_exec_webhook_subscription_delivered-IsIntegral,
  next_session_sequence-IsIntegral, record_managed_image_pull-IsIntegral,
  touch_managed_image_if_tracked-IsIntegral, delete_managed_image-IsIntegral,
}

-- A query that writes, with its arguments.
pub data Query : Type 0 where
  create_sandbox_q : SandboxRecord → Query
  status_q image_q access_q : Text → Text → Query
  assignment_q : Text → Text → Labels → Query
  delete_sandbox_q : Text → Query
  create_mount_q : MountRecord → Query
  delete_mount_q : Text → Text → Query
  create_snapshot_q : SnapshotRecord → Query
  delete_snapshot_q : Text → Query
  create_exec_q update_exec_q : ExecTaskRecord → Query
  cleanup_q : Text → Query
  create_pool_q : WarmPoolEntry → Query
  acquire_q : Text → ℤ → Query
  subscribe_q : ExecWebhookSubscriptionRecord → Query
  delivered_q : Text → Text → Text → Text → Query
  sequence_q : Text → Query
  pull_q touch_q : Text → Text → Text → Query
  delete_image_q : Text → Query

pub run : Query → Action Db (Unit {0})
run (create_sandbox_q r) = create_sandbox r
run (status_q id s) = update_sandbox_status id s
run (image_q id i) = update_sandbox_image id i
run (access_q id t) = update_sandbox_last_access id t
run (assignment_q id s l) = update_sandbox_assignment id s l
run (delete_sandbox_q id) = delete_sandbox id
run (create_mount_q r) = create_mount r
run (delete_mount_q s m) = delete_mount s m
run (create_snapshot_q r) = create_snapshot r
run (delete_snapshot_q id) = delete_snapshot_by_id id
run (create_exec_q r) = create_exec_task r
run (update_exec_q r) = update_exec_task r
run (cleanup_q b) = ignore (cleanup_exec_tasks_before b)
run (create_pool_q e) = create_warm_pool_entry e
run (acquire_q i m) = ignore (acquire_warm_pool_entry i m)
run (subscribe_q r) = ignore (create_exec_webhook_subscription r)
run (delivered_q n i s l) = mark_exec_webhook_subscription_delivered n i s l
run (sequence_q s) = ignore (next_session_sequence s)
run (pull_q n i u) = record_managed_image_pull n i u
run (touch_q n i u) = touch_managed_image_if_tracked n i u
run (delete_image_q i) = delete_managed_image i

-- The queries in order; one that fails does not stop the others.
pub run_all : List Query → Db → Db
run_all [] db = db
run_all (q ∷ qs) db = run_all qs (run q db).1

run-IsIntegral : (q : Query) → Keeps IsIntegral (run q)
unfolding run
run-IsIntegral (create_sandbox_q r) = create_sandbox-IsIntegral r
run-IsIntegral (status_q id s) = update_sandbox_status-IsIntegral id s
run-IsIntegral (image_q id i) = update_sandbox_image-IsIntegral id i
run-IsIntegral (access_q id t) = update_sandbox_last_access-IsIntegral id t
run-IsIntegral (assignment_q id s l) = update_sandbox_assignment-IsIntegral id s l
run-IsIntegral (delete_sandbox_q id) = delete_sandbox-IsIntegral id
run-IsIntegral (create_mount_q r) = create_mount-IsIntegral r
run-IsIntegral (delete_mount_q s m) = delete_mount-IsIntegral s m
run-IsIntegral (create_snapshot_q r) = create_snapshot-IsIntegral r
run-IsIntegral (delete_snapshot_q id) = delete_snapshot_by_id-IsIntegral id
run-IsIntegral (create_exec_q r) = create_exec_task-IsIntegral r
run-IsIntegral (update_exec_q r) = update_exec_task-IsIntegral r
run-IsIntegral (cleanup_q b) = Keeps-ignore _ (cleanup_exec_tasks_before-IsIntegral b)
run-IsIntegral (create_pool_q e) = create_warm_pool_entry-IsIntegral e
run-IsIntegral (acquire_q i m) = Keeps-ignore _ (acquire_warm_pool_entry-IsIntegral i m)
run-IsIntegral (subscribe_q r) = Keeps-ignore _ (create_exec_webhook_subscription-IsIntegral r)
run-IsIntegral (delivered_q n i s l) = mark_exec_webhook_subscription_delivered-IsIntegral n i s l
run-IsIntegral (sequence_q s) = Keeps-ignore _ (next_session_sequence-IsIntegral s)
run-IsIntegral (pull_q n i u) = record_managed_image_pull-IsIntegral n i u
run-IsIntegral (touch_q n i u) = touch_managed_image_if_tracked-IsIntegral n i u
run-IsIntegral (delete_image_q i) = delete_managed_image-IsIntegral i

-- From an integral store, any sequence of queries, failing or not, leaves an integral store.
pub run_all-IsIntegral : (qs : List Query) (db : Db) → IsIntegral db → IsIntegral (run_all qs db)
unfolding run_all
run_all-IsIntegral [] db h = h
run_all-IsIntegral (q ∷ qs) db h = run_all-IsIntegral qs (run q db).1 ((run-IsIntegral q).at db h)

pub empty_db-IsIntegral : IsIntegral empty_db
empty_db-IsIntegral = record {
  snapshots = tt;
  mounts = tt;
  exec_tasks = tt;
  warm_pool = tt;
  subscribed = tt;
  watched = tt;
  sandbox_ids = tt;
  exec_ids = tt;
  pool_ids = tt;
}

-- No row of the store belongs to the sandbox.
pub record IsGone (id : Text) (db : Db) : Type 0 where
  pub sandboxes : has_sandbox db id ≡ false
  pub snapshots : any (λ r. r.sandbox_id == id) db.snapshots ≡ false
  pub mounts : any (λ r. r.sandbox_id == id) db.mounts ≡ false
  pub exec_tasks : any (λ r. r.sandbox_id == id) db.exec_tasks ≡ false
  pub warm_pool : any (λ r. r.sandbox_id == id) db.warm_pool ≡ false
  pub subscriptions : any (λ r. r.sandbox_id == id) db.subscriptions ≡ false

gone : (id : Text) (db : Db) → IsGone id (cascade_sandbox id db)
unfolding cascade_sandbox has_sandbox
gone id db = record {
  sandboxes = any-delete_where_self (λ r. r.id == id) db.sandboxes;
  snapshots = any-delete_where_self (λ r. r.sandbox_id == id) db.snapshots;
  mounts = any-delete_where_self (λ r. r.sandbox_id == id) db.mounts;
  exec_tasks = any-delete_where_self (λ r. r.sandbox_id == id) db.exec_tasks;
  warm_pool = any-delete_where_self (λ r. r.sandbox_id == id) db.warm_pool;
  subscriptions =
      any-delete_where_of (λ r. r.sandbox_id == id) (follows_sandbox id db.exec_tasks)
        db.subscriptions (λ x k. ground (arith, k));
}

-- DeleteSandbox of a sandbox that is there succeeds, and no table has a row of it any more.
pub delete_sandbox_lem :
    (id : Text) (db : Db)
    → has_sandbox db id ≡ true
    → ((delete_sandbox id db).0 ≡ ok tt) × IsGone id (delete_sandbox id db).1
unfolding delete_sandbox has_sandbox
delete_sandbox_lem id db e = rw e (refl, gone id db)
