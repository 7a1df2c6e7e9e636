-- ===== src/Store/Integrity.antt =====
-- Referential integrity: every query keeps every row's sandbox, and every subscription's task, in
-- the store, and the primary keys apart.
pub mod Sandboxes
pub mod Rows
pub mod Execs
pub mod Trace
use sleigh.Prelude.{
  ℕ, Text, ◌==◌, ◌≡◌, refl, sym, ap, ◌∙◌, Bool, true, false, ◌&&◌, ◌||◌, Option, none, some, List,
  [], ◌∷◌, ◌++◌, arith, All, any, delete_where, update_where, text_eq_iff, text_eq_refl,
  if◌then◌else◌,
}
use sleigh.Prelude.Rows.{
  Distinct, any-append, any-update_where, any-delete_where, any-false, All-mono, All-append,
  All-delete_where, All-update_where, Distinct-append, Distinct-delete_where, Distinct-update_where,
}
use sleigh.Store.Schema.{
  Db, SandboxRecord, SnapshotRecord, MountRecord, ExecTaskRow, WarmPoolEntry,
  ExecWebhookSubscriptionRecord, SequenceRow, ManagedImageRecord, has_sandbox, has_exec_task,
}

pub record IsIntegral (db : Db) : Type 0 where
  pub snapshots : All (λ (r : SnapshotRecord). has_sandbox db r.sandbox_id ≡ true) db.snapshots
  pub mounts : All (λ (r : MountRecord). has_sandbox db r.sandbox_id ≡ true) db.mounts
  pub exec_tasks : All (λ (r : ExecTaskRow). has_sandbox db r.sandbox_id ≡ true) db.exec_tasks
  pub warm_pool : All (λ (r : WarmPoolEntry). has_sandbox db r.sandbox_id ≡ true) db.warm_pool
  pub subscribed :
      All
        (λ (r : ExecWebhookSubscriptionRecord). has_sandbox db r.sandbox_id ≡ true)
        db.subscriptions
  pub watched :
      All
        (λ (r : ExecWebhookSubscriptionRecord). has_exec_task db r.exec_id ≡ true)
        db.subscriptions
  pub sandbox_ids : Distinct (λ (r : SandboxRecord). r.id) db.sandboxes
  pub exec_ids : Distinct (λ (r : ExecTaskRow). r.id) db.exec_tasks
  pub pool_ids : Distinct (λ (r : WarmPoolEntry). r.sandbox_id) db.warm_pool

none_both :
    (id k : Text) (l : List SandboxRecord)
    → (k == id) ≡ false
    → any (λ y. (y.id == k) && (y.id == id)) l ≡ false
unfolding any
none_both id k [] h = refl
none_both id k (y ∷ l) h =
    ground (arith, none_both id k l h, text_eq_iff y.id k, text_eq_iff y.id id, text_eq_iff k id)

-- The rows of the store refer to sandboxes that are there.
module _ {A : Type 0} (owner : A → Text) (db : Db) where
  -- A sandbox more takes no sandbox away.
  pub refers-create :
      (r : SandboxRecord) (rows : List A)
      → All (λ x. any (λ y. y.id == owner x) db.sandboxes ≡ true) rows
      → All (λ x. any (λ y. y.id == owner x) (db.sandboxes ++ r ∷ []) ≡ true) rows
  refers-create r rows h =
      All-mono _ _ rows
        (λ x e. ground (arith, e, any-append (λ y. y.id == owner x) db.sandboxes (r ∷ []))) h

  pub refers-update :
      (q : SandboxRecord → Bool) (f : SandboxRecord → SandboxRecord) (rows : List A)
      → ((x : SandboxRecord) → (f x).id ≡ x.id)
      → All (λ x. any (λ y. y.id == owner x) db.sandboxes ≡ true) rows
      → All (λ x. any (λ y. y.id == owner x) (update_where q f db.sandboxes) ≡ true) rows
  refers-update q f rows same h =
      All-mono _ _ rows
        (λ x e.
          any-update_where (λ y. y.id == owner x) q f db.sandboxes
            (λ y. ap (λ t. t == owner x) (same y))
          ∙ e)
        h

  -- After the sandbox `id` is gone, a row of another one still finds its sandbox.
  pub stays :
      (id : Text) (x : A)
      → (owner x == id) ≡ false
      → any (λ y. y.id == owner x) db.sandboxes ≡ true
      → any (λ y. y.id == owner x) (delete_where (λ y. y.id == id) db.sandboxes) ≡ true
  stays id x other e =
      any-delete_where (λ y. y.id == owner x) (λ y. y.id == id) db.sandboxes e
        (none_both id (owner x) db.sandboxes other)

  pub refers-delete :
      (id : Text) (rows : List A)
      → All (λ x. any (λ y. y.id == owner x) db.sandboxes ≡ true) rows
      → All
          (λ x. any (λ y. y.id == owner x) (delete_where (λ y. y.id == id) db.sandboxes) ≡ true)
          (delete_where (λ x. owner x == id) rows)
  refers-delete id rows h =
      All-delete_where _ _ (λ x. owner x == id) rows (λ x other e. stays id x other e) h

-- A change of one table that no key refers to asks for that table's rows alone.
module _ (db : Db) (h : IsIntegral db) where
  pub with_mounts :
      (rows : List MountRecord)
      → All (λ (r : MountRecord). has_sandbox db r.sandbox_id ≡ true) rows
      → IsIntegral (record db { mounts = rows })
  unfolding has_sandbox has_exec_task
  with_mounts rows k = record {
    snapshots = h.snapshots;
    mounts = k;
    exec_tasks = h.exec_tasks;
    warm_pool = h.warm_pool;
    subscribed = h.subscribed;
    watched = h.watched;
    sandbox_ids = h.sandbox_ids;
    exec_ids = h.exec_ids;
    pool_ids = h.pool_ids;
  }

  pub with_snapshots :
      (rows : List SnapshotRecord)
      → All (λ (r : SnapshotRecord). has_sandbox db r.sandbox_id ≡ true) rows
      → IsIntegral (record db { snapshots = rows })
  unfolding has_sandbox has_exec_task
  with_snapshots rows k = record {
    snapshots = k;
    mounts = h.mounts;
    exec_tasks = h.exec_tasks;
    warm_pool = h.warm_pool;
    subscribed = h.subscribed;
    watched = h.watched;
    sandbox_ids = h.sandbox_ids;
    exec_ids = h.exec_ids;
    pool_ids = h.pool_ids;
  }

  pub with_warm_pool :
      (rows : List WarmPoolEntry)
      → All (λ (r : WarmPoolEntry). has_sandbox db r.sandbox_id ≡ true) rows
      → Distinct (λ (r : WarmPoolEntry). r.sandbox_id) rows
      → IsIntegral (record db { warm_pool = rows })
  unfolding has_sandbox has_exec_task
  with_warm_pool rows k d = record {
    snapshots = h.snapshots;
    mounts = h.mounts;
    exec_tasks = h.exec_tasks;
    warm_pool = k;
    subscribed = h.subscribed;
    watched = h.watched;
    sandbox_ids = h.sandbox_ids;
    exec_ids = h.exec_ids;
    pool_ids = d;
  }

  pub with_subscriptions :
      (rows : List ExecWebhookSubscriptionRecord)
      → All (λ (r : ExecWebhookSubscriptionRecord). has_sandbox db r.sandbox_id ≡ true) rows
      → All (λ (r : ExecWebhookSubscriptionRecord). has_exec_task db r.exec_id ≡ true) rows
      → IsIntegral (record db { subscriptions = rows })
  unfolding has_sandbox has_exec_task
  with_subscriptions rows k w = record {
    snapshots = h.snapshots;
    mounts = h.mounts;
    exec_tasks = h.exec_tasks;
    warm_pool = h.warm_pool;
    subscribed = k;
    watched = w;
    sandbox_ids = h.sandbox_ids;
    exec_ids = h.exec_ids;
    pool_ids = h.pool_ids;
  }

  pub with_sequences : (rows : List SequenceRow) → IsIntegral (record db { sequences = rows })
  unfolding has_sandbox has_exec_task
  with_sequences rows = record {
    snapshots = h.snapshots;
    mounts = h.mounts;
    exec_tasks = h.exec_tasks;
    warm_pool = h.warm_pool;
    subscribed = h.subscribed;
    watched = h.watched;
    sandbox_ids = h.sandbox_ids;
    exec_ids = h.exec_ids;
    pool_ids = h.pool_ids;
  }

  pub with_managed_images :
      (rows : List ManagedImageRecord) → IsIntegral (record db { managed_images = rows })
  unfolding has_sandbox has_exec_task
  with_managed_images rows = record {
    snapshots = h.snapshots;
    mounts = h.mounts;
    exec_tasks = h.exec_tasks;
    warm_pool = h.warm_pool;
    subscribed = h.subscribed;
    watched = h.watched;
    sandbox_ids = h.sandbox_ids;
    exec_ids = h.exec_ids;
    pool_ids = h.pool_ids;
  }

  -- The exec tasks change, and the subscriptions with them.
  pub with_exec_tasks :
      (rows : List ExecTaskRow) (subs : List ExecWebhookSubscriptionRecord)
      → All (λ (r : ExecTaskRow). has_sandbox db r.sandbox_id ≡ true) rows
      → Distinct (λ (r : ExecTaskRow). r.id) rows
      → All (λ (r : ExecWebhookSubscriptionRecord). has_sandbox db r.sandbox_id ≡ true) subs
      → All (λ (r : ExecWebhookSubscriptionRecord). any (λ t. t.id == r.exec_id) rows ≡ true) subs
      → IsIntegral (record db { exec_tasks = rows; subscriptions = subs })
  unfolding has_sandbox has_exec_task
  with_exec_tasks rows subs k d s w = record {
    snapshots = h.snapshots;
    mounts = h.mounts;
    exec_tasks = k;
    warm_pool = h.warm_pool;
    subscribed = s;
    watched = w;
    sandbox_ids = h.sandbox_ids;
    exec_ids = d;
    pool_ids = h.pool_ids;
  }
