-- ===== src/Store/Integrity/Sandboxes.antt =====
-- The queries on the sandboxes table keep the store integral.
use sleigh.Prelude.{
  Text, ◌==◌, ◌≡◌, refl, true, List, arith, All, any, delete_where, Bool-cases, inl, inr,
}
use sleigh.Prelude.Rows.{
  any-delete_where, All-delete_where, Distinct-append, Distinct-delete_where, Distinct-update_where,
}
use sleigh.Action.Keeps.{Keeps}
use sleigh.Store.Schema.{
  Db, Labels, SandboxRecord, SnapshotRecord, MountRecord, ExecTaskRow, WarmPoolEntry,
  ExecWebhookSubscriptionRecord, has_sandbox, has_exec_task,
}
use sleigh.Store.Sandboxes.{
  create_sandbox, update_sandbox, update_sandbox_status, update_sandbox_image,
  update_sandbox_assignment, update_sandbox_last_access, follows_sandbox, delete_sandbox,
}
use sleigh.Store.Integrity.{IsIntegral, stays, refers-create, refers-update, refers-delete}

pub create_sandbox-IsIntegral : (r : SandboxRecord) → Keeps IsIntegral (create_sandbox r)
unfolding create_sandbox has_sandbox has_exec_task
create_sandbox-IsIntegral r = record {
  at = λ db h. elim (Bool-cases (any (λ x. x.id == r.id) db.sandboxes)) [
    | inl e ↦ rw e h
    | inr e ↦
        let r' = record r { last_accessed = r.created } in
        rw e (record {
          snapshots = refers-create (λ (x : SnapshotRecord). x.sandbox_id) db r' _ h.snapshots;
          mounts = refers-create (λ (x : MountRecord). x.sandbox_id) db r' _ h.mounts;
          exec_tasks = refers-create (λ (x : ExecTaskRow). x.sandbox_id) db r' _ h.exec_tasks;
          warm_pool = refers-create (λ (x : WarmPoolEntry). x.sandbox_id) db r' _ h.warm_pool;
          subscribed =
              refers-create (λ (x : ExecWebhookSubscriptionRecord). x.sandbox_id) db r' _
                h.subscribed;
          watched = h.watched;
          sandbox_ids = Distinct-append (λ x. x.id) db.sandboxes r' e h.sandbox_ids;
          exec_ids = h.exec_ids;
          pool_ids = h.pool_ids;
        })
  ];
}

update_sandbox-IsIntegral :
    (id : Text) (f : SandboxRecord → SandboxRecord)
    → ((x : SandboxRecord) → (f x).id ≡ x.id)
    → Keeps IsIntegral (update_sandbox id f)
unfolding update_sandbox has_sandbox has_exec_task
update_sandbox-IsIntegral id f same = record {
  at = λ db h. elim (Bool-cases (any (λ x. x.id == id) db.sandboxes)) [
    | inr e ↦ rw e h
    | inl e ↦
        let q = λ (x : SandboxRecord). x.id == id in
        rw e (record {
          snapshots =
              refers-update (λ (x : SnapshotRecord). x.sandbox_id) db q f _ same h.snapshots;
          mounts = refers-update (λ (x : MountRecord). x.sandbox_id) db q f _ same h.mounts;
          exec_tasks = refers-update (λ (x : ExecTaskRow). x.sandbox_id) db q f _ same h.exec_tasks;
          warm_pool = refers-update (λ (x : WarmPoolEntry). x.sandbox_id) db q f _ same h.warm_pool;
          subscribed =
              refers-update (λ (x : ExecWebhookSubscriptionRecord). x.sandbox_id) db q f _ same
                h.subscribed;
          watched = h.watched;
          sandbox_ids = Distinct-update_where (λ x. x.id) q f db.sandboxes same h.sandbox_ids;
          exec_ids = h.exec_ids;
          pool_ids = h.pool_ids;
        })
  ];
}

pub update_sandbox_status-IsIntegral :
    (id status : Text) → Keeps IsIntegral (update_sandbox_status id status)
unfolding update_sandbox_status
update_sandbox_status-IsIntegral id status = update_sandbox-IsIntegral id _ (λ x. refl)

pub update_sandbox_image-IsIntegral :
    (id image : Text) → Keeps IsIntegral (update_sandbox_image id image)
unfolding update_sandbox_image
update_sandbox_image-IsIntegral id image = update_sandbox-IsIntegral id _ (λ x. refl)

pub update_sandbox_assignment-IsIntegral :
    (id session_id : Text) (labels : Labels)
    → Keeps IsIntegral (update_sandbox_assignment id session_id labels)
unfolding update_sandbox_assignment
update_sandbox_assignment-IsIntegral id session_id labels =
    update_sandbox-IsIntegral id _ (λ x. refl)

pub update_sandbox_last_access-IsIntegral :
    (id accessed_at : Text) → Keeps IsIntegral (update_sandbox_last_access id accessed_at)
unfolding update_sandbox_last_access
update_sandbox_last_access-IsIntegral id accessed_at = update_sandbox-IsIntegral id _ (λ x. refl)

-- A subscription that is not of the deleted sandbox, nor of a task of it, keeps its task.
watched-delete :
    (id : Text) (tasks : List ExecTaskRow) (subs : List ExecWebhookSubscriptionRecord)
    → All (λ (x : ExecWebhookSubscriptionRecord). any (λ t. t.id == x.exec_id) tasks ≡ true) subs
    → All
        (λ (x : ExecWebhookSubscriptionRecord).
          any (λ t. t.id == x.exec_id) (delete_where (λ t. t.sandbox_id == id) tasks) ≡ true)
        (delete_where (follows_sandbox id tasks) subs)
unfolding follows_sandbox
watched-delete id tasks subs h =
    All-delete_where _ _ (follows_sandbox id tasks) subs
      (λ x k e.
        any-delete_where (λ t. t.id == x.exec_id) (λ t. t.sandbox_id == id) tasks e (ground arith))
      h

subscribed-delete :
    (id : Text) (db : Db)
    → All
        (λ (x : ExecWebhookSubscriptionRecord). any (λ y. y.id == x.sandbox_id) db.sandboxes ≡ true)
        db.subscriptions
    → All
        (λ (x : ExecWebhookSubscriptionRecord).
          any (λ y. y.id == x.sandbox_id) (delete_where (λ y. y.id == id) db.sandboxes) ≡ true)
        (delete_where (follows_sandbox id db.exec_tasks) db.subscriptions)
unfolding follows_sandbox
subscribed-delete id db h =
    All-delete_where _ _ (follows_sandbox id db.exec_tasks) db.subscriptions
      (λ x k e.
        stays (λ (y : ExecWebhookSubscriptionRecord). y.sandbox_id) db id x (ground arith) e)
      h

pub delete_sandbox-IsIntegral : (id : Text) → Keeps IsIntegral (delete_sandbox id)
unfolding delete_sandbox has_exec_task
delete_sandbox-IsIntegral id = record {
  at = λ db h. elim (Bool-cases (any (λ x. x.id == id) db.sandboxes)) [
    | inr e ↦ rw e h
    | inl e ↦ rw e (record {
      snapshots = refers-delete (λ (x : SnapshotRecord). x.sandbox_id) db id _ h.snapshots;
      mounts = refers-delete (λ (x : MountRecord). x.sandbox_id) db id _ h.mounts;
      exec_tasks = refers-delete (λ (x : ExecTaskRow). x.sandbox_id) db id _ h.exec_tasks;
      warm_pool = refers-delete (λ (x : WarmPoolEntry). x.sandbox_id) db id _ h.warm_pool;
      subscribed = subscribed-delete id db h.subscribed;
      watched = watched-delete id db.exec_tasks db.subscriptions h.watched;
      sandbox_ids = Distinct-delete_where (λ x. x.id) _ db.sandboxes h.sandbox_ids;
      exec_ids = Distinct-delete_where (λ x. x.id) _ db.exec_tasks h.exec_ids;
      pool_ids = Distinct-delete_where (λ x. x.sandbox_id) _ db.warm_pool h.pool_ids;
    })
  ];
}
