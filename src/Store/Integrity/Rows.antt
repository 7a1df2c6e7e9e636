-- ===== src/Store/Integrity/Rows.antt =====
-- The queries on the tables that refer to sandboxes keep the store integral.
use sleigh.Prelude.{
  Text, ◌==◌, ◌≡◌, ◌&&◌, Option, none, some, [], ◌∷◌, arith, any, Bool-cases, inl, inr,
}
use sleigh.Prelude.Int.{ℤ}
use sleigh.Prelude.Rows.{All-append, All-delete_where, Distinct-append, Distinct-delete_where}
use sleigh.Action.Keeps.{Keeps}
use sleigh.Store.Schema.{SnapshotRecord, MountRecord, WarmPoolEntry, has_sandbox}
use sleigh.Store.Mounts.{create_mount, delete_mount}
use sleigh.Store.Snapshots.{stored_snapshot, create_snapshot, delete_snapshot_by_id}
use sleigh.Store.Pool.{oldest_fit, take_entry, create_warm_pool_entry, acquire_warm_pool_entry}
use sleigh.Store.Integrity.{IsIntegral, with_mounts, with_snapshots, with_warm_pool}

pub create_mount-IsIntegral : (r : MountRecord) → Keeps IsIntegral (create_mount r)
unfolding create_mount
create_mount-IsIntegral r = record {
  at = λ db h. elim (Bool-cases (any (λ m. m.id == r.id) db.mounts)) [
    | inl e ↦ rw e h
    | inr e ↦ elim (Bool-cases (has_sandbox db r.sandbox_id)) [
      | inr k ↦ rw (e, k) h
      | inl k ↦ rw (e, k) (with_mounts db h _ (All-append _ db.mounts (r ∷ []) h.mounts (k, tt)))
    ]
  ];
}

pub delete_mount-IsIntegral : (id mount_id : Text) → Keeps IsIntegral (delete_mount id mount_id)
unfolding delete_mount
delete_mount-IsIntegral id mount_id = record {
  at = λ db h. elim (Bool-cases (any (λ m. (m.sandbox_id == id) && (m.id == mount_id)) db.mounts)) [
    | inr e ↦ rw e h
    | inl e ↦ rw e (with_mounts db h _ (All-delete_where _ _ _ db.mounts (λ x _ k. k) h.mounts))
  ];
}

stored_sandbox : (r : SnapshotRecord) → (stored_snapshot r).sandbox_id ≡ r.sandbox_id
unfolding stored_snapshot
stored_sandbox r = ground arith

pub create_snapshot-IsIntegral : (r : SnapshotRecord) → Keeps IsIntegral (create_snapshot r)
unfolding create_snapshot
create_snapshot-IsIntegral r = record {
  at = λ db h. elim (Bool-cases (any (λ m. m.id == r.id) db.snapshots)) [
    | inl e ↦ rw e h
    | inr e ↦ elim (Bool-cases (has_sandbox db r.sandbox_id)) [
      | inr k ↦ rw (e, k) h
      | inl k ↦
          rw (e, k)
            (with_snapshots db h _ (
              All-append _ db.snapshots (stored_snapshot r ∷ []) h.snapshots
                (rw (stored_sandbox r) k, tt)))
    ]
  ];
}

pub delete_snapshot_by_id-IsIntegral : (id : Text) → Keeps IsIntegral (delete_snapshot_by_id id)
unfolding delete_snapshot_by_id
delete_snapshot_by_id-IsIntegral id = record {
  at = λ db h. elim (Bool-cases (any (λ m. m.id == id) db.snapshots)) [
    | inr e ↦ rw e h
    | inl e ↦
        rw e (with_snapshots db h _ (All-delete_where _ _ _ db.snapshots (λ x _ k. k) h.snapshots))
  ];
}

pub create_warm_pool_entry-IsIntegral :
    (e : WarmPoolEntry) → Keeps IsIntegral (create_warm_pool_entry e)
unfolding create_warm_pool_entry
create_warm_pool_entry-IsIntegral r = record {
  at = λ db h. elim (Bool-cases (any (λ x. x.sandbox_id == r.sandbox_id) db.warm_pool)) [
    | inl e ↦ rw e h
    | inr e ↦ elim (Bool-cases (has_sandbox db r.sandbox_id)) [
      | inr k ↦ rw (e, k) h
      | inl k ↦
          rw (e, k)
            (with_warm_pool db h _ (All-append _ db.warm_pool (r ∷ []) h.warm_pool (k, tt))
              (Distinct-append (λ x. x.sandbox_id) db.warm_pool r e h.pool_ids))
    ]
  ];
}

take_entry-IsIntegral : (o : Option WarmPoolEntry) → Keeps IsIntegral (take_entry o)
take_entry-IsIntegral none = record { at = λ db h. h }
take_entry-IsIntegral (some e) = record {
  at = λ db h.
      with_warm_pool db h _ (All-delete_where _ _ _ db.warm_pool (λ x _ k. k) h.warm_pool)
        (Distinct-delete_where (λ x. x.sandbox_id) _ db.warm_pool h.pool_ids);
}

pub acquire_warm_pool_entry-IsIntegral :
    (image : Text) (memory_mb : ℤ) → Keeps IsIntegral (acquire_warm_pool_entry image memory_mb)
unfolding acquire_warm_pool_entry
acquire_warm_pool_entry-IsIntegral image memory_mb = record {
  at = λ db h. (take_entry-IsIntegral (oldest_fit image memory_mb db)).at db h;
}
