-- ===== src/Service/Mounts/Undo.antt =====
-- MountPath of service.go when the runtime refuses the new list of mounts.
use sleigh.Prelude.{
  ℕ, Text, ◌==◌, ◌≡◌, refl, Bool, true, false, ◌&&◌, Option, some, List, [], ◌∷◌, ◌++◌, arith,
  codes, any, find?, delete_where, text_eq_refl, Bool-cases, inl, inr,
}
use sleigh.Prelude.Rows.{any-delete_where_self}
use sleigh.Errors.{Error, ok, err}
use sleigh.Store.Schema.{SandboxRecord, MountRecord, has_sandbox, or_not_found}
use sleigh.Store.Sandboxes.{get_sandbox}
use sleigh.Store.Mounts.{create_mount, delete_mount}
use sleigh.Service.Types.{World, Backend, Policy, MountSpec}
use sleigh.Service.Effects.{sql, new_id, read_clock, hex}
use sleigh.Service.Mounts.{Files, MountRequest, checked, list_mounts, mount_path, unmount_path}

find-some :
    (id : Text) (rows : List SandboxRecord) (row : SandboxRecord)
    → or_not_found (find? (λ r. r.id == id) rows) ≡ ok row
    → any (λ r. r.id == id) rows ≡ true
unfolding find? any
find-some id [] row h = cc
find-some id (r ∷ rows) row h = elim (Bool-cases (r.id == id)) [
  | inl e ↦ rw e refl
  | inr e ↦ rw e (find-some id rows row (rw e at h))
]

module _ (sandbox_id id : Text) where
  unfoldable pub ours : MountRecord → Bool
  ours m = (m.sandbox_id == sandbox_id) && (m.id == id)

  taken_back :
      (rows : List MountRecord) (m : MountRecord)
      → any (λ r. r.id == id) rows ≡ false
      → ours m ≡ true
      → delete_where ours (rows ++ m ∷ []) ≡ rows
  unfolding delete_where any ours
  taken_back [] m h k = rw k refl
  taken_back (r ∷ rows) m h k = ground (arith, h, taken_back rows m)

  there_again :
      (rows : List MountRecord) (m : MountRecord) → ours m ≡ true → any ours (rows ++ m ∷ []) ≡ true
  unfolding any ours
  there_again [] m k = rw k refl
  there_again (r ∷ rows) m k = ground (arith, there_again rows m k)

module _ {R : Type 0} (b : Backend R) (files : Files) (policy : Policy) where
  -- With a driver that fails no call, a new mount id and a request that passes the checks, a
  -- MountPath that the runtime refuses returns the runtime's error and leaves the mounts as before.
  pub mount_path-undone :
      (sandbox_id : Text) (req good : MountRequest) (w : World R) (row : SandboxRecord) (e : Error)
      (bytes : List ℕ) (es : List (Option (List ℕ)))
      → w.faults ≡ []
      → w.entropy ≡ some bytes ∷ es
      → (get_sandbox sandbox_id w.db).0 ≡ ok row
      → checked files policy req ≡ ok good
      → any (λ m. m.id == codes "mnt_" ++ hex bytes) w.db.mounts ≡ false
      → ((mounts : List MountSpec) (x : R) → (b.update_mounts sandbox_id mounts x).0 ≡ err e)
      → ((mount_path b files policy sandbox_id req w).0 ≡ err e)
        × ((mount_path b files policy sandbox_id req w).1.db.mounts ≡ w.db.mounts)
  unfolding mount_path list_mounts sql new_id read_clock get_sandbox create_mount delete_mount
      has_sandbox sleigh.Store.Mounts.list_mounts
  mount_path-undone sandbox_id req good w row e bytes es hf he hr hc hn refused =
      let id = codes "mnt_" ++ hex bytes in
      let m : MountRecord = record {
        id = id;
        sandbox_id = sandbox_id;
        host_path = good.host_path;
        container_path = good.container_path;
        mode = good.mode;
        created = w.clock w.ticks;
      } in
      let mine : ours sandbox_id id m ≡ true =
        unfold ours in rw (text_eq_refl sandbox_id, text_eq_refl id) refl in
      let again : any (λ r. (r.sandbox_id == sandbox_id) && (r.id == id)) (w.db.mounts ++ m ∷ [])
          ≡ true =
        unfold ours in there_again sandbox_id id w.db.mounts m mine in
      let back : delete_where (λ r. (r.sandbox_id == sandbox_id) && (r.id == id))
            (w.db.mounts ++ m ∷ [])
          ≡ w.db.mounts =
        unfold ours in taken_back sandbox_id id w.db.mounts m hn mine in
      rw (hf, hr, hc, he, hn, find-some sandbox_id w.db.sandboxes row hr, hr, refused, again, back)
        (refl, refl)

module _ {R : Type 0} (b : Backend R) where
  -- With a driver that fails no call, an UnmountPath that the runtime refuses returns the runtime's
  -- error, and the row of the mount is gone all the same.
  pub unmount_path-not_undone :
      (sandbox_id mount_id : Text) (w : World R) (row : SandboxRecord) (e : Error)
      → w.faults ≡ []
      → (get_sandbox sandbox_id w.db).0 ≡ ok row
      → any (ours sandbox_id mount_id) w.db.mounts ≡ true
      → ((mounts : List MountSpec) (x : R) → (b.update_mounts sandbox_id mounts x).0 ≡ err e)
      → ((unmount_path b sandbox_id mount_id w).0 ≡ err e)
        × (any (ours sandbox_id mount_id) (unmount_path b sandbox_id mount_id w).1.db.mounts
            ≡ false)
  unfolding unmount_path list_mounts sql get_sandbox delete_mount ours
      sleigh.Store.Mounts.list_mounts
  unmount_path-not_undone sandbox_id mount_id w row e hf hr ht refused =
      rw (hf, hr, ht, hr, refused)
        (
          refl,
          any-delete_where_self (λ r. (r.sandbox_id == sandbox_id) && (r.id == mount_id))
              w.db.mounts,
        )
