-- ===== src/Service/Snapshots/Restored.antt =====
-- A workspace after a snapshot of it and a rollback: createWorkspaceSnapshot and
-- rollbackWorkspaceSnapshot of service.go.
use sleigh.Prelude.{
  Text, false, Option, none, some, [], ◌∷◌, ◌==◌, ◌≡◌, ◌≢◌, refl, sym, ◌∙◌, ap, subst,
  if◌then◌else◌, codes, text_eq_refl,
}
use sleigh.Errors.{Result, ok, err}
use sleigh.Action.{Action, ◌>>◌}
use sleigh.Workspace.Tree.{File, dir, Entries, end, TreePath, at, other, kind_at}
use sleigh.Workspace.Sync.{
  Target, sync_tree, clone_snapshot_base, without_meta, snapshot_meta_file_name,
}
use sleigh.Workspace.Mirror.{IsUnlinked}
use sleigh.Workspace.Walk.{continue-ok}
use sleigh.Workspace.Ordered.{IsOrdered, sync_entries-IsOrdered}
use sleigh.Workspace.RoundTrip.{IsTrusted, with_meta, sync_tree-sync_tree}
use sleigh.Service.Snapshots.{
  Disk, note, in_tree, ensure_dir, sync_dirs, base_tree, clone_dir, write_snapshot_meta, meta_file,
  build_snapshot, restore_dir, make_dir,
}

-- A tree that was written is read back, and the other trees stay.
pub record IsLawful {R : Type 0} (disk : Disk R) : Type 0 where
  pub tree-set_tree :
      (p q : Text) (es : Entries) (r : R)
      → disk.tree q (disk.set_tree p es r) ≡ (if q == p then some es else disk.tree q r)

note-eq-ok : (m : Text) (a : Result (Unit {0})) → note m a ≡ ok tt → a ≡ ok tt
note-eq-ok m (ok u) h = refl
note-eq-ok m (err e) h = cc

clone-IsOrdered :
    (follow : Text → Target) (base : Option Entries)
    → IsOrdered (clone_snapshot_base follow base end).1
unfolding clone_snapshot_base
clone-IsOrdered follow none = tt
clone-IsOrdered follow (some base) =
    sync_entries-IsOrdered follow (λ f cur. false) (without_meta base) end tt

module _ {R : Type 0} (disk : Disk R) (L : IsLawful disk) where
  set_self : (p : Text) (es : Entries) (r : R) → disk.tree p (disk.set_tree p es r) ≡ some es
  set_self p es r = rw (L.tree-set_tree p p es r, text_eq_refl p) refl

  set_ne :
      (p q : Text) (es : Entries) (r : R)
      → (q == p) ≡ false
      → disk.tree q (disk.set_tree p es r) ≡ disk.tree q r
  set_ne p q es r h = rw (L.tree-set_tree p q es r, h) refl

  in_tree-ok :
      (heading path : Text) (m : Action Entries (Unit {0})) (es : Entries) (r : R)
      → disk.tree path r ≡ some es
      → (in_tree disk heading path m r).0 ≡ ok tt
      → ((m es).0 ≡ ok tt) × ((in_tree disk heading path m r).1 ≡ disk.set_tree path (m es).1 r)
  unfolding in_tree
  in_tree-ok heading path m es r e h = rw e (note-eq-ok heading (m es).0 (rw e at h), refl)

  sync_dirs-ok :
      (heading src dst : Text) (from into : Entries) (r : R)
      → disk.tree src r ≡ some from
      → disk.tree dst r ≡ some into
      → (sync_dirs disk heading src dst r).0 ≡ ok tt
      → ((sync_tree disk.follow from into).0 ≡ ok tt)
        × ((sync_dirs disk heading src dst r).1
            ≡ disk.set_tree dst (sync_tree disk.follow from into).1 r)
  unfolding sync_dirs
  sync_dirs-ok heading src dst from into r e e' h =
      rw e (in_tree-ok heading dst (sync_tree disk.follow from) into r e' (rw e at h))

  -- The base of a new snapshot: a clone of the last one.
  abbrev pub cloned : Text → R → Entries
  cloned base r = (clone_snapshot_base disk.follow (base_tree disk base r) end).1

  cloned-IsOrdered : (base : Text) (r : R) → IsOrdered (cloned base r)
  cloned-IsOrdered base r = clone-IsOrdered disk.follow (base_tree disk base r)

  base_tree-set_tree :
      (base target : Text) (es : Entries) (r : R)
      → (base == target) ≡ false
      → base_tree disk base (disk.set_tree target es r) ≡ base_tree disk base r
  base_tree-set_tree [] target es r h = refl
  base_tree-set_tree (c ∷ s) target es r h = set_ne target (c ∷ s) es r h

  cloned-set_tree :
      (base target : Text) (es : Entries) (r : R)
      → (base == target) ≡ false
      → cloned base (disk.set_tree target es r) ≡ cloned base r
  cloned-set_tree base target es r h =
      ap (λ b. (clone_snapshot_base disk.follow b end).1) (base_tree-set_tree base target es r h)

  clone_dir-ok :
      (heading base target : Text) (r : R)
      → disk.tree target r ≡ some end
      → (clone_dir disk heading base target r).0 ≡ ok tt
      → (clone_dir disk heading base target r).1 ≡ disk.set_tree target (cloned base r) r
  unfolding clone_dir
  clone_dir-ok heading base target r e h =
      (in_tree-ok heading target (clone_snapshot_base disk.follow (base_tree disk base r)) end r e
        h).1

  -- The workspace's files and the metadata, over the base.
  abbrev fill_target : Text → Text → Text → Text → Action R (Unit {0})
  fill_target target sandbox_id source id = do
    sync_dirs disk (codes "sync workspace into snapshot") source target
    write_snapshot_meta disk target sandbox_id source id

  write_snapshot_meta-tree :
      (path sandbox_id source id : Text) (es : Entries) (r : R)
      → disk.tree path r ≡ some es
      → disk.tree path (write_snapshot_meta disk path sandbox_id source id r).1
        ≡ some (with_meta (meta_file disk sandbox_id source id r) es)
  unfolding write_snapshot_meta in_tree
  write_snapshot_meta-tree path sandbox_id source id es r e = rw e (set_self path _ r)

  fill_target-ok :
      (target sandbox_id source id : Text) (host base : Entries) (r : R)
      → disk.tree target r ≡ some base
      → disk.tree source r ≡ some host
      → (fill_target target sandbox_id source id r).0 ≡ ok tt
      → (f : File) × ((sync_tree disk.follow host base).0 ≡ ok tt)
        × (disk.tree target (fill_target target sandbox_id source id r).1
            ≡ some (with_meta f (sync_tree disk.follow host base).1))
  fill_target-ok target sandbox_id source id host base r et es h =
      let heading = codes "sync workspace into snapshot" in
      let synced = sync_dirs disk heading source target r in
      let (k, step) =
        continue-ok synced.0 (λ _. write_snapshot_meta disk target sandbox_id source id) synced.1
          h in
      let (done, e) = sync_dirs-ok heading source target host base r es et k in
      (
        meta_file disk sandbox_id source id synced.1,
        done,
        rw step (
            write_snapshot_meta-tree target sandbox_id source id _ synced.1
              (rw e (set_self target _ r))),
      )

  build_snapshot-ok :
      (target base sandbox_id source id : Text) (host : Entries) (r : R)
      → disk.tree target r ≡ none
      → disk.tree source r ≡ some host
      → (source == target) ≡ false
      → (base == target) ≡ false
      → (build_snapshot disk target base sandbox_id source id r).0 ≡ ok tt
      → (f : File) × ((sync_tree disk.follow host (cloned base r)).0 ≡ ok tt)
        × (disk.tree target (build_snapshot disk target base sandbox_id source id r).1
            ≡ some (with_meta f (sync_tree disk.follow host (cloned base r)).1))
  unfolding build_snapshot
  build_snapshot-ok target base sandbox_id source id host r fresh e ne nb h =
      let r1 = disk.set_tree target end r in
      let heading = codes "clone base snapshot" in
      let made = clone_dir disk heading base target r1 in
      let (k, step) =
        continue-ok made.0 (λ _. fill_target target sandbox_id source id) made.1
          (unfold ensure_dir in rw fresh at h) in
      let e2 =
        clone_dir-ok heading base target r1 (set_self target end r) k
        ∙ ap (λ b. disk.set_tree target b r1) (cloned-set_tree base target end r nb) in
      let source_there =
        ap (disk.tree source) e2
        ∙ set_ne target source _ r1 ne
        ∙ set_ne target source end r ne
        ∙ e in
      unfold ensure_dir in
      rw (fresh, step)
        (fill_target-ok target sandbox_id source id host (cloned base r) made.1
          (ap (disk.tree target) e2 ∙ set_self target _ r1) source_there
          (sym (ap (λ a. a.0) step) ∙ unfold ensure_dir in rw fresh at h))

  abbrev pub or_empty : Option Entries → Entries
  or_empty none = end
  or_empty (some es) = es

  make_dir-tree :
      (path : Text) (o : Option Entries) (r : R)
      → disk.tree path r ≡ o
      → disk.tree path (make_dir disk path o r) ≡ some (or_empty o)
  make_dir-tree path none r e = set_self path end r
  make_dir-tree path (some es) r e = e

  make_dir-tree_ne :
      (path other_path : Text) (o : Option Entries) (r : R)
      → (other_path == path) ≡ false
      → disk.tree other_path (make_dir disk path o r) ≡ disk.tree other_path r
  make_dir-tree_ne path other_path none r h = set_ne path other_path end r h
  make_dir-tree_ne path other_path (some es) r h = refl

  restore_dir-ok :
      (src host_path : Text) (snap : Entries) (r : R)
      → disk.tree src r ≡ some snap
      → (src == host_path) ≡ false
      → (restore_dir disk src host_path r).0 ≡ ok tt
      → ((sync_tree disk.follow snap (or_empty (disk.tree host_path r))).0 ≡ ok tt)
        × (disk.tree host_path (restore_dir disk src host_path r).1
            ≡ some (sync_tree disk.follow snap (or_empty (disk.tree host_path r))).1)
  unfolding restore_dir ensure_dir
  restore_dir-ok src host_path snap r e ne h =
      let made = make_dir disk host_path (disk.tree host_path r) r in
      let there = make_dir-tree_ne host_path src (disk.tree host_path r) r ne ∙ e in
      let (done, e') =
        sync_dirs-ok (codes "restore snapshot to workspace") src host_path snap
          (or_empty (disk.tree host_path r)) made there
          (make_dir-tree host_path (disk.tree host_path r) r refl) (rw there at h) in
      (done, rw (there, e') (set_self host_path _ made))

  -- With lawful directories, names in order, paths apart, and no link to a directory where a
  -- directory is copied, in the base where the workspace has one and in the changed workspace where
  -- the snapshot has one, a workspace that is copied to a new snapshot and, after any changes that
  -- leave the snapshot alone, restored from it, both without an error, has at each path but the
  -- metadata what it had, unless that was a special file, or a different file of the same size and
  -- time stood there in the base or in the changed workspace.
  pub restore_dir-build_snapshot :
      (target base sandbox_id source id : Text) (host : Entries) (r r' : R) (n : Text)
      (p : TreePath)
      → disk.tree target r ≡ none
      → disk.tree source r ≡ some host
      → IsOrdered host
      → (source == target) ≡ false
      → (target == source) ≡ false
      → (base == target) ≡ false
      → IsUnlinked disk.follow host (cloned base r)
      → (build_snapshot disk target base sandbox_id source id r).0 ≡ ok tt
      → disk.tree target r'
        ≡ disk.tree target (build_snapshot disk target base sandbox_id source id r).1
      → IsUnlinked disk.follow (or_empty (disk.tree target r')) (or_empty (disk.tree source r'))
      → (restore_dir disk target source r').0 ≡ ok tt
      → (n == snapshot_meta_file_name) ≡ false
      → kind_at (n ∷ p) host ≢ some other
      → IsTrusted disk.follow (kind_at (n ∷ p) host) (at (n ∷ p) (some (dir (cloned base r))))
      → IsTrusted disk.follow
          (kind_at (n ∷ p) host)
          (at (n ∷ p) (some (dir (or_empty (disk.tree source r')))))
      → (es : Entries) × (disk.tree source (restore_dir disk target source r').1 ≡ some es)
        × (kind_at (n ∷ p) es ≡ kind_at (n ∷ p) host)
  restore_dir-build_snapshot target base sandbox_id source id host r r' n p fresh e u ne ne' nb
        apart built kept apart' restored nm ns ht hl =
      let (f, done, there) =
        build_snapshot-ok target base sandbox_id source id host r fresh e ne nb built in
      let snap = with_meta f (sync_tree disk.follow host (cloned base r)).1 in
      let later = or_empty (disk.tree source r') in
      let (done', there') = restore_dir-ok target source snap r' (kept ∙ there) ne' restored in
      (
        (sync_tree disk.follow snap later).1,
        there',
        sync_tree-sync_tree disk.follow host (cloned base r) later f n p u (cloned-IsOrdered base r)
            apart done
            (subst (λ t. IsUnlinked disk.follow (or_empty t) later) (kept ∙ there) apart') done' nm
            ns ht hl,
      )
