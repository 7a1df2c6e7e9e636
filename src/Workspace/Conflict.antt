-- ===== src/Workspace/Conflict.antt =====
-- syncTree of internal/sandbox/workspace_snapshot.go ends with an error where the source has a
-- directory and the destination has something else, other than a link to a directory.
use sleigh.Prelude.{
  Text, Bool, false, Option, none, some, [], ◌∷◌, ◌==◌, ◌≡◌, refl, ap, inl, inr, Option-cases,
}
use sleigh.Errors.{ok}
use sleigh.Workspace.Tree.{
  File, Node, file, link, special, dir, Entries, lookup, TreePath, at, directory, kind, kind_at,
  HasDistinctNames, NodeHasDistinctNames,
}
use sleigh.Workspace.Lookup.{
  at-none, lookup-erase_ne, erase-HasDistinctNames, lookup-HasDistinctNames,
}
use sleigh.Workspace.Sync.{
  into, Target, visit, sync_entries, mkdir_all, is_up_to_date, sync_tree, without_meta,
  snapshot_meta_file_name,
}
use sleigh.Workspace.Walk.{
  AreUnlinked, mkdir_all-child, mkdir_through-eq-ok, visit-dir, sync_entries-lookup,
}
use sleigh.Workspace.Mirror.{IsUnlinked, walk_ok}
use sleigh.Workspace.Success.{IsFree}

module _ (follow : Text → Target) (skip : File → Option Node → Bool) where
  mkdir_all-eq-ok :
      (old : Option Node) (ds : Entries) → mkdir_all follow old ≡ ok (into ds) → IsFree (kind old)
  mkdir_all-eq-ok none ds h = inl refl
  mkdir_all-eq-ok (some (dir es)) ds h = inr refl
  mkdir_all-eq-ok (some (file f)) ds h = cc
  mkdir_all-eq-ok (some special) ds h = cc
  mkdir_all-eq-ok (some (link t)) ds h = absurd (mkdir_through-eq-ok (follow t) ds h)

  -- The claim for one path, of any node.
  abbrev FreeAt : TreePath → Type 0
  FreeAt p =
      (x : Node) (old new : Option Node)
      → NodeHasDistinctNames x
      → AreUnlinked follow skip (some x) old
      → visit follow skip x old ≡ (ok tt, new)
      → kind (at p (some x)) ≡ some directory
      → IsFree (kind (at p old))

  below-IsFree :
      (n : Text) (p : TreePath) (es ds : Entries)
      → FreeAt p
      → HasDistinctNames es
      → AreUnlinked follow skip (lookup n es) (lookup n ds)
      → (sync_entries follow skip es ds).0 ≡ ok tt
      → kind (at p (lookup n es)) ≡ some directory
      → IsFree (kind (at p (lookup n ds)))
  below-IsFree n p es ds k u l h d = elim (Option-cases (lookup n es)) [
    | inl e ↦ cc (ap (λ y. at p y) e, at-none p, d)
    | inr (y, e) ↦
        k y _ _ (rw e at (lookup-HasDistinctNames n es u)) (rw e at l)
          (sync_entries-lookup follow skip n es ds y u e h) (rw e at d)
  ]

  visit-IsFree : (p : TreePath) → FreeAt p
  unfolding at
  visit-IsFree [] (dir es) old new u l h d =
      let (ds, made, _, _) = visit-dir follow skip es old new (l [] refl) h in
      mkdir_all-eq-ok old ds made
  visit-IsFree [] (file f) old new u l h d = cc
  visit-IsFree [] (link t) old new u l h d = cc
  visit-IsFree [] special old new u l h d = cc
  visit-IsFree (n ∷ p) (dir es) old new u l h d =
      let (ds, made, walked, _) = visit-dir follow skip es old new (l [] refl) h in
      let same = mkdir_all-child follow skip n old ds made in
      rw (← same)
        (below-IsFree n p es ds (visit-IsFree p) u (λ q e. rw same (l (n ∷ q) e)) walked d)
  visit-IsFree (n ∷ p) (file f) old new u l h d = cc (at-none p, d)
  visit-IsFree (n ∷ p) (link t) old new u l h d = cc (at-none p, d)
  visit-IsFree (n ∷ p) special old new u l h d = cc (at-none p, d)

-- With distinct names in the source, and no link to a directory in the destination where the source
-- has a directory, whenever syncTree ends with no error the destination had a directory or nothing
-- at each path but the metadata where the source has a directory.
pub sync_tree-IsFree :
    (follow : Text → Target) (src dst : Entries) (n : Text) (p : TreePath)
    → HasDistinctNames src
    → IsUnlinked follow src dst
    → (sync_tree follow src dst).0 ≡ ok tt
    → (n == snapshot_meta_file_name) ≡ false
    → kind_at (n ∷ p) src ≡ some directory
    → IsFree (kind_at (n ∷ p) dst)
unfolding at
sync_tree-IsFree follow src dst n p u l h ne d =
    below-IsFree follow (is_up_to_date follow) n p (without_meta src) dst
      (visit-IsFree follow (is_up_to_date follow) p)
      (erase-HasDistinctNames snapshot_meta_file_name src u)
      (λ q e. l n q ne (rw (lookup-erase_ne n snapshot_meta_file_name src ne) at e))
      (walk_ok follow src dst h) (rw (lookup-erase_ne n snapshot_meta_file_name src ne) d)
