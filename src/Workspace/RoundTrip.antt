-- ===== src/Workspace/RoundTrip.antt =====
-- A workspace that is copied to a snapshot and back by syncTree of
-- internal/sandbox/workspace_snapshot.go.
use sleigh.Prelude.{
  Text, true, false, Option, none, some, ◌∷◌, ◌==◌, ◌≡◌, ◌≢◌, refl, sym, ◌∙◌, inl, inr,
}
use sleigh.Errors.{ok}
use sleigh.Workspace.Tree.{
  File, Node, file, dir, Entries, insert, TreePath, at, Kind, directory, other, symlink, regular,
  kind, kind_at,
}
use sleigh.Workspace.Lookup.{lookup-put_ne}
use sleigh.Workspace.Sync.{Target, is_up_to_date, sync_tree, snapshot_meta_file_name}
use sleigh.Workspace.Mirror.{IsUnlinked, Mirrors, sync_tree-Mirrors}
use sleigh.Workspace.Ordered.{
  IsOrdered, IsOrdered-HasDistinctNames, insert-IsOrdered, sync_tree-IsOrdered,
}

-- The tree of a snapshot: the workspace's files, and the metadata.
abbrev pub with_meta : File → Entries → Entries
with_meta f es = insert snapshot_meta_file_name (file f) es

kind_at-with_meta :
    (f : File) (es : Entries) (n : Text) (p : TreePath)
    → (n == snapshot_meta_file_name) ≡ false
    → kind_at (n ∷ p) (with_meta f es) ≡ kind_at (n ∷ p) es
unfolding at
kind_at-with_meta f es n p ne =
    rw (lookup-put_ne n snapshot_meta_file_name (some (file f)) es ne) refl

module _ (follow : Text → Target) where
  -- A file that looks up to date is the same file.
  abbrev pub IsTrusted : Option Kind → Option Node → Type 0
  IsTrusted k old =
      (f : File)
      → k ≡ some (regular f)
      → is_up_to_date follow f old ≡ true
      → kind old ≡ some (regular f)

  Mirrors-eq :
      (k : Option Kind) (old : Option Node) (new : Option Kind)
      → Mirrors follow k old new
      → k ≢ some other
      → IsTrusted k old
      → new ≡ k
  Mirrors-eq none old new m h t = m
  Mirrors-eq (some directory) old new m h t = m
  Mirrors-eq (some (symlink l)) old new m h t = m
  Mirrors-eq (some (regular f)) old new (inl m) h t = m
  Mirrors-eq (some (regular f)) old new (inr (same, fresh)) h t = same ∙ t f refl fresh
  Mirrors-eq (some other) old new m h t = absurd (h refl)

  -- At a path that is no special file and is not the metadata, syncTree makes the destination what the
  -- source is.
  pub sync_tree-kind_at_eq :
      (src dst : Entries) (n : Text) (p : TreePath)
      → IsOrdered src
      → IsUnlinked follow src dst
      → (sync_tree follow src dst).0 ≡ ok tt
      → (n == snapshot_meta_file_name) ≡ false
      → kind_at (n ∷ p) src ≢ some other
      → IsTrusted (kind_at (n ∷ p) src) (at (n ∷ p) (some (dir dst)))
      → kind_at (n ∷ p) (sync_tree follow src dst).1 ≡ kind_at (n ∷ p) src
  sync_tree-kind_at_eq src dst n p u l h ne hs ht =
      Mirrors-eq _ _ _
        (sync_tree-Mirrors follow src dst n p (IsOrdered-HasDistinctNames src u) l h ne) hs ht

  pub sync_tree-sync_tree :
      (host base later : Entries) (f : File) (n : Text) (p : TreePath)
      → IsOrdered host
      → IsOrdered base
      → IsUnlinked follow host base
      → (sync_tree follow host base).0 ≡ ok tt
      → let taken = with_meta f (sync_tree follow host base).1 in
        IsUnlinked follow taken later
        → (sync_tree follow taken later).0 ≡ ok tt
        → (n == snapshot_meta_file_name) ≡ false
        → kind_at (n ∷ p) host ≢ some other
        → IsTrusted (kind_at (n ∷ p) host) (at (n ∷ p) (some (dir base)))
        → IsTrusted (kind_at (n ∷ p) host) (at (n ∷ p) (some (dir later)))
        → kind_at (n ∷ p) (sync_tree follow taken later).1 ≡ kind_at (n ∷ p) host
  sync_tree-sync_tree host base later f n p u v l h l' k ne hs ht hl =
      let snap = (sync_tree follow host base).1 in
      let same =
        kind_at-with_meta f snap n p ne ∙ sync_tree-kind_at_eq host base n p u l h ne hs ht in
      sync_tree-kind_at_eq (with_meta f snap) later n p
        (insert-IsOrdered snapshot_meta_file_name (file f) snap tt
          (sync_tree-IsOrdered follow host base v))
        l' k ne (λ e. hs (sym same ∙ e)) (λ g e. hl g (sym same ∙ e))
      ∙ same
