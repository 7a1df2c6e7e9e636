-- ===== src/Workspace/Mirror.antt =====
-- What syncTree of internal/sandbox/workspace_snapshot.go leaves in the destination.
use sleigh.Prelude.{
  Text, true, false, Option, none, some, [], ◌∷◌, ◌++◌, ◌==◌, if◌then◌else◌, ◌≡◌, refl, ◌∙◌, ap,
  ◌⊎◌, inl, inr, arith, Option-cases,
}
use sleigh.Errors.{ok}
use sleigh.Workspace.Tree.{
  Node, file, link, special, dir, lookup, Entries, TreePath, at, Kind, directory, other, symlink,
  regular, kind, kind_at, HasDistinctNames,
}
use sleigh.Workspace.Lookup.{at-none, at-append, lookup-erase_ne, erase-HasDistinctNames}
use sleigh.Workspace.Sync.{
  is_linked, Target, copy_over, remove_stale, sync_tree, is_up_to_date, is_kept, is_there,
  without_meta, snapshot_meta_file_name,
}
use sleigh.Workspace.Walk.{Copied, sync_entries-Copied, continue-ok}
use sleigh.Workspace.Stale.{IsClosed, remove_stale_lem}

is_there-at-append :
    (p q : TreePath) (x : Option Node) → is_there (at (p ++ q) x) ≡ true → is_there (at p x) ≡ true
is_there-at-append p q x h = elim (Option-cases (at p x)) [
  | inl e ↦ cc (at-append p q x, ap (λ y. at q y) e, at-none q, h)
  | inr (y, e) ↦ rw e refl
]

pub is_kept-IsClosed : (src : Entries) → IsClosed (is_kept src)
unfolding at
is_kept-IsClosed src [] q h = refl
is_kept-IsClosed src (n ∷ []) [] h = h
is_kept-IsClosed src (n ∷ m ∷ p) [] h =
    ground (arith, is_there-at-append (n ∷ m ∷ p) [] (some (dir (without_meta src))))
is_kept-IsClosed src (n ∷ []) (k ∷ q) h =
    ground (arith, is_there-at-append (n ∷ []) (k ∷ q) (some (dir (without_meta src))))
is_kept-IsClosed src (n ∷ m ∷ p) (k ∷ q) h =
    ground (arith, is_there-at-append (n ∷ m ∷ p) (k ∷ q) (some (dir (without_meta src))))

module _ (follow : Text → Target) where
  -- What a path of the destination is after syncTree, by what it is in the source and was before.
  abbrev pub Mirrors : Option Kind → Option Node → Option Kind → Type 0
  Mirrors none old new = new ≡ none
  Mirrors (some directory) old new = new ≡ some directory
  Mirrors (some (symlink t)) old new = new ≡ some (symlink t)
  Mirrors (some (regular f)) old new =
      (new ≡ some (regular f)) ⊎ ((new ≡ kind old) × (is_up_to_date follow f old ≡ true))
  Mirrors (some other) old new = Unit

  Copied-Mirrors :
      (x : Option Node) (old mid : Option Node) (new : Option Kind)
      → Copied follow (is_up_to_date follow) (kind x) old mid
      → new ≡ (if is_there x then kind mid else none)
      → Mirrors (kind x) old new
  Copied-Mirrors none old mid new c e = e
  Copied-Mirrors (some (dir es)) old mid new c e = e ∙ c
  Copied-Mirrors (some (link t)) old mid new c e = e ∙ c
  Copied-Mirrors (some special) old mid new c e = tt
  Copied-Mirrors (some (file f)) old mid new (inl a) e = inl (e ∙ a)
  Copied-Mirrors (some (file f)) old mid new (inr (a, b)) e = inr (e ∙ a, b)

  is_kept-ne :
      (src : Entries) (n : Text) (p : TreePath)
      → (n == snapshot_meta_file_name) ≡ false
      → is_kept src (n ∷ p) ≡ is_there (at (n ∷ p) (some (dir src)))
  unfolding at
  is_kept-ne src n [] ne = rw (ne, lookup-erase_ne n snapshot_meta_file_name src ne) refl
  is_kept-ne src n (m ∷ p) ne = rw (lookup-erase_ne n snapshot_meta_file_name src ne) refl

  -- The two walks of a run with no error, one after the other.
  sync_tree-kind_at :
      (src dst : Entries) (n : Text) (p : TreePath)
      → (sync_tree follow src dst).0 ≡ ok tt
      → kind_at (n ∷ p) (sync_tree follow src dst).1
        ≡ (if is_kept src (n ∷ p) then kind_at (n ∷ p) (copy_over follow src dst).1 else none)
  unfolding sync_tree
  sync_tree-kind_at src dst n p h =
      let (_, step) =
        continue-ok (copy_over follow src dst).0 (λ _. remove_stale (is_kept src))
          (copy_over follow src dst).1 h in
      let (ds, e, kinds) =
        remove_stale_lem (is_kept src) (copy_over follow src dst).1 (is_kept-IsClosed src) in
      rw (step, e) (kinds n p)

  pub walk_ok :
      (src dst : Entries)
      → (sync_tree follow src dst).0 ≡ ok tt
      → (copy_over follow src dst).0 ≡ ok tt
  unfolding sync_tree
  walk_ok src dst h = (continue-ok _ _ _ h).0

  -- No directory of the source meets a link to a directory in the destination, but at the metadata.
  abbrev pub IsUnlinked : Entries → Entries → Type 0
  IsUnlinked src dst =
      (n : Text) (p : TreePath)
      → (n == snapshot_meta_file_name) ≡ false
      → kind_at (n ∷ p) src ≡ some directory
      → is_linked follow (at (n ∷ p) (some (dir dst))) ≡ false

  -- With distinct names in the source, and no link to a directory in the destination where the
  -- source has a directory, after a syncTree with no error each path of the destination but the
  -- metadata is nothing where the source has nothing, a directory or the same link where it has one,
  -- and where it has a regular file that file, or what it was before if that looked up to date.
  pub sync_tree-Mirrors :
      (src dst : Entries) (n : Text) (p : TreePath)
      → HasDistinctNames src
      → IsUnlinked src dst
      → (sync_tree follow src dst).0 ≡ ok tt
      → (n == snapshot_meta_file_name) ≡ false
      → Mirrors
          (kind_at (n ∷ p) src)
          (at (n ∷ p) (some (dir dst)))
          (kind_at (n ∷ p) (sync_tree follow src dst).1)
  unfolding at
  sync_tree-Mirrors src dst n p u l h ne =
      Copied-Mirrors (at p (lookup n src)) _ (at (n ∷ p) (some (dir (copy_over follow src dst).1)))
        _
        (rw (lookup-erase_ne n snapshot_meta_file_name src ne) at (
          sync_entries-Copied follow (is_up_to_date follow) n p (without_meta src) dst
            (erase-HasDistinctNames snapshot_meta_file_name src u)
            (λ q d. l n q ne (rw (lookup-erase_ne n snapshot_meta_file_name src ne) at d))
            (walk_ok src dst h)))
        (rw (is_kept-ne src n p ne) at (sync_tree-kind_at src dst n p h))
