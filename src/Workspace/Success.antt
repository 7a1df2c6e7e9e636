-- ===== src/Workspace/Success.antt =====
-- When syncTree of internal/sandbox/workspace_snapshot.go ends with no error.
use sleigh.Prelude.{
  Text, Bool, false, Option, none, some, [], ◌∷◌, ◌==◌, ◌≡◌, refl, sym, ◌∙◌, ap, ◌⊎◌, inl, inr,
  Bool-cases, text_eq_refl, text_eq→,
}
use sleigh.Errors.{ok}
use sleigh.Action.{Action, continue}
use sleigh.Workspace.Tree.{
  File, Node, file, link, special, dir, Entries, end, entry, lookup, put, TreePath, at, Kind,
  directory, kind, kind_at, HasDistinctNames, NodeHasDistinctNames,
}
use sleigh.Workspace.Lookup.{
  at-none, lookup-put_ne, lookup-erase_ne, lookup-erase_self, erase-HasDistinctNames,
}
use sleigh.Workspace.Sync.{
  into, Target, is_up_to_date, visit, sync_entries, zoom, mkdir_all, sync_tree, copy_over, is_kept,
  without_meta, snapshot_meta_file_name,
}
use sleigh.Workspace.Walk.{mkdir_all-child}
use sleigh.Workspace.Stale.{remove_stale_lem}
use sleigh.Workspace.Mirror.{is_kept-IsClosed}

-- A directory can be made or is there.
abbrev pub IsFree : Option Kind → Type 0
IsFree k = (k ≡ none) ⊎ (k ≡ some directory)

none_not_directory : none ≡ some directory → ⊥
none_not_directory h = cc

module _ (follow : Text → Target) (skip : File → Option Node → Bool) where
  -- Where the source has a directory, the destination has one or nothing.
  abbrev Fits : Option Node → Option Node → Type 0
  Fits x old = (p : TreePath) → kind (at p x) ≡ some directory → IsFree (kind (at p old))

  mkdir_all-IsFree :
      (old : Option Node)
      → IsFree (kind old)
      → (ds : Entries) × (mkdir_all follow old ≡ ok (into ds))
  mkdir_all-IsFree none h = (end, refl)
  mkdir_all-IsFree (some (dir ds)) h = (ds, refl)
  mkdir_all-IsFree (some (file f)) (inl h) = cc
  mkdir_all-IsFree (some (file f)) (inr h) = cc
  mkdir_all-IsFree (some (link t)) (inl h) = cc
  mkdir_all-IsFree (some (link t)) (inr h) = cc
  mkdir_all-IsFree (some special) (inl h) = cc
  mkdir_all-IsFree (some special) (inr h) = cc

  continue-zoom :
      (n : Text) (m : Action (Option Node) (Unit {0})) (f : Unit {0} → Action Entries (Unit {0}))
      (ds : Entries)
      → (m (lookup n ds)).0 ≡ ok tt
      → continue (zoom n m ds).0 f (zoom n m ds).1 ≡ f tt (put n (m (lookup n ds)).1 ds)
  unfolding zoom
  continue-zoom n m f ds h = rw h refl

  Fits-rest :
      (n : Text) (x : Node) (es ds : Entries) (new : Option Node)
      → lookup n es ≡ none
      → Fits (some (dir (entry n x es))) (some (dir ds))
      → Fits (some (dir es)) (some (dir (put n new ds)))
  unfolding at lookup
  Fits-rest n x es ds new fresh h [] e = inr refl
  Fits-rest n x es ds new fresh h (k ∷ p) e = elim (Bool-cases (k == n)) [
    | inl same ↦ absurd (
        none_not_directory (
          sym (ap kind (at-none p))
          ∙ sym (ap (λ y. kind (at p y)) (ap (λ j. lookup j es) (text_eq→ k n same) ∙ fresh))
          ∙ e))
    | inr new_name ↦ rw (lookup-put_ne k n new ds new_name) (h (k ∷ p) (rw new_name e))
  ]

  entered-Fits :
      (es ds : Entries) (old : Option Node)
      → mkdir_all follow old ≡ ok (into ds)
      → Fits (some (dir es)) old
      → Fits (some (dir es)) (some (dir ds))
  unfolding at
  entered-Fits es ds old e h [] k = inr refl
  entered-Fits es ds old e h (n ∷ p) k = rw (mkdir_all-child follow skip n old ds e) (h (n ∷ p) k)

  mutual
    unfolding visit at lookup

    visit-ok :
        (x : Node) (old : Option Node)
        → NodeHasDistinctNames x
        → Fits (some x) old
        → (visit follow skip x old).0 ≡ ok tt
    visit-ok (dir es) old u h =
        let (ds, e) = mkdir_all-IsFree old (h [] refl) in
        rw e (sync_entries-ok es ds u (entered-Fits es ds old e h))
    visit-ok (file f) old u h = refl
    visit-ok (link t) old u h = refl
    visit-ok special old u h = refl

    sync_entries-ok :
        (es ds : Entries)
        → HasDistinctNames es
        → Fits (some (dir es)) (some (dir ds))
        → (sync_entries follow skip es ds).0 ≡ ok tt
    sync_entries-ok end ds u h = refl
    sync_entries-ok (entry n x es) ds (fresh, ux, u) h =
        let ok_here = visit-ok x (lookup n ds) ux (λ p e. h (n ∷ p) (rw (text_eq_refl n) e)) in
        rw (continue-zoom n (visit follow skip x) (λ _. sync_entries follow skip es) ds ok_here) (
          sync_entries-ok es (put n (visit follow skip x (lookup n ds)).1 ds) u
            (Fits-rest n x es ds _ fresh h))

module _ (follow : Text → Target) where
  fits_meta :
      (src dst : Entries)
      → ((n : Text) (p : TreePath)
          → (n == snapshot_meta_file_name) ≡ false
          → kind_at (n ∷ p) src ≡ some directory
          → IsFree (kind_at (n ∷ p) dst))
      → (p : TreePath) → kind_at p (without_meta src) ≡ some directory
      → IsFree (kind_at p dst)
  unfolding at
  fits_meta src dst h [] e = inr refl
  fits_meta src dst h (n ∷ p) e = elim (Bool-cases (n == snapshot_meta_file_name)) [
    | inl same ↦ absurd (
        none_not_directory (
          sym (ap kind (at-none p))
          ∙ sym (
              ap (λ y. kind (at p y))
                (ap (λ j. lookup j (without_meta src)) (text_eq→ n snapshot_meta_file_name same)
                  ∙ lookup-erase_self snapshot_meta_file_name src))
          ∙ e))
    | inr ne ↦ h n p ne (rw (lookup-erase_ne n snapshot_meta_file_name src ne) at e)
  ]

  -- With distinct names in the source, syncTree ends with no error if the destination has a
  -- directory or nothing wherever the source has a directory, but at the metadata.
  pub sync_tree-ok :
      (src dst : Entries)
      → HasDistinctNames src
      → ((n : Text) (p : TreePath)
          → (n == snapshot_meta_file_name) ≡ false
          → kind_at (n ∷ p) src ≡ some directory
          → IsFree (kind_at (n ∷ p) dst))
      → (sync_tree follow src dst).0 ≡ ok tt
  unfolding sync_tree
  sync_tree-ok src dst u h =
      let walked =
        sync_entries-ok follow (is_up_to_date follow) (without_meta src) dst
          (erase-HasDistinctNames snapshot_meta_file_name src u) (fits_meta src dst h) in
      let (ds, e, _) =
        remove_stale_lem (is_kept src) (copy_over follow src dst).1 (is_kept-IsClosed src) in
      rw walked (rw e refl)
