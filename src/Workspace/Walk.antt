-- ===== src/Workspace/Walk.antt =====
-- The first walk of syncTree and that of cloneSnapshotBase: what they leave at each path.
use sleigh.Prelude.{
  Text, Bool, true, false, Option, none, some, [], ◌∷◌, ◌==◌, ◌≡◌, refl, sym, ◌∙◌, ap, ◌⊎◌, inl,
  inr, arith, Bool-cases, Option-cases, text_eq→,
}
use sleigh.Errors.{Result, ok, err}
use sleigh.Action.{Action, continue}
use sleigh.Workspace.Tree.{
  File, Node, file, link, special, dir, Entries, end, entry, TreePath, lookup, put, at, child, Kind,
  directory, other, symlink, regular, kind, kind_at, HasDistinctNames, NodeHasDistinctNames,
}
use sleigh.Workspace.Lookup.{
  lookup-put_ne, lookup-put_self, some-ne-none, some-injective, at-none, lookup-HasDistinctNames,
}
use sleigh.Workspace.Sync.{
  is_linked, leads_to_directory, into, Target, a_file, a_directory, nothing, another, mkdir_through,
  visit, sync_entries, zoom, mkdir_all, enter,
}

pub continue-ok :
    {S : Type 0} (r : Result (Unit {0})) (f : Unit {0} → Action S (Unit {0})) (s : S)
    → (continue r f s).0 ≡ ok tt
    → (r ≡ ok tt) × (continue r f s ≡ f tt s)
continue-ok (ok u) f s h = (refl, refl)
continue-ok (err e) f s h = cc

pub mkdir_through-eq-ok : (t : Target) (ds : Entries) → mkdir_through t ≡ ok (into ds) → ⊥
mkdir_through-eq-ok (a_directory below) ds h = cc
mkdir_through-eq-ok (a_file f) ds h = cc
mkdir_through-eq-ok nothing ds h = cc
mkdir_through-eq-ok another ds h = cc

enter-mkdir_through :
    (t : Target) (es : Entries) (m : Action Entries (Unit {0})) (old new : Option Node)
    → leads_to_directory t ≡ false
    → enter es (mkdir_through t) m old ≡ (ok tt, new)
    → ⊥
enter-mkdir_through (a_directory below) es m old new l h = cc
enter-mkdir_through (a_file f) es m old new l h = cc
enter-mkdir_through nothing es m old new l h = cc
enter-mkdir_through another es m old new l h = cc

module _ (follow : Text → Target) (skip : File → Option Node → Bool) where
  -- A walk with no error has visited the first entry, and then the others.
  sync_entries-entry :
      (n : Text) (x : Node) (es ds : Entries)
      → (sync_entries follow skip (entry n x es) ds).0 ≡ ok tt
      → ((visit follow skip x (lookup n ds)).0 ≡ ok tt)
        × (sync_entries follow skip (entry n x es) ds
            ≡ sync_entries follow skip es (put n (visit follow skip x (lookup n ds)).1 ds))
  unfolding sync_entries zoom
  sync_entries-entry n x es ds h = continue-ok _ _ _ h

  sync_entries-lookup-none :
      (k : Text) (es ds : Entries)
      → lookup k es ≡ none
      → (sync_entries follow skip es ds).0 ≡ ok tt
      → lookup k (sync_entries follow skip es ds).1 ≡ lookup k ds
  unfolding lookup
  sync_entries-lookup-none k end ds h e = unfold sync_entries in refl
  sync_entries-lookup-none k (entry n x es) ds h e = elim (Bool-cases (k == n)) [
    | inl same ↦ absurd (some-ne-none (rw same at h))
    | inr new ↦
        let (_, step) = sync_entries-entry n x es ds e in
        rw step (
          sync_entries-lookup-none k es _ (rw new at h) (sym (ap (λ a. a.0) step) ∙ e)
          ∙ lookup-put_ne k n _ ds new)
  ]

  sync_entries-lookup_first :
      (n : Text) (x : Node) (es ds : Entries)
      → lookup n es ≡ none
      → (sync_entries follow skip (entry n x es) ds).0 ≡ ok tt
      → visit follow skip x (lookup n ds)
        ≡ (ok tt, lookup n (sync_entries follow skip (entry n x es) ds).1)
  sync_entries-lookup_first n x es ds fresh e =
      let (v, step) = sync_entries-entry n x es ds e in
      let kept =
        sync_entries-lookup-none n es _ fresh (sym (ap (λ a. a.0) step) ∙ e)
        ∙ lookup-put_self n _ ds in
      rw (step, kept) (ap (λ r. (r, (visit follow skip x (lookup n ds)).1)) v)

  -- What the walk does at a name is what it does for the entry of that name.
  pub sync_entries-lookup :
      (k : Text) (es ds : Entries) (y : Node)
      → HasDistinctNames es
      → lookup k es ≡ some y
      → (sync_entries follow skip es ds).0 ≡ ok tt
      → (visit follow skip y (lookup k ds) ≡ (ok tt, lookup k (sync_entries follow skip es ds).1))
  unfolding lookup
  sync_entries-lookup k end ds y u h e = cc
  sync_entries-lookup k (entry n x es) ds y (fresh, ux, u) h e = elim (Bool-cases (k == n)) [
    | inl same ↦ cc (
      sync_entries-lookup_first n x es ds fresh e,
      text_eq→ k n same,
      some-injective (rw same at h),
    )
    | inr new ↦
        let (_, step) = sync_entries-entry n x es ds e in
        rw step (
          rw (lookup-put_ne k n _ ds new) at (
            sync_entries-lookup k es (put n (visit follow skip x (lookup n ds)).1 ds) y u
              (rw new at h) (sym (ap (λ a. a.0) step) ∙ e)))
  ]

  -- What a path of the destination is after the walk, by what it is in the source and was before.
  abbrev pub Copied : Option Kind → Option Node → Option Node → Type 0
  Copied none old new = Unit
  Copied (some directory) old new = kind new ≡ some directory
  Copied (some (symlink t)) old new = kind new ≡ some (symlink t)
  Copied (some (regular f)) old new =
      (kind new ≡ some (regular f)) ⊎ ((kind new ≡ kind old) × (skip f old ≡ true))
  Copied (some other) old new = Unit

  -- No link to a directory stands where the source has a directory.
  abbrev pub AreUnlinked : Option Node → Option Node → Type 0
  AreUnlinked x old =
      (p : TreePath) → kind (at p x) ≡ some directory → is_linked follow (at p old) ≡ false

  pub mkdir_all-child :
      (n : Text) (old : Option Node) (ds : Entries)
      → mkdir_all follow old ≡ ok (into ds)
      → lookup n ds ≡ child n old
  unfolding lookup
  mkdir_all-child n none ds h = ground arith
  mkdir_all-child n (some (dir es)) ds h = ground arith
  mkdir_all-child n (some (file f)) ds h = cc
  mkdir_all-child n (some special) ds h = cc
  mkdir_all-child n (some (link t)) ds h = absurd (mkdir_through-eq-ok (follow t) ds h)

  -- A directory is made where there is none, and entered.
  pub visit-dir :
      (es : Entries) (old new : Option Node)
      → is_linked follow old ≡ false
      → visit follow skip (dir es) old ≡ (ok tt, new)
      → (ds : Entries) × (mkdir_all follow old ≡ ok (into ds))
        × ((sync_entries follow skip es ds).0 ≡ ok tt)
        × (new ≡ some (dir (sync_entries follow skip es ds).1))
  unfolding visit
  visit-dir es none new l h = (end, refl, ap (λ a. a.0) h, sym (ap (λ a. a.1) h))
  visit-dir es (some (dir ds)) new l h = (ds, refl, ap (λ a. a.0) h, sym (ap (λ a. a.1) h))
  visit-dir es (some (file f)) new l h = cc
  visit-dir es (some special) new l h = cc
  visit-dir es (some (link t)) new l h =
      absurd (enter-mkdir_through (follow t) es (sync_entries follow skip es) _ new l h)

  Copied-here :
      (x : Node) (old new : Option Node)
      → AreUnlinked (some x) old
      → visit follow skip x old ≡ (ok tt, new)
      → Copied (kind (some x)) old new
  unfolding visit at
  Copied-here (dir es) old new l h =
      let (ds, _, _, e) = visit-dir es old new (l [] refl) h in rw e refl
  Copied-here (link t) old new l h = rw (← ap (λ a. a.1) h) refl
  Copied-here special old new l h = tt
  Copied-here (file f) old new l h = ground arith

  -- The claim for one path, of any node.
  abbrev CopiedAt : TreePath → Type 0
  CopiedAt p =
      (x : Node) (old new : Option Node)
      → NodeHasDistinctNames x
      → AreUnlinked (some x) old
      → visit follow skip x old ≡ (ok tt, new)
      → Copied (kind (at p (some x))) (at p old) (at p new)

  below-Copied :
      (n : Text) (p : TreePath) (es ds : Entries)
      → CopiedAt p
      → HasDistinctNames es
      → AreUnlinked (lookup n es) (lookup n ds)
      → (sync_entries follow skip es ds).0 ≡ ok tt
      → Copied
          (kind (at p (lookup n es)))
          (at p (lookup n ds))
          (at p (lookup n (sync_entries follow skip es ds).1))
  below-Copied n p es ds k u l h = elim (Option-cases (lookup n es)) [
    | inl e ↦ rw (e, at-none p) tt
    | inr (y, e) ↦ rw e (
        k y _ _ (rw e at (lookup-HasDistinctNames n es u)) (rw e at l)
          (sync_entries-lookup n es ds y u e h))
  ]

  visit-Copied : (p : TreePath) → CopiedAt p
  unfolding at
  visit-Copied [] x old new u l h = Copied-here x old new l h
  visit-Copied (n ∷ p) (dir es) old new u l h =
      let (ds, made, walked, e) = visit-dir es old new (l [] refl) h in
      let same = mkdir_all-child n old ds made in
      rw (e, ← same)
        (below-Copied n p es ds (visit-Copied p) u (λ q d. rw same (l (n ∷ q) d)) walked)
  visit-Copied (n ∷ p) _ old new u l h = rw (at-none p) tt

  -- After a walk with no error each path of the source is in the destination.
  pub sync_entries-Copied :
      (n : Text) (p : TreePath) (es ds : Entries)
      → HasDistinctNames es
      → AreUnlinked (lookup n es) (lookup n ds)
      → (sync_entries follow skip es ds).0 ≡ ok tt
      → Copied
          (kind_at (n ∷ p) es)
          (at (n ∷ p) (some (dir ds)))
          (at (n ∷ p) (some (dir (sync_entries follow skip es ds).1)))
  unfolding at
  sync_entries-Copied n p es ds u l h = below-Copied n p es ds (visit-Copied p) u l h
