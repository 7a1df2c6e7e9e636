-- ===== src/Workspace/Sync.antt =====
-- internal/sandbox/workspace_snapshot.go: syncTree and cloneSnapshotBase.
use sleigh.Prelude.{
  Text, Bool, true, false, ◌&&◌, ◌||◌, Option, none, some, [], ◌∷◌, ◌==◌, codes, length, eqb,
  if◌then◌else◌,
}
use sleigh.Errors.{Result, ok, err, failure}
use sleigh.Action.{Action, continue}
use sleigh.Workspace.Tree.{
  File, Node, file, link, special, dir, Entries, end, entry, TreePath, lookup, insert, erase, put,
  at,
}

-- snapshotMetaFileName
abbrev pub snapshot_meta_file_name : Text
snapshot_meta_file_name = codes ".hwr_snapshot_meta"

-- os.Stat: what a name leads to, through symbolic links. A directory comes with what the calls of the
-- walk that go on in it answer, for what the source has below: it lies outside the trees of the model.
pub data Target : Type 0 where
  a_file : File → Target
  a_directory : (Entries → Result (Unit {0})) → Target
  nothing another : Target

-- Where a walk goes on after os.MkdirAll: in a directory of the tree, or beyond a link.
pub data Place : Type 0 where
  into : Entries → Place
  beyond : (Entries → Result (Unit {0})) → Place

-- An action on what is at one name of a directory.
unfoldable pub zoom : Text → Action (Option Node) (Unit {0}) → Action Entries (Unit {0})
unfolding lookup insert erase
zoom n m es = let (r, x) = m (lookup n es) in (r, put n x es)

-- Goes on with the entries `es` of a directory of the source; `m` does so in a directory of the tree.
abbrev pub enter :
    Entries → Result Place → Action Entries (Unit {0}) → Action (Option Node) (Unit {0})
enter es (err e) m cur = (err e, cur)
enter es (ok (into ds)) m cur = let (r, ds') = m ds in (r, some (dir ds'))
enter es (ok (beyond below)) m cur = (below es, cur)

-- Same size, same time of modification.
abbrev pub same_stat : File → File → Bool
same_stat f g = eqb (length g.content) (length f.content) && eqb g.mod_time f.mod_time

abbrev pub leads_to_directory : Target → Bool
leads_to_directory (a_directory below) = true
leads_to_directory _ = false

abbrev pub mkdir_through : Target → Result Place
mkdir_through (a_directory below) = ok (beyond below)
mkdir_through _ = err (failure (codes "mkdir: file exists"))

abbrev pub same_target : File → Target → Bool
same_target f (a_file g) = same_stat f g
same_target f _ = false

module _ (follow : Text → Target) where
  -- os.MkdirAll, where the parent is there: it makes the directory, or accepts one that is there, also
  -- one to which a link leads.
  abbrev pub mkdir_all : Option Node → Result Place
  mkdir_all none = ok (into end)
  mkdir_all (some (dir es)) = ok (into es)
  mkdir_all (some (link t)) = mkdir_through (follow t)
  mkdir_all (some _) = err (failure (codes "mkdir: not a directory"))

  -- A link that leads to a directory.
  abbrev pub is_linked : Option Node → Bool
  is_linked (some (link t)) = leads_to_directory (follow t)
  is_linked _ = false

  -- os.Stat of the destination shows a regular file of the same size and time.
  abbrev pub is_up_to_date : File → Option Node → Bool
  is_up_to_date f (some (file g)) = same_stat f g
  is_up_to_date f (some (link t)) = same_target f (follow t)
  is_up_to_date f _ = false

-- The walks of syncTree and cloneSnapshotBase differ in `skip` alone: the former leaves a regular file
-- that is up to date, the latter none. A file that is linked is a file that is copied, since nothing
-- writes to a file in place.
module _ (follow : Text → Target) (skip : File → Option Node → Bool) where
  unfoldable mutual
    -- What the walk does for one path of the source, and below it.
    pub visit : Node → Action (Option Node) (Unit {0})
    visit (dir es) cur = enter es (mkdir_all follow cur) (sync_entries es) cur
    visit (link t) cur = (ok tt, some (link t))
    visit special cur = (ok tt, cur)
    visit (file f) cur = (ok tt, if skip f cur then cur else some (file f))

    pub sync_entries : Entries → Action Entries (Unit {0})
    sync_entries end ds = (ok tt, ds)
    sync_entries (entry n x es) ds =
        let (r, ds') = zoom n (visit x) ds in continue r (λ _. sync_entries es) ds'

-- os.Remove: a directory must be empty.
abbrev pub os_remove : Text → Node → Action Entries (Unit {0})
os_remove n (dir (entry m y more)) es =
    (err (failure (codes "remove: directory not empty")), entry n (dir (entry m y more)) es)
os_remove n x es = (ok tt, es)

abbrev remove_if_stale : Bool → Text → Result (Unit {0}) → Node → Action Entries (Unit {0})
remove_if_stale seen n (err e) x es = (err e, entry n x es)
remove_if_stale true n (ok u) x es = (ok tt, entry n x es)
remove_if_stale false n (ok u) x es = os_remove n x es

abbrev after_later :
    Result (Unit {0}) → Bool → Text → Node → Result (Unit {0}) × Node → Action Entries (Unit {0})
after_later (err e) seen n x below es = (err e, entry n x es)
after_later (ok u) seen n x (r, x') es = remove_if_stale seen n r x' es

-- The second walk of syncTree and the loop over the stale paths, from the last to the first: what lies
-- in a directory goes before it.
unfoldable mutual
  pub remove_stale : (TreePath → Bool) → Action Entries (Unit {0})
  remove_stale seen end = (ok tt, end)
  remove_stale seen (entry n x es) =
      let (r, es') = remove_stale seen es in
      after_later r (seen (n ∷ [])) n x (remove_below (λ p. seen (n ∷ p)) x) es'

  pub remove_below : (TreePath → Bool) → Node → Result (Unit {0}) × Node
  remove_below seen (dir es) = let (r, es') = remove_stale seen es in (r, dir es')
  remove_below seen x = (ok tt, x)

-- The walks pass over the metadata at the root. It is a file, so there is nothing below it.
abbrev pub without_meta : Entries → Entries
without_meta es = erase snapshot_meta_file_name es

abbrev pub is_there : Option Node → Bool
is_there none = false
is_there (some x) = true

abbrev pub is_meta : TreePath → Bool
is_meta (n ∷ []) = n == snapshot_meta_file_name
is_meta _ = false

-- The path was `seen` in the source, or is passed over.
abbrev pub is_kept : Entries → TreePath → Bool
is_kept src p = is_meta p || is_there (at p (some (dir (without_meta src))))

module _ (follow : Text → Target) where
  -- The first walk.
  abbrev pub copy_over : Entries → Action Entries (Unit {0})
  copy_over src = sync_entries follow (is_up_to_date follow) (without_meta src)

  unfoldable pub sync_tree : Entries → Action Entries (Unit {0})
  unfolding sync_entries remove_stale erase at
  sync_tree src dst =
      let (r, dst') = copy_over src dst in continue r (λ _. remove_stale (is_kept src)) dst'

  -- The base is `none` where there is none.
  unfoldable pub clone_snapshot_base : Option Entries → Action Entries (Unit {0})
  unfolding sync_entries erase
  clone_snapshot_base none target = (ok tt, target)
  clone_snapshot_base (some base) target =
      sync_entries follow (λ f cur. false) (without_meta base) target
