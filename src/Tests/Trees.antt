-- ===== src/Tests/Trees.antt =====
-- A workspace with a directory, a link and two files, its snapshot, and a later workspace.
use sleigh.Prelude.{
  Text, false, Option, none, some, [], ◌∷◌, ◌==◌, ◌≡◌, refl, inl, codes, if◌then◌else◌, text_lt, ap,
}
use sleigh.Errors.{ok, err, failure}
use sleigh.Workspace.Tree.{
  Node, file, link, special, dir, Entries, end, entry, TreePath, at, directory, kind, kind_at,
  HasDistinctNames,
}
use sleigh.Workspace.Lookup.{at-none}
use sleigh.Workspace.Sync.{
  a_directory, is_linked, Target, nothing, zoom, sync_tree, clone_snapshot_base,
  snapshot_meta_file_name,
}
use sleigh.Workspace.Mirror.{IsUnlinked, Mirrors, sync_tree-Mirrors}
use sleigh.Workspace.Success.{IsFree, sync_tree-ok}
use sleigh.Workspace.Conflict.{sync_tree-IsFree}
use sleigh.Workspace.Ordered.{IsOrdered, IsOrdered-HasDistinctNames}
use sleigh.Service.Snapshots.{
  Disk, build_snapshot, restore_dir, ensure_dir, clone_dir, in_tree, sync_dirs, write_snapshot_meta,
}
use sleigh.Service.Snapshots
use sleigh.Service.Snapshots.Restored.{IsLawful, cloned, restore_dir-build_snapshot}
use sleigh.Service.Snapshots.Recorded.{Recorded, create_snapshot-Recorded}
use sleigh.Tests.Data.{world, calm, policy}

abbrev dangling : Text → Target
dangling t = nothing

abbrev text_file : Text → Node
text_file t = file (record { content = t; mod_time = 7 })

abbrev n1 : Text
n1 = codes "a"

abbrev n2 : Text
n2 = codes "b"

abbrev n3 : Text
n3 = codes "c"

-- a/b, b -> a, c
abbrev work : Entries
work =
    entry n1 (dir (entry n2 (text_file (codes "x")) end))
      (entry n2 (link n1) (entry n3 (text_file (codes "yy")) end))

-- The directory has become a file, and a new file stands beside it.
abbrev changed : Entries
changed = entry n2 (text_file (codes "zzz")) (entry n3 (dir (entry n1 special end)) end)

abbrev clashing : Entries
clashing = entry n1 (text_file (codes "q")) end

work-IsOrdered : IsOrdered work
unfolding text_lt
work-IsOrdered = ((refl, (refl, tt)), (tt, tt, tt), ((refl, tt), tt, (tt, tt, tt)))

test_sync : sync_tree dangling work changed ≡ (ok tt, work)
unfolding sync_tree ◌==◌ zoom text_lt
test_sync = refl

-- A file where the source has a directory.
test_clash : (sync_tree dangling work clashing).0 ≡ err (failure (codes "mkdir: not a directory"))
unfolding sync_tree ◌==◌ zoom text_lt
test_clash = refl

work-HasDistinctNames : HasDistinctNames work
work-HasDistinctNames = IsOrdered-HasDistinctNames work work-IsOrdered

synced : (sync_tree dangling work changed).0 ≡ ok tt
synced = ap (λ a. a.0) test_sync

-- No link of `dangling` leads to a directory.
not_linked : (x : Option Node) → is_linked dangling x ≡ false
not_linked none = refl
not_linked (some (file f)) = refl
not_linked (some (link t)) = refl
not_linked (some special) = refl
not_linked (some (dir es)) = refl

work-IsUnlinked : (dst : Entries) → IsUnlinked dangling work dst
work-IsUnlinked dst n p ne d = not_linked (at (n ∷ p) (some (dir dst)))

-- Where the link leads to a directory, the walk goes on beyond it and the link stays.
abbrev outside : Text → Target
outside t = a_directory (λ es. ok tt)

abbrev linked : Entries
linked = entry n1 (link (codes "/data")) end

test_linked :
    sync_tree outside (entry n1 (dir (entry n2 (text_file (codes "x")) end)) end) linked
    ≡ (ok tt, linked)
unfolding sync_tree ◌==◌ zoom text_lt
test_linked = refl

not_meta : (n1 == snapshot_meta_file_name) ≡ false
unfolding ◌==◌
not_meta = refl

sync_tree-Mirrors_example :
    Mirrors dangling
      (kind_at (n1 ∷ n2 ∷ []) work)
      (at (n1 ∷ n2 ∷ []) (some (dir changed)))
      (kind_at (n1 ∷ n2 ∷ []) (sync_tree dangling work changed).1)
sync_tree-Mirrors_example =
    sync_tree-Mirrors dangling work changed n1 (n2 ∷ []) work-HasDistinctNames
      (work-IsUnlinked changed) synced not_meta

a_directory_there : kind_at (n1 ∷ []) work ≡ some directory
unfolding at ◌==◌
a_directory_there = refl

sync_tree-IsFree_example : IsFree (kind_at (n1 ∷ []) changed)
sync_tree-IsFree_example =
    sync_tree-IsFree dangling work changed n1 [] work-HasDistinctNames (work-IsUnlinked changed)
      synced not_meta a_directory_there

-- The one directory of the workspace can be made.
work_fits :
    (n : Text) (p : TreePath)
    → (n == snapshot_meta_file_name) ≡ false
    → kind_at (n ∷ p) work ≡ some directory
    → IsFree (kind_at (n ∷ p) end)
unfolding at
work_fits n p ne h = inl (ap kind (at-none p))

sync_tree-ok_example : (sync_tree dangling work end).0 ≡ ok tt
sync_tree-ok_example = sync_tree-ok dangling work end work-HasDistinctNames work_fits

-- A host that has directories at some paths.
abbrev Host : Type 0
Host = Text → Option Entries

abbrev host_disk : Disk Host
host_disk = record {
  tree = λ p r. r p;
  set_tree = λ p es r q. if q == p then some es else r q;
  now = λ r. 9;
  clean = λ p. p;
  follow = dangling;
}

host_disk-IsLawful : IsLawful host_disk
host_disk-IsLawful = record { tree-set_tree = λ p q es r. refl }

abbrev host : Host
host p = if p == codes "w" then some work else none

abbrev snapped : Host
snapped = (build_snapshot host_disk (codes "s") [] (codes "box") (codes "w") [] host).1

abbrev later : Host
later p = if p == codes "w" then some changed else snapped p

abbrev b_in_a : TreePath
b_in_a = n1 ∷ n2 ∷ []

built : (build_snapshot host_disk (codes "s") [] (codes "box") (codes "w") [] host).0 ≡ ok tt
unfolding build_snapshot sync_tree ◌==◌ zoom text_lt ensure_dir clone_dir in_tree
    clone_snapshot_base sync_dirs write_snapshot_meta
built = refl

restored : (restore_dir host_disk (codes "s") (codes "w") later).0 ≡ ok tt
unfolding restore_dir build_snapshot sync_tree ◌==◌ zoom text_lt ensure_dir clone_dir in_tree
    clone_snapshot_base sync_dirs write_snapshot_meta
restored = refl

-- Before the snapshot and before the rollback nothing stands at the path.
no_file_before : kind (at b_in_a (some (dir (cloned host_disk host_disk-IsLawful [] host)))) ≡ none
unfolding clone_snapshot_base at
no_file_before = refl

restore_dir-build_snapshot_example :
    (es : Entries) × ((restore_dir host_disk (codes "s") (codes "w") later).1 (codes "w") ≡ some es)
    × (kind_at b_in_a es ≡ kind_at b_in_a work)
unfolding ◌==◌ clone_snapshot_base at
restore_dir-build_snapshot_example =
    restore_dir-build_snapshot host_disk host_disk-IsLawful (codes "s") [] (codes "box") (codes "w")
      [] work host later n1 (n2 ∷ []) refl refl work-IsOrdered refl refl refl
      (work-IsUnlinked (cloned host_disk host_disk-IsLawful [] host)) built refl
      (λ n p ne d. not_linked _) restored not_meta (λ e. cc) (λ f e h. cc) (λ f e h. cc)

-- A host with no directories.
abbrev pub no_disk : Disk (Unit {0})
no_disk = record {
  tree = λ p r. none;
  set_tree = λ p es r. r;
  now = λ r. 0;
  clean = λ p. p;
  follow = dangling;
}

create_snapshot-Recorded_example :
    let (answer, w) = Snapshots.create_snapshot no_disk calm policy (codes "a") (world [] []) in
    Recorded [] answer w.db.snapshots
create_snapshot-Recorded_example =
    create_snapshot-Recorded [] no_disk calm policy (codes "a") (world [] []) refl
