-- ===== src/Workspace/Tree.antt =====
-- The host's directories as trees, for internal/sandbox/workspace_snapshot.go: what is at a path, and
-- the changes of one directory. Permission bits and failures of the disk are left out.
use sleigh.Prelude.{ℕ, Text, Option, none, some, List, [], ◌∷◌, ◌==◌, text_lt, if◌then◌else◌, ◌≡◌}

-- A regular file: its content, and its time of modification.
pub record File : Type 0 where
  pub content : Text
  pub mod_time : ℕ

-- `link` is a symbolic link, by its text; `special` any other file that is not regular.
mutual
  pub data Node : Type 0 where
    file : File → Node
    link : Text → Node
    special : Node
    dir : Entries → Node

  -- The entries of a directory, in the order in which filepath.Walk visits them.
  pub data Entries : Type 0 where
    end : Entries
    entry : Text → Node → Entries → Entries

-- A path relative to the root, by its names.
abbrev pub TreePath : Type 0
TreePath = List Text

unfoldable pub lookup : Text → Entries → Option Node
lookup k end = none
lookup k (entry n x es) = if k == n then some x else lookup k es

-- Creates an entry, or replaces it.
unfoldable pub insert : Text → Node → Entries → Entries
insert k y end = entry k y end
insert k y (entry n x es) =
    let later = entry n x (insert k y es) in
    if k == n then entry n y es else if text_lt k n then entry k y (entry n x es) else later

unfoldable pub erase : Text → Entries → Entries
erase k end = end
erase k (entry n x es) = let rest = erase k es in if k == n then rest else entry n x rest

abbrev pub put : Text → Option Node → Entries → Entries
put k none es = erase k es
put k (some x) es = insert k x es

abbrev pub child : Text → Option Node → Option Node
child n (some (dir es)) = lookup n es
child n _ = none

-- What is at a path below a node.
unfoldable pub at : TreePath → Option Node → Option Node
unfolding lookup
at [] x = x
at (n ∷ p) x = at p (child n x)

-- What a node is, without what is below it.
pub data Kind : Type 0 where
  directory other : Kind
  symlink : Text → Kind
  regular : File → Kind

abbrev pub kind : Option Node → Option Kind
kind none = none
kind (some (file f)) = some (regular f)
kind (some (link t)) = some (symlink t)
kind (some special) = some other
kind (some (dir es)) = some directory

abbrev pub kind_at : TreePath → Entries → Option Kind
kind_at p es = kind (at p (some (dir es)))

-- The names of a directory differ from one another, at every depth.
abbrev mutual
  pub HasDistinctNames : Entries → Type 0
  HasDistinctNames end = Unit
  HasDistinctNames (entry n x es) =
      (lookup n es ≡ none) × NodeHasDistinctNames x × HasDistinctNames es

  pub NodeHasDistinctNames : Node → Type 0
  NodeHasDistinctNames (dir es) = HasDistinctNames es
  NodeHasDistinctNames _ = Unit
