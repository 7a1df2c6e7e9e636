-- ===== src/Tests/Refusals.antt =====
-- The theorems on a runtime that refuses, and on a sandbox that waited long in the pool.
use sleigh.Prelude.{
  ◌≡◌, refl, true, false, none, some, [], ◌∷◌, ◌++◌, codes, any, find?, trim_space, to_lower,
  text_lt, ◌==◌,
}
use sleigh.Errors.{Error, ok, err, failure}
use sleigh.Store.Schema.{MountRecord}
use sleigh.Store.Sandboxes.{get_sandbox, update_sandbox_assignment, list_idle_sandboxes_before}
use sleigh.Store.Sandboxes.Idle.{rows_of, is_stale, assignment-list_idle}
use sleigh.Service.Types.{World, Backend}
use sleigh.Service.Effects.{hex}
use sleigh.Service.Mounts.{
  Files, entry, MountRequest, is_path_within_root, checked, mount_path, unmount_path,
}
use sleigh.Service.Mounts.Undo.{ours, mount_path-undone, unmount_path-not_undone}
use sleigh.Tests.Data.{box, policy, calm, two_boxes, world}

abbrev no : Error
no = failure (codes "no such container")

abbrev refusing : Backend (Unit {0})
refusing = record calm { update_mounts = λ id mounts x. (err no, x) }

-- A host where every path is clean, is what it names, and is a directory.
abbrev plain_files : Files
plain_files = record {
  is_abs = λ path. true;
  clean = λ path. path;
  eval_symlinks = λ path. none;
  rel = λ root path. none;
  stat = λ path. entry true;
}

abbrev request : MountRequest
request = record { host_path = codes "/srv"; container_path = codes "/data"; mode = [] }

abbrev good : MountRequest
good = record { host_path = codes "/srv"; container_path = codes "/data"; mode = codes "rw" }

abbrev plain : World (Unit {0})
plain = world [] []

box_there : (get_sandbox (codes "a") two_boxes).0 ≡ ok (box (codes "a") (codes "s"))
unfolding get_sandbox find? ◌==◌
box_there = refl

accepted : checked plain_files policy request ≡ ok good
unfolding checked is_path_within_root trim_space to_lower ◌==◌
accepted = refl

id_free : any (λ (m : MountRecord). m.id == codes "mnt_" ++ hex (1 ∷ [])) two_boxes.mounts ≡ false
unfolding any
id_free = refl

mount_path_example :
    ((mount_path refusing plain_files policy (codes "a") request plain).0 ≡ err no)
    × ((mount_path refusing plain_files policy (codes "a") request plain).1.db.mounts ≡ [])
mount_path_example =
    mount_path-undone refusing plain_files policy (codes "a") request good plain
      (box (codes "a") (codes "s")) no (1 ∷ []) (some (2 ∷ []) ∷ []) refl refl box_there accepted
      id_free (λ mounts x. refl)

abbrev mounted : World (Unit {0})
mounted = record plain {
  db = record two_boxes {
    mounts =
        record {
          id = codes "m";
          sandbox_id = codes "a";
          host_path = codes "/srv";
          container_path = codes "/data";
          mode = codes "rw";
          created = codes "1";
        }
        ∷ [];
  };
}

mount_there : any (ours (codes "a") (codes "m")) mounted.db.mounts ≡ true
unfolding any ours ◌==◌
mount_there = refl

unmount_path_example :
    ((unmount_path refusing (codes "a") (codes "m") mounted).0 ≡ err no)
    × (any
          (ours (codes "a") (codes "m"))
          (unmount_path refusing (codes "a") (codes "m") mounted).1.db.mounts
        ≡ false)
unfolding get_sandbox
unmount_path_example =
    unmount_path-not_undone refusing (codes "a") (codes "m") mounted (box (codes "a") (codes "s"))
      no refl box_there mount_there (λ mounts x. refl)

session_named : (codes "s" == []) ≡ false
unfolding ◌==◌
session_named = refl

waited : any (is_stale (codes "b") (codes "2025")) two_boxes.sandboxes ≡ true
unfolding any is_stale ◌==◌ text_lt
waited = refl

assignment_example :
    any
      (λ r. r.id == codes "b")
      (rows_of
        (list_idle_sandboxes_before
          (codes "2025")
          (update_sandbox_assignment (codes "b") (codes "s") [] two_boxes).1).0)
    ≡ true
assignment_example =
    assignment-list_idle (codes "b") (codes "s") (codes "2025") [] two_boxes session_named waited
