-- ===== src/Workspace/Ordered.antt =====
-- The order of the names in a directory, which every change of Workspace/Tree.antt and Workspace/Sync.antt
-- keeps.
use sleigh.Prelude.{
  Text, Bool, true, Option, none, some, [], ◌∷◌, ◌==◌, ◌≡◌, refl, inl, inr, arith, Bool-cases,
  text_eq_iff, text_lt, text_lt_irrefl, text_lt_trans, text_lt_total,
}
use sleigh.Errors.{Result, ok, err}
use sleigh.Action.{Action, continue}
use sleigh.Workspace.Tree.{
  File, Node, file, link, special, dir, Entries, end, entry, lookup, insert, erase, put, TreePath,
  HasDistinctNames, NodeHasDistinctNames,
}
use sleigh.Workspace.Stale.{seen_part, seen_node, remove_stale-seen_part}
use sleigh.Workspace.Mirror.{is_kept-IsClosed}
use sleigh.Workspace.Sync.{
  Place, into, beyond, Target, a_file, a_directory, nothing, another, visit, sync_entries, zoom,
  enter, mkdir_all, mkdir_through, remove_stale, sync_tree, copy_over, is_kept, is_up_to_date,
  without_meta,
}

-- Every name comes after `m`.
abbrev pub Above : Text → Entries → Type 0
Above m end = Unit
Above m (entry n x es) = (text_lt m n ≡ true) × Above m es

-- The names of a directory rise, at every depth: a directory has one entry of each name.
abbrev mutual
  pub IsOrdered : Entries → Type 0
  IsOrdered end = Unit
  IsOrdered (entry n x es) = Above n es × NodeIsOrdered x × IsOrdered es

  pub NodeIsOrdered : Node → Type 0
  NodeIsOrdered (dir es) = IsOrdered es
  NodeIsOrdered _ = Unit

abbrev MayBeOrdered : Option Node → Type 0
MayBeOrdered none = Unit
MayBeOrdered (some x) = NodeIsOrdered x

lookup-Above : (m : Text) (es : Entries) → Above m es → lookup m es ≡ none
unfolding lookup
lookup-Above m end h = refl
lookup-Above m (entry n x es) (lt, h) =
    ground (arith, text_eq_iff m n, text_lt_irrefl m, lookup-Above m es h)

mutual
  pub IsOrdered-HasDistinctNames : (es : Entries) → IsOrdered es → HasDistinctNames es
  IsOrdered-HasDistinctNames end h = tt
  IsOrdered-HasDistinctNames (entry n x es) (above, hx, h) =
      (lookup-Above n es above, Node-HasDistinctNames x hx, IsOrdered-HasDistinctNames es h)

  Node-HasDistinctNames : (x : Node) → NodeIsOrdered x → NodeHasDistinctNames x
  Node-HasDistinctNames (dir es) h = IsOrdered-HasDistinctNames es h
  Node-HasDistinctNames (file f) h = tt
  Node-HasDistinctNames (link t) h = tt
  Node-HasDistinctNames special h = tt

Above-trans : (k m : Text) (es : Entries) → text_lt k m ≡ true → Above m es → Above k es
Above-trans k m end lt h = tt
Above-trans k m (entry n x es) lt (lt', h) = (text_lt_trans k m n lt lt', Above-trans k m es lt h)

insert-Above :
    (j k : Text) (y : Node) (es : Entries)
    → text_lt j k ≡ true
    → Above j es
    → Above j (insert k y es)
unfolding insert
insert-Above j k y end lt h = (lt, tt)
insert-Above j k y (entry n x es) lt (lt', h) = elim (Bool-cases (k == n)) [
  | inl e ↦ rw e (lt', h)
  | inr e ↦ rw e (elim (Bool-cases (text_lt k n)) [
    | inl below ↦ rw below (lt, (lt', h))
    | inr above ↦ rw above (lt', insert-Above j k y es lt h)
  ])
]

pub insert-IsOrdered :
    (k : Text) (y : Node) (es : Entries)
    → NodeIsOrdered y
    → IsOrdered es
    → IsOrdered (insert k y es)
unfolding insert
insert-IsOrdered k y end hy h = (tt, hy, tt)
insert-IsOrdered k y (entry n x es) hy (above, hx, h) = elim (Bool-cases (k == n)) [
  | inl e ↦ rw e (above, hy, h)
  | inr e ↦ rw e (elim (Bool-cases (text_lt k n)) [
    | inl below ↦ rw below ((below, Above-trans k n es below above), hy, (above, hx, h))
    | inr later ↦ rw later (
      insert-Above n k y es
          (ground (arith, text_lt_total k n, text_eq_iff k n, Bool-cases (text_lt n k))) above,
      hx,
      insert-IsOrdered k y es hy h,
    )
  ])
]

erase-Above : (j k : Text) (es : Entries) → Above j es → Above j (erase k es)
unfolding erase
erase-Above j k end h = tt
erase-Above j k (entry n x es) (lt, h) = elim (Bool-cases (k == n)) [
  | inl e ↦ rw e (erase-Above j k es h)
  | inr e ↦ rw e (lt, erase-Above j k es h)
]

erase-IsOrdered : (k : Text) (es : Entries) → IsOrdered es → IsOrdered (erase k es)
unfolding erase
erase-IsOrdered k end h = tt
erase-IsOrdered k (entry n x es) (above, hx, h) = elim (Bool-cases (k == n)) [
  | inl e ↦ rw e (erase-IsOrdered k es h)
  | inr e ↦ rw e (erase-Above n k es above, hx, erase-IsOrdered k es h)
]

put-IsOrdered :
    (k : Text) (x : Option Node) (es : Entries)
    → MayBeOrdered x
    → IsOrdered es
    → IsOrdered (put k x es)
put-IsOrdered k none es hx h = erase-IsOrdered k es h
put-IsOrdered k (some x) es hx h = insert-IsOrdered k x es hx h

lookup-IsOrdered : (k : Text) (es : Entries) → IsOrdered es → MayBeOrdered (lookup k es)
unfolding lookup
lookup-IsOrdered k end h = tt
lookup-IsOrdered k (entry n x es) (above, hx, h) = elim (Bool-cases (k == n)) [
  | inl e ↦ rw e hx
  | inr e ↦ rw e (lookup-IsOrdered k es h)
]

abbrev AnswerIsOrdered : Result Place → Type 0
AnswerIsOrdered (ok (into ds)) = IsOrdered ds
AnswerIsOrdered (ok (beyond below)) = Unit
AnswerIsOrdered (err e) = Unit

mkdir_through-IsOrdered : (t : Target) → AnswerIsOrdered (mkdir_through t)
mkdir_through-IsOrdered (a_directory below) = tt
mkdir_through-IsOrdered (a_file f) = tt
mkdir_through-IsOrdered nothing = tt
mkdir_through-IsOrdered another = tt

enter-IsOrdered :
    (es : Entries) (r : Result Place) (m : Action Entries (Unit {0})) (old : Option Node)
    → AnswerIsOrdered r
    → MayBeOrdered old
    → ((ds : Entries) → IsOrdered ds → IsOrdered (m ds).1)
    → MayBeOrdered (enter es r m old).1
enter-IsOrdered es (ok (into ds)) m old hr hold hm = hm ds hr
enter-IsOrdered es (ok (beyond below)) m old hr hold hm = hold
enter-IsOrdered es (err e) m old hr hold hm = hold

continue-IsOrdered :
    (r : Result (Unit {0})) (f : Unit {0} → Action Entries (Unit {0})) (ds : Entries)
    → IsOrdered ds
    → IsOrdered (f tt ds).1
    → IsOrdered (continue r f ds).1
continue-IsOrdered (ok u) f ds h hf = hf
continue-IsOrdered (err e) f ds h hf = h

module _ (follow : Text → Target) (skip : File → Option Node → Bool) where
  mkdir_all-IsOrdered :
      (old : Option Node) → MayBeOrdered old → AnswerIsOrdered (mkdir_all follow old)
  mkdir_all-IsOrdered none u = tt
  mkdir_all-IsOrdered (some (dir es)) u = u
  mkdir_all-IsOrdered (some (file f)) u = tt
  mkdir_all-IsOrdered (some special) u = tt
  mkdir_all-IsOrdered (some (link t)) u = mkdir_through-IsOrdered (follow t)

  mutual
    unfolding visit zoom

    visit-IsOrdered :
        (x : Node) (old : Option Node) → MayBeOrdered old → MayBeOrdered (visit follow skip x old).1
    visit-IsOrdered (dir es) old h =
        enter-IsOrdered es (mkdir_all follow old) (sync_entries follow skip es) old
          (mkdir_all-IsOrdered old h) h (λ ds k. sync_entries-IsOrdered es ds k)
    visit-IsOrdered (link t) old h = tt
    visit-IsOrdered special old h = h
    visit-IsOrdered (file f) old h = elim (Bool-cases (skip f old)) [
      | inl e ↦ rw e h
      | inr e ↦ rw e tt
    ]

    pub sync_entries-IsOrdered :
        (es ds : Entries) → IsOrdered ds → IsOrdered (sync_entries follow skip es ds).1
    sync_entries-IsOrdered end ds h = h
    sync_entries-IsOrdered (entry n x es) ds h =
        let new = visit follow skip x (lookup n ds) in
        let placed =
          put-IsOrdered n new.1 ds (visit-IsOrdered x (lookup n ds) (lookup-IsOrdered n ds h)) h in
        continue-IsOrdered new.0 (λ _. sync_entries follow skip es) (put n new.1 ds) placed
          (sync_entries-IsOrdered es (put n new.1 ds) placed)

mutual
  unfolding seen_part

  seen_part-Above :
      (es : Entries) (m : Text) (seen : TreePath → Bool) → Above m es → Above m (seen_part seen es)
  seen_part-Above end m seen h = tt
  seen_part-Above (entry n x es) m seen (lt, h) = elim (Bool-cases (seen (n ∷ []))) [
    | inl e ↦ rw e (lt, seen_part-Above es m seen h)
    | inr e ↦ rw e (seen_part-Above es m seen h)
  ]

  seen_part-IsOrdered :
      (es : Entries) (seen : TreePath → Bool) → IsOrdered es → IsOrdered (seen_part seen es)
  seen_part-IsOrdered end seen h = tt
  seen_part-IsOrdered (entry n x es) seen (above, hx, h) = elim (Bool-cases (seen (n ∷ []))) [
    | inl e ↦ rw e (
      seen_part-Above es n seen above,
      seen_node-IsOrdered x (λ p. seen (n ∷ p)) hx,
      seen_part-IsOrdered es seen h,
    )
    | inr e ↦ rw e (seen_part-IsOrdered es seen h)
  ]

  seen_node-IsOrdered :
      (x : Node) (seen : TreePath → Bool) → NodeIsOrdered x → NodeIsOrdered (seen_node seen x)
  seen_node-IsOrdered (dir es) seen h = seen_part-IsOrdered es seen h
  seen_node-IsOrdered (file f) seen h = tt
  seen_node-IsOrdered (link t) seen h = tt
  seen_node-IsOrdered special seen h = tt

-- syncTree leaves a tree with names in order when it was given one, on every branch, errors
-- included.
pub sync_tree-IsOrdered :
    (follow : Text → Target) (src dst : Entries)
    → IsOrdered dst
    → IsOrdered (sync_tree follow src dst).1
unfolding sync_tree
sync_tree-IsOrdered follow src dst h =
    let mid = copy_over follow src dst in
    let copied = sync_entries-IsOrdered follow (is_up_to_date follow) (without_meta src) dst h in
    continue-IsOrdered mid.0 (λ _. remove_stale (is_kept src)) mid.1 copied
      (rw (remove_stale-seen_part mid.1 (is_kept src) (is_kept-IsClosed src))
        (seen_part-IsOrdered mid.1 (is_kept src) copied))
