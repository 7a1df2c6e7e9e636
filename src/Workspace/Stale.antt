-- ===== src/Workspace/Stale.antt =====
-- The second walk of syncTree: it never fails, and keeps exactly the paths that are to be kept.
use sleigh.Prelude.{
  Text, Bool, true, false, Option, none, some, [], ◌∷◌, ◌++◌, ◌==◌, if◌then◌else◌, ◌≡◌, refl, sym,
  inl, inr, arith, Bool-cases, text_eq→, text_eq_refl,
}
use sleigh.Errors.{ok}
use sleigh.Workspace.Tree.{
  Node, file, link, special, dir, Entries, end, entry, TreePath, lookup, at, child, kind, kind_at,
}
use sleigh.Workspace.Lookup.{at-none}
use sleigh.Workspace.Sync.{remove_stale, remove_below, os_remove}

-- The directories of a path that is seen are seen.
abbrev pub IsClosed : (TreePath → Bool) → Type 0
IsClosed seen = (p q : TreePath) → seen (p ++ q) ≡ true → seen p ≡ true

-- Without the paths that are not seen.
unfoldable mutual
  pub seen_part : (TreePath → Bool) → Entries → Entries
  seen_part seen end = end
  seen_part seen (entry n x es) =
      let rest = seen_part seen es in
      if seen (n ∷ []) then entry n (seen_node (λ p. seen (n ∷ p)) x) rest else rest

  pub seen_node : (TreePath → Bool) → Node → Node
  seen_node seen (dir es) = dir (seen_part seen es)
  seen_node seen x = x

seen_part-eq-end :
    (seen : TreePath → Bool) (es : Entries)
    → ((p : TreePath) → seen p ≡ false)
    → seen_part seen es ≡ end
unfolding seen_part
seen_part-eq-end seen end h = refl
seen_part-eq-end seen (entry n x es) h = rw (h (n ∷ []), seen_part-eq-end seen es h) refl

unseen_all :
    (seen : TreePath → Bool) → IsClosed seen → seen [] ≡ false → (p : TreePath) → seen p ≡ false
unseen_all seen closed h p = elim (Bool-cases (seen p)) [
  | inl e ↦ ground (arith, closed [] p e)
  | inr e ↦ e
]

unseen_below :
    (seen : TreePath → Bool) (n : Text)
    → IsClosed seen
    → seen (n ∷ []) ≡ false
    → (p : TreePath) → seen (n ∷ p) ≡ false
unseen_below seen n closed h p = elim (Bool-cases (seen (n ∷ p))) [
  | inl e ↦ ground (arith, closed (n ∷ []) p e)
  | inr e ↦ e
]

-- A directory that is not seen is empty when its turn comes.
os_remove-seen_node :
    (n : Text) (x : Node) (es : Entries) (seen : TreePath → Bool)
    → ((p : TreePath) → seen p ≡ false)
    → os_remove n (seen_node seen x) es ≡ (ok tt, es)
unfolding seen_part
os_remove-seen_node n (dir ds) es seen h = rw (seen_part-eq-end seen ds h) refl
os_remove-seen_node n (file f) es seen h = refl
os_remove-seen_node n (link t) es seen h = refl
os_remove-seen_node n special es seen h = refl

mutual
  unfolding seen_part remove_stale

  pub remove_stale-seen_part :
      (es : Entries) (seen : TreePath → Bool)
      → IsClosed seen
      → remove_stale seen es ≡ (ok tt, seen_part seen es)
  remove_stale-seen_part end seen closed = refl
  remove_stale-seen_part (entry n x es) seen closed = rw (remove_stale-seen_part es seen closed) (
      rw (remove_below-seen_node x (λ p. seen (n ∷ p)) (λ p q. closed (n ∷ p) q))
        (elim (Bool-cases (seen (n ∷ []))) [
          | inl e ↦ rw e refl
          | inr e ↦ rw e (
              os_remove-seen_node n x (seen_part seen es) (λ p. seen (n ∷ p))
                (unseen_below seen n closed e))
        ]))

  remove_below-seen_node :
      (x : Node) (seen : TreePath → Bool)
      → IsClosed seen
      → remove_below seen x ≡ (ok tt, seen_node seen x)
  remove_below-seen_node (dir es) seen closed = rw (remove_stale-seen_part es seen closed) refl
  remove_below-seen_node (file f) seen closed = refl
  remove_below-seen_node (link t) seen closed = refl
  remove_below-seen_node special seen closed = refl

abbrev keep_node : Bool → (TreePath → Bool) → Option Node → Option Node
keep_node false seen x = none
keep_node true seen none = none
keep_node true seen (some x) = some (seen_node seen x)

lookup-seen_part :
    (k : Text) (es : Entries) (seen : TreePath → Bool)
    → lookup k (seen_part seen es) ≡ keep_node (seen (k ∷ [])) (λ p. seen (k ∷ p)) (lookup k es)
unfolding lookup seen_part
lookup-seen_part k end seen = ground arith
lookup-seen_part k (entry n x es) seen = elim (Bool-cases (k == n)) [
  | inl same ↦
      rw (text_eq→ k n same, text_eq_refl n)
        (elim (Bool-cases (seen (n ∷ []))) [
          | inl e ↦ rw (e, text_eq_refl n) refl
          | inr e ↦ rw (e, lookup-seen_part n es seen, e) refl
        ])
  | inr new ↦ rw new (elim (Bool-cases (seen (n ∷ []))) [
    | inl e ↦ rw (e, new) (lookup-seen_part k es seen)
    | inr e ↦ rw e (lookup-seen_part k es seen)
  ])
]

keep_node-none : (b : Bool) (seen : TreePath → Bool) → keep_node b seen none ≡ none
keep_node-none false seen = refl
keep_node-none true seen = refl

child-seen_node :
    (n : Text) (x : Node) (seen : TreePath → Bool)
    → child n (some (seen_node seen x))
      ≡ keep_node (seen (n ∷ [])) (λ p. seen (n ∷ p)) (child n (some x))
unfolding seen_part
child-seen_node n (dir es) seen = lookup-seen_part n es seen
child-seen_node n (file f) seen = sym (keep_node-none (seen (n ∷ [])) (λ p. seen (n ∷ p)))
child-seen_node n (link t) seen = sym (keep_node-none (seen (n ∷ [])) (λ p. seen (n ∷ p)))
child-seen_node n special seen = sym (keep_node-none (seen (n ∷ [])) (λ p. seen (n ∷ p)))

kind-keep_node :
    (b : Bool) (seen : TreePath → Bool) (x : Option Node)
    → kind (keep_node b seen x) ≡ (if b then kind x else none)
unfolding seen_part
kind-keep_node false seen x = refl
kind-keep_node true seen none = refl
kind-keep_node true seen (some (dir es)) = refl
kind-keep_node true seen (some (file f)) = refl
kind-keep_node true seen (some (link t)) = refl
kind-keep_node true seen (some special) = refl

kind-at-keep_node :
    (p : TreePath) (seen : TreePath → Bool) (x : Option Node)
    → IsClosed seen
    → kind (at p (keep_node (seen []) seen x)) ≡ (if seen p then kind (at p x) else none)
unfolding at
kind-at-keep_node [] seen x closed = kind-keep_node (seen []) seen x
kind-at-keep_node (n ∷ p) seen none closed =
    rw (keep_node-none (seen []) seen, at-none p) (ground arith)
kind-at-keep_node (n ∷ p) seen (some x) closed = elim (Bool-cases (seen [])) [
  | inl e ↦
      rw (e, child-seen_node n x seen)
        (kind-at-keep_node p (λ q. seen (n ∷ q)) (child n (some x)) (λ q r. closed (n ∷ q) r))
  | inr e ↦ rw (e, at-none p, unseen_all seen closed e (n ∷ p)) refl
]

-- The walk and the loop after it end with no error, and leave what is seen.
pub remove_stale_lem :
    (seen : TreePath → Bool) (es : Entries)
    → IsClosed seen
    → (ds : Entries) × (remove_stale seen es ≡ (ok tt, ds))
      × ((n : Text) (p : TreePath)
          → kind_at (n ∷ p) ds ≡ (if seen (n ∷ p) then kind_at (n ∷ p) es else none))
unfolding at
remove_stale_lem seen es closed = (
  seen_part seen es,
  remove_stale-seen_part es seen closed,
  λ n p.
      rw (lookup-seen_part n es seen)
        (kind-at-keep_node p (λ q. seen (n ∷ q)) (lookup n es) (λ q r. closed (n ∷ q) r)),
)
