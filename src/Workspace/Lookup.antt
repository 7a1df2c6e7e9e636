-- ===== src/Workspace/Lookup.antt =====
-- What the changes of one directory of Workspace/Tree.antt leave at each name and path.
use sleigh.Prelude.{
  Text, false, Option, none, some, [], ◌∷◌, ◌++◌, ◌==◌, text_eq_iff, if◌then◌else◌, ◌≡◌, refl, inl,
  inr, arith, Bool-cases, text_eq_refl,
}
use sleigh.Workspace.Tree.{
  Node, Entries, end, entry, TreePath, lookup, insert, erase, put, at, child, HasDistinctNames,
  NodeHasDistinctNames,
}

lookup-insert :
    (j k : Text) (y : Node) (es : Entries)
    → lookup j (insert k y es) ≡ (if j == k then some y else lookup j es)
unfolding lookup insert
lookup-insert j k y end = refl
lookup-insert j k y (entry n x es) =
    ground (arith, text_eq_iff j k, text_eq_iff k n, text_eq_iff j n, lookup-insert j k y es)

lookup-erase :
    (j k : Text) (es : Entries) → lookup j (erase k es) ≡ (if j == k then none else lookup j es)
unfolding lookup erase
lookup-erase j k end = ground arith
lookup-erase j k (entry n x es) =
    ground (arith, text_eq_iff j k, text_eq_iff k n, text_eq_iff j n, lookup-erase j k es)

pub lookup-put :
    (j k : Text) (x : Option Node) (es : Entries)
    → lookup j (put k x es) ≡ (if j == k then x else lookup j es)
lookup-put j k none es = lookup-erase j k es
lookup-put j k (some x) es = lookup-insert j k x es

pub lookup-put_ne :
    (j k : Text) (x : Option Node) (es : Entries)
    → (j == k) ≡ false
    → lookup j (put k x es) ≡ lookup j es
lookup-put_ne j k x es h = rw (lookup-put j k x es, h) refl

pub lookup-put_self : (k : Text) (x : Option Node) (es : Entries) → lookup k (put k x es) ≡ x
lookup-put_self k x es = rw (lookup-put k k x es, text_eq_refl k) refl

pub some-ne-none : {x : Node} → some x ≡ none → ⊥
some-ne-none h = cc

pub some-injective : {x y : Node} → some x ≡ some y → x ≡ y
some-injective h = cc

pub lookup-erase_ne :
    (j k : Text) (es : Entries) → (j == k) ≡ false → lookup j (erase k es) ≡ lookup j es
lookup-erase_ne j k es h = rw (lookup-erase j k es, h) refl

pub lookup-erase_self : (k : Text) (es : Entries) → lookup k (erase k es) ≡ none
lookup-erase_self k es = rw (lookup-erase k k es, text_eq_refl k) refl

-- Nothing is below nothing.
pub at-none : (p : TreePath) → at p none ≡ none
unfolding at
at-none [] = refl
at-none (n ∷ p) = at-none p

pub at-append : (p q : TreePath) (x : Option Node) → at (p ++ q) x ≡ at q (at p x)
unfolding at
at-append [] q x = refl
at-append (n ∷ p) q x = at-append p q (child n x)

-- The same of what may be there.
abbrev pub MayHaveDistinctNames : Option Node → Type 0
MayHaveDistinctNames none = Unit
MayHaveDistinctNames (some x) = NodeHasDistinctNames x

pub lookup-HasDistinctNames :
    (k : Text) (es : Entries) → HasDistinctNames es → MayHaveDistinctNames (lookup k es)
unfolding lookup
lookup-HasDistinctNames k end u = tt
lookup-HasDistinctNames k (entry n x es) (fresh, ux, u) = elim (Bool-cases (k == n)) [
  | inl e ↦ rw e ux
  | inr e ↦ rw e (lookup-HasDistinctNames k es u)
]

lookup-erase-none : (j k : Text) (es : Entries) → lookup j es ≡ none → lookup j (erase k es) ≡ none
lookup-erase-none j k es h = ground (arith, lookup-erase j k es)

pub erase-HasDistinctNames :
    (k : Text) (es : Entries) → HasDistinctNames es → HasDistinctNames (erase k es)
unfolding erase
erase-HasDistinctNames k end u = tt
erase-HasDistinctNames k (entry n x es) (fresh, ux, u) = elim (Bool-cases (k == n)) [
  | inl e ↦ rw e (erase-HasDistinctNames k es u)
  | inr e ↦ rw e (lookup-erase-none n k es fresh, ux, erase-HasDistinctNames k es u)
]
