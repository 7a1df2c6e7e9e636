-- ===== src/Router/Edit.antt =====
-- router.go: findAllIndexes, applyContextEditInWorkspace on the content of the file, and
-- normalizePatchWriteMode.
pub mod Places
pub mod Replaced
pub mod Edited
use sleigh.Prelude.{
  ℕ, zero, suc, ◌+◌, ◌-◌, Text, Bool, true, false, ◌&&◌, ◌||◌, Option, none, some, List, [], ◌∷◌,
  ◌++◌, codes, ltb, leb, eqb, length, take, drop, has_prefix, to_lower, trim_space, is_blank, ◌==◌,
  if◌then◌else◌, ◌≡◌, refl,
}
use sleigh.Prelude.Int.{ℤ, pos, leb_ℤ, pos_part}
use sleigh.Prelude.Decimal.{decimal}
use sleigh.Errors.{Result, ok, err, failure}

abbrev pub after_first : Option ℕ → Option ℕ
after_first none = none
after_first (some k) = some (suc k)

-- strings.Index(s, p)
unfoldable pub index_of : Text → Text → Option ℕ
unfolding has_prefix
index_of [] p = if has_prefix [] p then some 0 else none
index_of (c ∷ s) p =
    let later = after_first (index_of s p) in if has_prefix (c ∷ s) p then some 0 else later

-- The loop from `offset` on, for at most `fuel` turns.
unfoldable pub find_from : ℕ → Text → Text → ℕ → List ℕ
unfolding index_of
find_from zero content needle offset = []
find_from (suc fuel) content needle offset = elim (index_of (drop offset content) needle) [
  | none ↦ []
  | some k ↦ (offset + k) ∷ find_from fuel content needle (offset + k + 1)
]

-- Each turn goes on past a place, so one turn more than there are places is enough.
unfoldable pub find_all_indexes : Text → Text → List ℕ
unfolding find_from
find_all_indexes content needle =
    if needle == [] then [] else find_from (length content + 1) content needle 0

-- The text to look for, and the text to put there.
abbrev pub edit_block : Text → Text → Text → Text
edit_block before middle after =
    if is_blank before && is_blank after then middle else before ++ (middle ++ after)

abbrev pub nth : List ℕ → ℕ → Option ℕ
nth [] n = none
nth (i ∷ is) zero = some i
nth (i ∷ is) (suc n) = nth is n

abbrev pub no_match : {A : Type 0} → Result A
no_match = err (
    failure (
      codes
        "context_edit no_match: snippet not found; read latest file and provide tighter before_context/after_context"))

abbrev pub ambiguous : {A : Type 0} → Result A
ambiguous = err (
    failure (
      codes
        "context_edit ambiguous_match: snippet matched multiple locations; provide more context or set occurrence"))

abbrev pub too_far : {A : Type 0} → ℕ → ℕ → Result A
too_far occurrence count = err (
    failure (
      codes "context_edit ambiguous_match: occurrence="
      ++ decimal occurrence
      ++ codes " exceeds match count="
      ++ decimal count))

-- The content with the block at `start` replaced.
abbrev pub splice : Text → Text → Text → ℕ → Text
splice current search replace start =
    take start current ++ (replace ++ drop (start + length search) current)

abbrev pub replace_at : Text → Text → Text → ℕ → ℕ → Option ℕ → Result Text
replace_at current search replace occurrence count none = too_far occurrence count
replace_at current search replace occurrence count (some start) =
    ok (splice current search replace start)

-- An occurrence that is not positive counts as the first.
abbrev pub first_if_not_positive : ℤ → ℕ
first_if_not_positive occurrence = if leb_ℤ occurrence (pos 0) then 1 else pos_part occurrence

abbrev pub edit_at : Text → Text → Text → List ℕ → ℕ → Result Text
edit_at current search replace matches occurrence =
    if eqb (length matches) 0
    then no_match
    else if ltb 1 (length matches) && eqb occurrence 1
    then ambiguous
    else if ltb (length matches) occurrence
    then too_far occurrence (length matches)
    else replace_at current search replace occurrence (length matches)
        (nth matches (occurrence - 1))

-- The new content of the file.
unfoldable pub apply_context_edit : Text → Text → Text → Text → Text → ℤ → Result Text
unfolding find_all_indexes
apply_context_edit current before old new after occurrence =
    let search = edit_block before old after in
    let replace = edit_block before new after in
    edit_at current search replace (find_all_indexes current search)
      (first_if_not_positive occurrence)

unfoldable pub normalize_patch_write_mode : Text → Result Text
normalize_patch_write_mode raw =
    let mode = to_lower (trim_space raw) in
    if mode == [] || mode == codes "context_edit"
    then ok (codes "context_edit")
    else if mode == codes "replace_file" || mode == codes "rewrite" || mode == codes "overwrite"
    then ok (codes "replace_file")
    else err (failure (codes "write_mode must be one of: context_edit, replace_file"))
