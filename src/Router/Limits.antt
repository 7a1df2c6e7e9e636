-- ===== src/Router/Limits.antt =====
-- router.go: applyOutputLimits, truncateLines, truncateTailRunesWithNotice, truncateWithEllipsis,
-- summarizeLines. A text is its bytes where the code cuts at a byte; a limit that is not positive is 0.
pub mod Kept
use sleigh.Prelude.{
  ℕ, zero, suc, ◌+◌, ◌-◌, ◌≤◌, ◌<◌, Text, Bool, true, false, not, ◌&&◌, ◌||◌, Option, none, some,
  List, [], ◌∷◌, ◌++◌, codes, ltb, leb, eqb, eqb_iff, length, take, drop, ◌==◌, if◌then◌else◌, ◌≡◌,
  refl, sym, ◌∙◌, ap, arith, Bool-cases, ◌⊎◌, inl, inr, min, length-take,
}
use sleigh.Service.Types.{ExecResult}
use sleigh.Prelude.Decimal.{decimal}

abbrev pub newline : ℕ
newline = 10

abbrev pub cons_head : ℕ → List Text → List Text
cons_head c [] = (c ∷ []) ∷ []
cons_head c (l ∷ ls) = (c ∷ l) ∷ ls

-- strings.Split(s, "\n")
unfoldable pub split_lines : Text → List Text
split_lines [] = [] ∷ []
split_lines (c ∷ s) = let ls = split_lines s in if eqb c newline then [] ∷ ls else cons_head c ls

-- strings.Join(ls, "\n")
unfoldable pub join_lines : List Text → Text
join_lines [] = []
join_lines (l ∷ []) = l
join_lines (l ∷ m ∷ ls) = l ++ newline ∷ join_lines (m ∷ ls)

unfoldable pub truncate_lines : Text → ℕ → Text × Bool
unfolding split_lines join_lines
truncate_lines content max_lines =
    if eqb max_lines 0 || content == []
    then (content, false)
    else let lines = split_lines content in
      if leb (length lines) max_lines
      then (content, false)
      else (join_lines (take max_lines lines), true)

-- What is left, how many bytes are omitted, and whether any are.
abbrev pub after_lines : ℕ → ℕ → Bool → Text × Bool → Text × ℕ × Bool
after_lines size omitted truncated (limited, cut) =
    let shorter = cut && ltb (length limited) size in
    (
      limited,
      (if shorter then omitted + (size - length limited) else omitted),
      truncated || shorter,
    )

abbrev pub limit_lines : Text → ℕ → ℕ → Bool → Text × ℕ × Bool
limit_lines content max_lines omitted truncated =
    if ltb 0 max_lines
    then after_lines (length content) omitted truncated (truncate_lines content max_lines)
    else (content, omitted, truncated)

unfoldable pub apply_output_limits : Text → ℕ → ℕ → Text × ℕ × Bool
unfolding truncate_lines
apply_output_limits content max_bytes max_lines =
    if content == []
    then ([], 0, false)
    else if ltb 0 max_bytes && ltb max_bytes (length content)
    then limit_lines (take max_bytes content) max_lines (length content - max_bytes) true
    else limit_lines content max_lines 0 false

-- maxExecOutputRunes
abbrev pub max_exec_output_runes : ℕ
max_exec_output_runes = 3000

-- A text is its runes here.
unfoldable pub truncate_tail_runes_with_notice : Text → ℕ → Text → Text × Bool
truncate_tail_runes_with_notice content max_tail_runes stream_label =
    if eqb max_tail_runes 0
    then ([], not (content == []))
    else if content == []
    then ([], false)
    else if leb (length content) max_tail_runes
    then (content, false)
    else (
      codes "...(truncated "
          ++ stream_label
          ++ codes ": omitted "
          ++ decimal (length content - max_tail_runes)
          ++ codes " runes, showing last "
          ++ decimal max_tail_runes
          ++ codes ")\n"
          ++ drop (length content - max_tail_runes) content,
      true,
    )

unfoldable pub clamp_exec_result_output : ExecResult → ExecResult
unfolding truncate_tail_runes_with_notice
clamp_exec_result_output result = record result {
  stdout = (truncate_tail_runes_with_notice result.stdout max_exec_output_runes (codes "stdout")).0;
  stderr = (truncate_tail_runes_with_notice result.stderr max_exec_output_runes (codes "stderr")).0;
}

-- A text is its runes here.
unfoldable pub truncate_with_ellipsis : Text → ℕ → Text × Bool
truncate_with_ellipsis input max_chars =
    if eqb max_chars 0
    then ([], not (input == []))
    else if leb (length input) max_chars
    then (input, false)
    else (take max_chars input ++ codes "...", true)

unfoldable pub summarize_lines : List Text → ℕ → List Text
summarize_lines lines max_items =
    if eqb max_items 0 || leb (length lines) max_items then lines else take max_items lines
