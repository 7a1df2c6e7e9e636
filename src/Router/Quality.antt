-- ===== src/Router/Quality.antt =====
-- router.go: the commands of codeWrite's checks of quality and builds, and how their outputs are read.
use sleigh.Prelude.{
  ℕ, Text, Bool, false, not, ◌&&◌, ◌||◌, eqb, Option, none, some, List, [], ◌∷◌, ◌++◌, codes,
  trim_space, to_lower, contains, has_prefix, ◌==◌, if◌then◌else◌,
}
use sleigh.Service.Mounts.{Files}
use sleigh.Monitor.{fields}
use sleigh.Router.Shell.{sh_quote}
use sleigh.Router.Limits.{split_lines, summarize_lines}
use sleigh.Router.Paths.{trim_slash}

-- filepath.Ext: from the last dot of the last element.
abbrev longer_ext : Bool → Text → Text → Text
longer_ext is_dot rest [] = if is_dot then rest else []
longer_ext is_dot rest (c ∷ s) = c ∷ s

abbrev has_slash : Text → Bool
has_slash [] = false
has_slash (c ∷ s) = eqb c b'/' || has_slash s

unfoldable pub ext : Text → Text
ext [] = []
ext (c ∷ s) =
    let later = ext s in if has_slash s then later else longer_ext (eqb c b'.') (c ∷ s) later

abbrev member : Text → List Text → Bool
member s [] = false
member s (t ∷ ts) = s == t || member s ts

module _ (files : Files) where
  abbrev kept_file : Text → Text → List Text → List Text
  kept_file extension f quoted =
      if f == codes "." || f == codes ".." || has_prefix f (codes "../")
      then quoted
      else if to_lower (ext f) == extension
      then sh_quote f ∷ quoted
      else quoted

  -- The changed files with the extension, quoted for a shell.
  unfoldable pub quoted_files : Text → List Text → List Text
  unfolding sh_quote ext
  quoted_files extension [] = []
  quoted_files extension (raw ∷ raws) =
      let rest = quoted_files extension raws in
      let f = trim_space raw in
      if f == [] then rest else kept_file extension (files.clean (trim_slash f)) rest

  abbrev spaced : List Text → Text
  spaced [] = []
  spaced (w ∷ []) = w
  spaced (w ∷ v ∷ ws) = w ++ codes " " ++ spaced (v ∷ ws)

  abbrev compile_command : List Text → Text
  compile_command [] = codes "python -m compileall -q ."
  compile_command (q ∷ qs) = codes "python -m py_compile " ++ spaced (q ∷ qs)

  unfoldable pub python_quality_command : List Text → Text
  unfolding quoted_files
  python_quality_command changed = compile_command (quoted_files (codes ".py") changed)

  abbrev gofmt_of : Text → Text
  gofmt_of what =
      codes "gofmt_out=$(gofmt -l "
      ++ what
      ++ codes "); if [ -n \"$gofmt_out\" ]; then echo \"$gofmt_out\"; exit 1; fi"

  abbrev gofmt_command : List Text → Text
  gofmt_command [] = gofmt_of (codes ".")
  gofmt_command (q ∷ qs) = gofmt_of (spaced (q ∷ qs))

  unfoldable pub go_quality_command : List Text → Text
  unfolding quoted_files
  go_quality_command changed = gofmt_command (quoted_files (codes ".go") changed)

-- `err` is the error's text, if there is an error.
abbrev contains_any : Text → List Text → Bool
contains_any s [] = false
contains_any s (t ∷ ts) = contains s t || contains_any s ts

abbrev error_says : List Text → Option Text → Bool
error_says words none = false
error_says words (some message) = contains_any (to_lower message) words

unfoldable pub is_network_unreachable_error : Option Text → Bool
is_network_unreachable_error err =
    error_says
      (codes "no such host"
        ∷ codes "network is unreachable"
        ∷ codes "connection refused"
        ∷ codes "temporary failure in name resolution"
        ∷ codes "proxyconnect"
        ∷ codes "tls handshake timeout"
        ∷ codes "dial tcp"
        ∷ [])
      err

-- `late` is whether the error, or that of the context, is a deadline that was exceeded.
unfoldable pub is_timeout_like_error : Bool → Option Text → Bool
is_timeout_like_error late err =
    late
    || error_says (codes "context deadline exceeded" ∷ codes "i/o timeout" ∷ codes "timed out" ∷ [])
        err

abbrev about_format : Text → Bool
about_format lower =
    contains_any lower
      (codes "format" ∷ codes "reformat" ∷ codes "black" ∷ codes "prettier" ∷ codes "gofmt" ∷ [])

abbrev about_lint : Text → Bool
about_lint lower =
    contains_any lower
      (codes "fail" ∷ codes "error" ∷ codes "lint" ∷ codes "ruff" ∷ codes "eslint" ∷ [])

unfoldable pub issues : (Text → Bool) → List Text → List Text
issues about [] = []
issues about (raw ∷ raws) =
    let rest = issues about raws in
    let line = trim_space raw in
    if not (line == []) && about (to_lower line) then line ∷ rest else rest

abbrev or_lines : ℕ → List Text → List Text → List Text
or_lines max_items lines [] = summarize_lines (summarize_lines lines max_items) max_items
or_lines max_items lines (i ∷ is) = summarize_lines (i ∷ is) max_items

-- The issues of format, and the issues of lint.
unfoldable pub classify_pre_commit_issues : Text → Text → ℕ → List Text × List Text
unfolding issues split_lines summarize_lines
classify_pre_commit_issues stderr stdout max_items =
    let joined = trim_space (stderr ++ 10 ∷ stdout) in
    let lines = split_lines joined in
    if joined == [] then ([], []) else (
      or_lines max_items lines (issues about_format lines),
      or_lines max_items lines (issues about_lint lines),
    )

abbrev last_field : Text → List Text → Text
last_field w [] = w
last_field w (v ∷ ws) = last_field v ws

-- The file of a line with three fields or more.
abbrev file_of : List Text → Option Text
file_of (a ∷ b ∷ c ∷ ws) = some (last_field c ws)
file_of (a ∷ b ∷ []) = none
file_of (a ∷ []) = none
file_of [] = none

abbrev add_file : Option Text → List Text → (List Text → List Text) → List Text
add_file none seen later = later seen
add_file (some file) seen later =
    if member file seen then later seen else file ∷ later (file ∷ seen)

unfoldable pub numstat_files : List Text → List Text → List Text
unfolding fields
numstat_files [] seen = []
numstat_files (line ∷ lines) seen = add_file (file_of (fields line)) seen (numstat_files lines)

unfoldable pub parse_apply_numstat_files : Text → List Text
unfolding numstat_files split_lines
parse_apply_numstat_files stdout = numstat_files (split_lines (trim_space stdout)) []
