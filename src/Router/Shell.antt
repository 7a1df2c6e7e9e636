-- ===== src/Router/Shell.antt =====
-- router.go: the command lines of the read operation, shQuote, buildReadCommandLine,
-- isAllowedReadCommand, and how a POSIX shell reads such a line.
use sleigh.Prelude.{
  ℕ, Text, Bool, Option, none, some, List, [], ◌∷◌, ◌++◌, map, codes, trim_space, is_blank, eqb,
  any, ◌==◌, eqb_iff, if◌then◌else◌, ◌≡◌, refl, sym, ◌∙◌, ap, Bool-cases, inl, inr,
}
use mathlib.Core.List.{append_assoc, append-nil}

-- strings.ReplaceAll(value, "'", `'"'"'`)
abbrev quoted_char : ℕ → Text
quoted_char c = if eqb c b'\'' then codes "'\"'\"'" else c ∷ []

unfoldable pub escape_quotes : Text → Text
escape_quotes [] = []
escape_quotes (c ∷ s) = quoted_char c ++ escape_quotes s

unfoldable pub sh_quote : Text → Text
unfolding escape_quotes
sh_quote value = b'\'' ∷ escape_quotes value ++ b'\'' ∷ []

-- strings.Join(map shQuote parts, " ")
unfoldable pub quoted_words : Text → List Text → Text
unfolding sh_quote
quoted_words command [] = sh_quote command
quoted_words command (arg ∷ args) = sh_quote command ++ b' ' ∷ quoted_words arg args

unfoldable pub build_read_command_line : Text → List Text → Text → Text
unfolding quoted_words
build_read_command_line command args cwd =
    if is_blank cwd
    then quoted_words command args
    else codes "cd " ++ (sh_quote (trim_space cwd) ++ (codes " && " ++ quoted_words command args))

unfoldable pub is_allowed_read_command : Text → Bool
unfolding any
is_allowed_read_command cmd =
    any (λ name. trim_space cmd == name)
      (codes "cat"
        ∷ codes "sed"
        ∷ codes "head"
        ∷ codes "tail"
        ∷ codes "ls"
        ∷ codes "tree"
        ∷ codes "grep"
        ∷ codes "rg"
        ∷ codes "find"
        ∷ codes "fd"
        ∷ codes "wc"
        ∷ codes "stat"
        ∷ [])

-- What a shell makes of a line: words, and `&&` between commands.
pub data ShToken : Type 0 where
  word : Text → ShToken
  and_if : ShToken

-- The shell's quoting state: outside of quotes between words or in one, in single quotes, in double.
pub data ShMode : Type 0 where
  between : ShMode
  plain single double : Text → ShMode
  ampersand : ShMode

-- Outside of quotes these have a meaning of their own, and in double quotes `$`, backquote and
-- backslash: a line with one of them is more than words.
abbrev is_special : ℕ → Bool
is_special c = any (λ d. eqb c d) (codes "$`\\;&|<>()*?[]#~=%!{}" ++ 9 ∷ 10 ∷ 13 ∷ [])

abbrev is_active : ℕ → Bool
is_active c = any (λ d. eqb c d) (codes "$`\\")

abbrev emit : ShToken → Option (List ShToken) → Option (List ShToken)
emit t none = none
emit t (some ts) = some (t ∷ ts)

unfoldable pub sh_tokens : ShMode → Text → Option (List ShToken)
unfolding any
sh_tokens between [] = some []
sh_tokens (plain w) [] = some (word w ∷ [])
sh_tokens _ [] = none
sh_tokens between (c ∷ s) =
    let skip = sh_tokens between s in
    let in_single = sh_tokens (single []) s in
    let in_double = sh_tokens (double []) s in
    let amp = sh_tokens ampersand s in
    let start = sh_tokens (plain (c ∷ [])) s in
    if eqb c b' '
    then skip
    else if eqb c b'\''
    then in_single
    else if eqb c b'"'
    then in_double
    else if eqb c b'&'
    then amp
    else if is_special c
    then none
    else start
sh_tokens (plain w) (c ∷ s) =
    let stop = emit (word w) (sh_tokens between s) in
    let in_single = sh_tokens (single w) s in
    let in_double = sh_tokens (double w) s in
    let next = sh_tokens (plain (w ++ c ∷ [])) s in
    if eqb c b' '
    then stop
    else if eqb c b'\''
    then in_single
    else if eqb c b'"'
    then in_double
    else if is_special c
    then none
    else next
sh_tokens (single w) (c ∷ s) =
    let close = sh_tokens (plain w) s in
    let next = sh_tokens (single (w ++ c ∷ [])) s in if eqb c b'\'' then close else next
sh_tokens (double w) (c ∷ s) =
    let close = sh_tokens (plain w) s in
    let next = sh_tokens (double (w ++ c ∷ [])) s in
    if eqb c b'"' then close else if is_active c then none else next
sh_tokens ampersand (c ∷ s) =
    let next = emit and_if (sh_tokens between s) in if eqb c b'&' then next else none

test_line :
    sh_tokens between
      (build_read_command_line (codes "cat") (codes "it's $(x)" ∷ []) (codes " /a b "))
    ≡ some (
        word (codes "cd")
        ∷ word (codes "/a b")
        ∷ and_if
        ∷ word (codes "cat")
        ∷ word (codes "it's $(x)")
        ∷ [])
unfolding sh_tokens build_read_command_line ◌==◌ trim_space
test_line = refl

single-escape_quotes :
    (v w rest : Text)
    → sh_tokens (single w) (escape_quotes v ++ b'\'' ∷ rest) ≡ sh_tokens (plain (w ++ v)) rest
unfolding sh_tokens escape_quotes
single-escape_quotes [] w rest = rw append-nil refl
single-escape_quotes (c ∷ v) w rest = elim (Bool-cases (eqb c b'\'')) [
  | inl e ↦ rw e (
      single-escape_quotes v (w ++ b'\'' ∷ []) rest
      ∙ ap (λ t. sh_tokens (plain t) rest)
          (append_assoc w (b'\'' ∷ []) v
            ∙ ap (λ (d : ℕ). w ++ d ∷ v) (sym ((eqb_iff c b'\'').0 e))))
  | inr e ↦
      rw (e, e)
        (single-escape_quotes v (w ++ c ∷ []) rest
          ∙ ap (λ t. sh_tokens (plain t) rest) (append_assoc w (c ∷ []) v))
]

between-sh_quote :
    (v rest : Text) → sh_tokens between (sh_quote v ++ rest) ≡ sh_tokens (plain v) rest
unfolding sh_tokens sh_quote
between-sh_quote v rest =
    ap (sh_tokens (single [])) (append_assoc (escape_quotes v) (b'\'' ∷ []) rest)
    ∙ single-escape_quotes v [] rest

between-quoted_words :
    (command : Text) (args : List Text)
    → sh_tokens between (quoted_words command args) ≡ some (map word (command ∷ args))
unfolding sh_tokens quoted_words
between-quoted_words command [] =
    ap (sh_tokens between) (sym (append-nil (sh_quote command))) ∙ between-sh_quote command []
between-quoted_words command (arg ∷ args) =
    between-sh_quote command (b' ' ∷ quoted_words arg args)
    ∙ ap (emit (word command)) (between-quoted_words arg args)

between-cd :
    (t : Text)
    → sh_tokens between (codes "cd " ++ t) ≡ emit (word (codes "cd")) (sh_tokens between t)
unfolding sh_tokens
between-cd t = refl

plain-and_if :
    (w t : Text)
    → sh_tokens (plain w) (codes " && " ++ t) ≡ emit (word w) (emit and_if (sh_tokens between t))
unfolding sh_tokens
plain-and_if w t = refl

-- What comes before the command.
abbrev pub directory_change : Text → List ShToken
directory_change cwd =
    if is_blank cwd then [] else word (codes "cd") ∷ word (trim_space cwd) ∷ and_if ∷ []

-- A shell reads the line that buildReadCommandLine builds as the command and its arguments, whatever
-- they hold, after a change to the directory if one is given.
pub sh_tokens-build_read_command_line :
    (command : Text) (args : List Text) (cwd : Text)
    → sh_tokens between (build_read_command_line command args cwd)
      ≡ some (directory_change cwd ++ map word (command ∷ args))
unfolding build_read_command_line
sh_tokens-build_read_command_line command args cwd = elim (Bool-cases (is_blank cwd)) [
  | inl e ↦ rw e (between-quoted_words command args)
  | inr e ↦ rw e (
      between-cd (sh_quote (trim_space cwd) ++ (codes " && " ++ quoted_words command args))
      ∙ ap (emit (word (codes "cd"))) (
          between-sh_quote (trim_space cwd) (codes " && " ++ quoted_words command args)
          ∙ plain-and_if (trim_space cwd) (quoted_words command args)
          ∙ ap (λ ts. emit (word (trim_space cwd)) (emit and_if ts))
              (between-quoted_words command args)))
]
