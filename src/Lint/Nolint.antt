-- ===== src/Lint/Nolint.antt =====
-- cpplint.py, the `NOLINT` comments and the directives for a whole file.
pub mod Exact
use netproject_c.Prelude.{
  ℕ, ◌+◌, Bool, true, false, not, ◌&&◌, ◌||◌, Option, none, some, List, [], ◌∷◌, ◌++◌, Text, text,
  String, ◌==◌, if◌then◌else◌, same, one_of, starts_with, ends_with, any, length, take, drop, ◌-◌,
}
use netproject_c.Regex.{Found, group_of}
use netproject_c.Lint.Categories.{
  error_categories, legacy_error_categories, default_c_suppressed_categories,
  default_kernel_suppressed_categories,
}
use netproject_c.Lint.Patterns.{search_text, contains}
use netproject_c.Lint.Report.{Report, report}

-- `_error_suppressions`, a map from a category, or `None`, to a set of lines; and the keys of
-- `_global_error_suppressions`, whose values are all `True`.
pub record Suppressions : Type 0 where
  pub by_line : List (Option Text × List ℕ)
  pub globally : List Text

abbrev pub same_key : Option Text → Option Text → Bool
same_key none none = true
same_key (some a) (some b) = same a b
same_key _ _ = false

pub contains_line : ℕ → List ℕ → Bool
contains_line n [] = false
contains_line n (m ∷ ms) = m == n || contains_line n ms

-- `d.setdefault(key, set()).add(line)`
pub add_line : Option Text → ℕ → List (Option Text × List ℕ) → List (Option Text × List ℕ)
add_line key line [] = (key, line ∷ []) ∷ []
add_line key line ((k, lines) ∷ d) =
    if same_key k key then (k, line ∷ lines) ∷ d else (k, lines) ∷ add_line key line d

-- `d.get(key, set())`
pub lines_of : Option Text → List (Option Text × List ℕ) → List ℕ
lines_of key [] = []
lines_of key ((k, lines) ∷ d) = if same_key k key then lines else lines_of key d

-- `category[1:-1]`
abbrev pub inner : Text → Text
inner category = take (length category - 2) (drop 1 category)

abbrev suppress : Suppressions → Option Text → ℕ → Suppressions
suppress s key line = record s { by_line = add_line key line s.by_line }

-- The part of `ParseNolintSuppressions` behind the search: the two groups of the match.
pub apply_nolint : Suppressions → ℕ → Option Text → Option Text → Suppressions × List Report
unfolding add_line same one_of starts_with ends_with
apply_nolint s linenum nextline none =
    (suppress s none (elim nextline [ some _ ↦ linenum + 1 | none ↦ linenum ]), [])
apply_nolint s linenum nextline (some category) =
    let suppressed_line : ℕ = elim nextline [ some _ ↦ linenum + 1 | none ↦ linenum ] in
    if same category (text "(*)")
    then (suppress s none suppressed_line, [])
    else if starts_with category (text "(") && ends_with category (text ")")
    then (if one_of (inner category) error_categories
        then (suppress s (some (inner category)) suppressed_line, [])
        else if one_of (inner category) legacy_error_categories
        then (s, [])
        else (
          s,
          report linenum "readability/nolint" 5
                (text "Unknown NOLINT error category: " ++ inner category)
              ∷ [],
        ))
    else (s, [])

pub parse_nolint_suppressions : Suppressions → Text → ℕ → Suppressions × List Report
unfolding apply_nolint search_text group_of
parse_nolint_suppressions s raw_line linenum =
    elim (search_text "\\bNOLINT(NEXTLINE)?\\b(\\([^)]+\\))?" raw_line) [
      | none ↦ (s, [])
      | some m ↦ apply_nolint s linenum (group_of m 1) (group_of m 2)
    ]

-- `_global_error_suppressions[category] = True` for each category
pub suppress_globally : List Text → List Text → List Text
unfolding one_of
suppress_globally [] known = known
suppress_globally (c ∷ cs) known =
    suppress_globally cs (if one_of c known then known else c ∷ known)

pub process_global_suppressions : Suppressions → List Text → Suppressions
unfolding suppress_globally contains
process_global_suppressions s [] = s
process_global_suppressions s (line ∷ lines) =
    let c_file = contains "\\b(?:LINT_C_FILE|vim?:\\s*.*(\\s*|:)filetype=c(\\s*|:|$))" line in
    let kernel_file = contains "\\b(?:LINT_KERNEL_FILE)" line in
    let c_known =
      if c_file then suppress_globally default_c_suppressed_categories s.globally else s.globally in
    let known =
      if kernel_file
      then suppress_globally default_kernel_suppressed_categories c_known
      else c_known in
    process_global_suppressions (record s { globally = known }) lines

pub reset_nolint_suppressions : Suppressions → Suppressions
reset_nolint_suppressions s = record { by_line = []; globally = [] }

unfoldable pub is_error_suppressed_by_nolint : Suppressions → Text → ℕ → Bool
unfolding one_of contains_line lines_of
is_error_suppressed_by_nolint s category linenum =
    one_of category s.globally
    || contains_line linenum (lines_of (some category) s.by_line)
    || contains_line linenum (lines_of none s.by_line)
