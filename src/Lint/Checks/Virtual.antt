-- ===== src/Lint/Checks/Virtual.antt =====
-- cpplint.py, `CheckRedundantVirtual`.
use netproject_c.Prelude.{
  ℕ, zero, suc, ◌+◌, not, ◌||◌, Option, none, some, List, [], ◌∷◌, ◌++◌, Text, text, ltb,
  if◌then◌else◌, get_or, length, drop,
}
use netproject_c.Regex.{Found, group_text}
use netproject_c.Lint.Patterns.{contains, matches, match_text, search_text}
use netproject_c.Lint.Cleansed.{CleansedLines}
use netproject_c.Lint.Report.{Report, report}
use netproject_c.Lint.Expression.{close_expression, Place}

-- The loop to the opening parenthesis, over at most this many lines from `start_line` on.
find_parameters : ℕ → List Text → ℕ → ℕ → Option Place
unfolding match_text group_text close_expression
find_parameters zero elided start_line start_col = none
find_parameters (suc rounds) elided start_line start_col =
    let later = find_parameters rounds elided (start_line + 1) 0 in
    if not (ltb start_line (length elided))
    then none
    else elim (match_text "^([^(]*)\\(" (drop start_col (get_or elided start_line []))) [
      | none ↦ later
      | some m ↦ some (close_expression elided start_line (start_col + length (group_text m 1)))
    ]

virtual_report : ℕ → Option Found → List Report
unfolding group_text
virtual_report linenum none = []
virtual_report linenum (some m) =
    report linenum "readability/inheritance" 4 (
      text "\"virtual\" is redundant since function is already declared as \""
      ++ group_text m 1
      ++ text "\"")
    ∷ []

-- The loop behind the parameters, over at most this many lines.
after_parameters : ℕ → List Text → ℕ → ℕ → ℕ → List Report
unfolding virtual_report search_text contains
after_parameters zero elided linenum i end_col = []
after_parameters (suc rounds) elided linenum i end_col =
    let line = drop end_col (get_or elided i []) in
    let later = after_parameters rounds elided linenum (i + 1) 0 in
    if not (ltb i (length elided))
    then []
    else virtual_report linenum (search_text "\\b(override|final)\\b" line)
      ++ (if contains "[^\\w]\\s*$" line then [] else later)

behind_parameters : List Text → ℕ → Option Place → List Report
unfolding after_parameters
behind_parameters elided linenum none = []
behind_parameters elided linenum (some place) = elim place.pos [
  | none ↦ []
  | some end_col ↦ after_parameters 3 elided linenum place.linenum end_col
]

-- The column is the length of the word `virtual`.
redundant_virtual : List Text → ℕ → Text → Option Found → List Report
unfolding contains matches behind_parameters find_parameters group_text
redundant_virtual elided linenum line none = []
redundant_virtual elided linenum line (some virtual) =
    if contains "\\b(public|protected|private)\\s+$" (group_text virtual 1)
      || matches "^\\s+(public|protected|private)\\b" (group_text virtual 3)
      || matches "^.*[^:]:[^:].*$" line
    then []
    else behind_parameters elided linenum
        (find_parameters 3 elided linenum (length (group_text virtual 2)))

unfoldable pub check_redundant_virtual : CleansedLines → ℕ → List Report
unfolding redundant_virtual match_text
check_redundant_virtual clean_lines linenum =
    let line = get_or clean_lines.elided linenum [] in
    redundant_virtual clean_lines.elided linenum line (match_text "^(.*)(\\bvirtual\\b)(.*)$" line)
