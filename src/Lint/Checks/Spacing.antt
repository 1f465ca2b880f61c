-- ===== src/Lint/Checks/Spacing.antt =====
-- cpplint.py, `CheckParenthesisSpacing` and `CheckCommaSpacing`.
use netproject_c.Prelude.{
  ℕ, ◌+◌, Bool, not, ◌&&◌, ◌||◌, Option, none, some, List, [], ◌∷◌, ◌++◌, Text, text, ltb, ◌==◌,
  if◌then◌else◌, length, get_or, same,
}
use netproject_c.Regex.{Found, group_text}
use netproject_c.Lint.Patterns.{contains, search_text, replace_all}
use netproject_c.Lint.Cleansed.{CleansedLines}
use netproject_c.Lint.Report.{Report, report}

missing_space : ℕ → Option Found → List Report
unfolding group_text
missing_space linenum none = []
missing_space linenum (some m) =
    report linenum "whitespace/parens" 5 (text "Missing space before ( in " ++ group_text m 1) ∷ []

-- The exceptions for a `for` with an empty first or last part.
empty_part : Text → Found → Bool
unfolding group_text same contains
empty_part line m =
    (same (group_text m 3) (text ";") && length (group_text m 2) == 1 + length (group_text m 4))
    || (length (group_text m 2) == 0 && contains "\\bfor\\s*\\(.*; \\)" line)

inner_spaces : ℕ → Text → Option Found → List Report
unfolding group_text empty_part
inner_spaces linenum line none = []
inner_spaces linenum line (some m) =
    (if not (length (group_text m 2) == length (group_text m 4)) && not (empty_part line m)
      then report linenum "whitespace/parens" 5
          (text "Mismatching spaces inside () in " ++ group_text m 1)
        ∷ []
      else [])
    ++ (if ltb 1 (length (group_text m 2))
        then report linenum "whitespace/parens" 5
            (text "Should have zero or one spaces inside ( and ) in " ++ group_text m 1)
          ∷ []
        else [])

unfoldable pub check_parenthesis_spacing : CleansedLines → ℕ → List Report
unfolding missing_space inner_spaces search_text
check_parenthesis_spacing clean_lines linenum =
    let line = get_or clean_lines.elided linenum [] in
    missing_space linenum (search_text " (if\\(|for\\(|while\\(|switch\\()" line)
    ++ inner_spaces linenum line
        (search_text "\\b(if|for|while|switch)\\s*\\(([ ]*)(.).*[^ ]+([ ]*)\\)\\s*{\\s*$" line)

unfoldable pub check_comma_spacing : CleansedLines → ℕ → List Report
unfolding contains replace_all
check_comma_spacing clean_lines linenum =
    let raw_line = get_or clean_lines.lines_without_raw_strings linenum [] in
    let line = get_or clean_lines.elided linenum [] in
    (if contains ",[^,\\s]" (replace_all "\\boperator\\s*,\\s*\\(" (text "F(") line)
        && contains ",[^,\\s]" raw_line
      then report linenum "whitespace/comma" 3 (text "Missing space after ,") ∷ []
      else [])
    ++ (if contains ";[^\\s};\\\\)/]" line
        then report linenum "whitespace/semicolon" 3 (text "Missing space after ;") ∷ []
        else [])
