-- ===== src/Lint/Checks/AltTokens.antt =====
-- cpplint.py, `CheckAltTokens`.
use netproject_c.Prelude.{
  ℕ, ◌||◌, List, [], ◌∷◌, ◌++◌, Text, text, if◌then◌else◌, get_or, same, occurs,
}
use netproject_c.Regex.{Found, group_text}
use netproject_c.Lint.Patterns.{matches, find_all}
use netproject_c.Lint.Cleansed.{CleansedLines}
use netproject_c.Lint.Report.{Report, report}

abbrev alt_token_replacement : Text → Text
unfolding same
alt_token_replacement token =
    if same token (text "and")
    then text "&&"
    else if same token (text "bitor")
    then text "|"
    else if same token (text "or")
    then text "||"
    else if same token (text "xor")
    then text "^"
    else if same token (text "compl")
    then text "~"
    else if same token (text "bitand")
    then text "&"
    else if same token (text "and_eq")
    then text "&="
    else if same token (text "or_eq")
    then text "|="
    else if same token (text "xor_eq")
    then text "^="
    else if same token (text "not")
    then text "!"
    else text "!="

alt_token_reports : ℕ → List Found → List Report
unfolding alt_token_replacement group_text same
alt_token_reports linenum [] = []
alt_token_reports linenum (m ∷ ms) =
    report linenum "readability/alt_tokens" 2 (
      text "Use operator "
      ++ alt_token_replacement (group_text m 1)
      ++ text " instead of "
      ++ group_text m 1)
    ∷ alt_token_reports linenum ms

unfoldable pub check_alt_tokens : CleansedLines → ℕ → List Report
unfolding alt_token_reports find_all matches occurs
check_alt_tokens clean_lines linenum =
    let line = get_or clean_lines.elided linenum [] in
    if matches "^\\s*#" line || occurs (text "/*") line || occurs (text "*/") line
    then []
    else alt_token_reports linenum (
        find_all "[ =()](and|bitor|or|xor|compl|bitand|and_eq|or_eq|xor_eq|not|not_eq)(?=[ (]|$)"
          line)
