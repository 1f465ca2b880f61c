-- ===== src/Lint/Checks/FunctionCall.antt =====
-- cpplint.py, `CheckSpacingForFunctionCall`: the blanks around the parentheses of a call.
use netproject_c.Prelude.{
  ℕ, Bool, not, ◌&&◌, Option, none, some, List, [], ◌∷◌, ◌++◌, Text, text, if◌then◌else◌, get_or,
  String,
}
use netproject_c.Regex.{Found, group_text}
use netproject_c.Lint.Patterns.{contains, search_text}
use netproject_c.Lint.Cleansed.{CleansedLines}
use netproject_c.Lint.Report.{Report, report}

abbrev control_patterns : List String
control_patterns =
    "\\bif\\s*\\((.*)\\)\\s*{" ∷ "\\bfor\\s*\\((.*)\\)\\s*{" ∷ "\\bwhile\\s*\\((.*)\\)\\s*[{;]"
    ∷ "\\bswitch\\s*\\((.*)\\)\\s*{" ∷ []

unfoldable pub inside : Option Found → Text → Text
unfolding group_text
inside none otherwise = otherwise
inside (some m) otherwise = group_text m 1

call_text : List String → Text → Text
unfolding search_text inside
call_text [] line = line
call_text (pattern ∷ patterns) line =
    let later = call_text patterns line in inside (search_text pattern line) later

looks_at_calls : Text → Bool
unfolding contains
looks_at_calls fncall =
    not (contains "\\b(if|for|while|switch|return|new|delete|catch|sizeof)\\b" fncall)
    && not (contains " \\([^)]+\\)\\([^)]*(\\)|,$)" fncall)
    && not (contains " \\([^)]+\\)\\[[^\\]]+\\]" fncall)

abbrev parens : ℕ → ℕ → String → List Report
parens linenum confidence message =
    report linenum "whitespace/parens" confidence (text message) ∷ []

after_open : ℕ → Text → List Report
unfolding contains
after_open linenum fncall =
    if contains "\\w\\s*\\(\\s(?!\\s*\\\\$)" fncall
    then parens linenum 4 "Extra space after ( in function call"
    else if contains "\\(\\s+(?!(\\s*\\\\)|\\()" fncall
    then parens linenum 2 "Extra space after ("
    else []

before_open : ℕ → Text → Text → List Report
unfolding contains
before_open linenum line fncall =
    if contains "\\w\\s+\\(" fncall
      && not (contains "_{0,2}asm_{0,2}\\s+_{0,2}volatile_{0,2}\\s+\\(" fncall)
      && not (contains "#\\s*define|typedef|using\\s+\\w+\\s*=" fncall)
      && not (contains "\\w\\s+\\((\\w+::)*\\*\\w+\\)\\(" fncall)
      && not (contains "\\bcase\\s+\\(" fncall)
    then parens linenum (if contains "\\boperator_*\\b" line then 0 else 4)
        "Extra space before ( in function call"
    else []

before_close : ℕ → Text → List Report
unfolding contains
before_close linenum fncall =
    if contains "[^)]\\s+\\)\\s*[^{\\s]" fncall
    then parens linenum 2 (
        if contains "^\\s+\\)" fncall
        then "Closing ) should be moved to the previous line"
        else "Extra space before )")
    else []

unfoldable pub check_spacing_for_function_call : CleansedLines → ℕ → List Report
unfolding call_text looks_at_calls after_open before_open before_close
check_spacing_for_function_call clean_lines linenum =
    let line = get_or clean_lines.elided linenum [] in
    let fncall = call_text control_patterns line in
    if looks_at_calls fncall
    then after_open linenum fncall ++ before_open linenum line fncall ++ before_close linenum fncall
    else []
