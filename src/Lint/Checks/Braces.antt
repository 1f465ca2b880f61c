-- ===== src/Lint/Checks/Braces.antt =====
-- cpplint.py, `CheckBraces`.
use netproject_c.Prelude.{
  or_zero, ℕ, suc, ◌+◌, ◌-◌, Bool, not, ◌&&◌, ◌||◌, Option, none, some, List, [], ◌∷◌, ◌++◌, Text,
  text, String, ltb, ◌==◌, if◌then◌else◌, get_or, length, drop, find, find_from, slice_from, occurs,
}
use netproject_c.Regex.{Found}
use netproject_c.Lint.Patterns.{contains, matches, search_text, is_found}
use netproject_c.Lint.Lines.{get_indent_level}
use netproject_c.Lint.Settings.{Settings, get_line_width}
use netproject_c.Lint.Cleansed.{CleansedLines}
use netproject_c.Lint.Expression.{close_expression, Place}
use netproject_c.Lint.Checks.Sections.{get_previous_non_blank_line}
use netproject_c.Lint.Report.{Report, report, when}

abbrev braces : ℕ → ℕ → String → Report
braces linenum confidence message = report linenum "readability/braces" confidence (text message)

abbrev one_side : String
one_side = "If an else has a brace on one side, it should have it on both"

open_brace : Settings → ℕ → Text → Text → List Report
unfolding contains matches get_line_width occurs
open_brace settings linenum line prevline =
    when
      (matches "\\s*{\\s*$" line
        && not (contains "[,;:}{(]\\s*$" prevline)
        && not (matches "\\s*#" prevline)
        && not (
            ltb settings.line_length (get_line_width settings prevline + 2)
            && occurs (text "[]") prevline))
      (report linenum "whitespace/braces" 4
        (text "{ should almost always be at the end of the previous line"))

else_line : ℕ → Text → Text → List Report
unfolding matches
else_line linenum line prevline =
    when (matches "\\s*else\\b\\s*(?:if\\b|\\{|$)" line && matches "\\s*}\\s*$" prevline) (
      report linenum "whitespace/newline" 4
        (text "An else should appear on the same line as the preceding }"))

-- Behind `else if`: the parenthesis whose end is looked for, if it is not at position 0.
brace_on_right : CleansedLines → ℕ → ℕ → Bool
unfolding close_expression slice_from occurs
brace_on_right clean_lines linenum pos =
    let place = close_expression clean_lines.elided linenum pos in
    occurs (text "{") (slice_from place.pos place.line)

else_if : CleansedLines → ℕ → Text → Option ℕ → List Report
unfolding contains brace_on_right
else_if clean_lines linenum line none = []
else_if clean_lines linenum line (some pos) =
    let left = contains "}\\s*else if\\s*\\(" line in
    let right = brace_on_right clean_lines linenum pos in
    when (ltb 0 pos && (if left then not right else right)) (braces linenum 5 one_side)

both_sides : CleansedLines → ℕ → Text → List Report
unfolding contains matches else_if find find_from
both_sides clean_lines linenum line =
    if contains "else if\\s*\\(" line
    then else_if clean_lines linenum line
        (find_from (text "(") (or_zero (find (text "else if") line)) line)
    else when (contains "}\\s*else[^{]*$" line || matches "[^}]*else\\s*{" line)
        (braces linenum 5 one_side)

one_line : ℕ → Text → List Report
unfolding contains matches
one_line linenum line =
    when (contains "\\belse [^\\s{]" line && not (contains "\\belse if\\b" line)) (
      report linenum "whitespace/newline" 4
        (text "Else clause should never be on same line as else (use 2 lines)"))
    ++ when (matches "\\s*do [^\\s{]" line) (
        report linenum "whitespace/newline" 4
          (text "do/while clauses should not be on a single line"))

-- The loop to the line with the semicolon: how many lines of those that are left it passes.
to_semicolon : List Text → Option ℕ
unfolding occurs
to_semicolon [] = none
to_semicolon (line ∷ lines) =
    if occurs (text ";") line
    then some 0
    else elim (to_semicolon lines) [ none ↦ none | some n ↦ some (suc n) ]

-- The line with the semicolon, from the end of the head on; `none` is the end of the file.
semicolon_line : List Text → Place → Option ℕ
unfolding to_semicolon occurs slice_from
semicolon_line elided place =
    let later : Option ℕ = elim (to_semicolon (drop (place.linenum + 1) elided)) [
      | none ↦ none
      | some n ↦ some (place.linenum + 1 + n)
    ] in
    if not (ltb place.linenum (length elided))
    then none
    else if occurs (text ";") (slice_from place.pos (get_or elided place.linenum []))
    then some place.linenum
    else later

-- The checks of the body, at the line with its semicolon.
after_body : List Text → ℕ → Bool → ℕ → ℕ → List Report
unfolding matches get_indent_level find
after_body elided linenum has_if if_indent endlinenum =
    let endline = get_or elided endlinenum [] in
    let next_line = get_or elided (endlinenum + 1) [] in
    let next_indent = get_indent_level next_line in
    if not (matches ";[\\s}]*(\\\\?)$" (drop (or_zero (find (text ";") endline)) endline))
    then when (not (matches "^[^{};]*\\[[^\\[\\]]*\\][^{}]*\\{[^{}]*\\}\\s*\\)*[;,]\\s*$" endline))
        (braces linenum 4 "If/else bodies with multiple statements require braces")
    else if ltb endlinenum (length elided - 1)
    then (if has_if && matches "\\s*else\\b" next_line && not (next_indent == if_indent)
        then braces linenum 4
            "Else clause should be indented at the same level as if. Ambiguous nested if/else chains require braces."
          ∷ []
        else when (ltb if_indent next_indent)
            (braces linenum 4 "If/else bodies with multiple statements require braces"))
    else []

body_at : List Text → ℕ → Bool → ℕ → Option ℕ → List Report
unfolding after_body
body_at elided linenum has_if if_indent none = []
body_at elided linenum has_if if_indent (some endlinenum) =
    after_body elided linenum has_if if_indent endlinenum

-- An opening brace behind the head, or on the next line.
has_brace : List Text → Place → Bool
unfolding matches slice_from
has_brace elided place =
    let rest = slice_from place.pos place.line in
    matches "\\s*{" rest
    || (matches "\\s*$" rest
        && ltb place.linenum (length elided - 1)
        && matches "\\s*{" (get_or elided (place.linenum + 1) []))

-- The end of the head: of the condition, if there is an `if`.
head_end : CleansedLines → ℕ → Text → Found → Option Found → Place
unfolding close_expression
head_end clean_lines linenum line m none = record {
  line = line;
  linenum = linenum;
  pos = some m.finish;
}
head_end clean_lines linenum line m (some if_match) =
    close_expression clean_lines.elided linenum (if_match.finish - 1)

single_statement : CleansedLines → ℕ → Text → Option Found → List Report
unfolding matches search_text head_end has_brace semicolon_line body_at get_indent_level
single_statement clean_lines linenum line none = []
single_statement clean_lines linenum line (some m) =
    let if_match = search_text "\\bif\\s*\\(" line in
    let place = head_end clean_lines linenum line m if_match in
    if matches "\\s*#" line || has_brace clean_lines.elided place
    then []
    else body_at clean_lines.elided linenum (is_found if_match) (get_indent_level line)
        (semicolon_line clean_lines.elided place)

unfoldable pub check_braces : Settings → CleansedLines → ℕ → List Report
unfolding open_brace else_line both_sides one_line single_statement search_text
    get_previous_non_blank_line
check_braces settings clean_lines linenum =
    let line = get_or clean_lines.elided linenum [] in
    let prevline = (get_previous_non_blank_line clean_lines linenum).0 in
    open_brace settings linenum line prevline
    ++ else_line linenum line prevline
    ++ both_sides clean_lines linenum line
    ++ one_line linenum line
    ++ single_statement clean_lines linenum line (search_text "\\b(if\\s*\\(|else\\b)" line)
