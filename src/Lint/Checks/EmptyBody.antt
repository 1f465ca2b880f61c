-- ===== src/Lint/Checks/EmptyBody.antt =====
-- cpplint.py, `CheckEmptyBlockBody`.
use netproject_c.Prelude.{
  or_zero, ℕ, ◌+◌, ◌-◌, Bool, true, false, not, ◌&&◌, Option, none, some, List, [], ◌∷◌, ◌++◌, Text,
  text, ltb, ◌==◌, if◌then◌else◌, get_or, take, drop, find, same, join,
}
use netproject_c.Regex.{Found, group_text}
use netproject_c.Lint.Patterns.{contains, matches, match_text}
use netproject_c.Lint.Cleansed.{CleansedLines}
use netproject_c.Lint.Expression.{close_expression, Place}
use netproject_c.Lint.Comments.{cleanse_comments}
use netproject_c.Lint.Report.{Report, report, when}

-- What follows the head of a loop or a conditional is a semicolon.
semicolon_body : Text → ℕ → Text → List Report
unfolding matches same
semicolon_body keyword end_linenum rest =
    if not (matches ";" rest)
    then []
    else if same keyword (text "if")
    then report end_linenum "whitespace/empty_conditional_body" 5
        (text "Empty conditional bodies should use {}")
      ∷ []
    else report end_linenum "whitespace/empty_loop_body" 5
        (text "Empty loop bodies should use {} or continue")
      ∷ []

-- The loop to the opening brace: its line, and the part of the line from which it is looked for. The
-- list has the lines behind the one whose number is given.
to_open_brace : List Text → ℕ → Text → Option (ℕ × Text)
unfolding contains
to_open_brace [] linenum fragment =
    if contains "^\\s*\\{" fragment then some (linenum, fragment) else none
to_open_brace (line ∷ lines) linenum fragment =
    let onward = to_open_brace lines (linenum + 1) line in
    if contains "^\\s*\\{" fragment
    then some (linenum, fragment)
    else if contains "^(?!\\s*$)" fragment
    then none
    else onward

-- The loop behind the closing brace.
has_else : List Text → Text → Bool
unfolding contains
has_else [] fragment = contains "^(?=\\s*else)" fragment
has_else (line ∷ lines) fragment =
    let onward = has_else lines line in
    if contains "^(?=\\s*else)" fragment
    then true
    else if contains "^\\s*$" fragment
    then onward
    else false

abbrev letters : Text → List Text
letters [] = []
letters (c ∷ s) = (c ∷ []) ∷ letters s

-- The text between the braces.
body_text : CleansedLines → ℕ → ℕ → ℕ → ℕ → Text
unfolding join
body_text clean_lines opening_linenum opening_pos closing_linenum closing_pos =
    let opening_line = get_or clean_lines.elided opening_linenum [] in
    if ltb opening_linenum closing_linenum
    then join (10 ∷ []) (
        letters (drop (opening_pos + 1) opening_line)
        ++ take (closing_linenum - (opening_linenum + 1))
            (drop (opening_linenum + 1) clean_lines.raw_lines)
        ++ take (closing_pos - 1) (get_or clean_lines.elided closing_linenum []) ∷ [])
    else drop (opening_pos + 1) (take (closing_pos - 1) opening_line)

behind_brace : CleansedLines → ℕ → ℕ → ℕ → Place → Option ℕ → List Report
unfolding body_text has_else contains cleanse_comments same
behind_brace clean_lines end_linenum opening_linenum opening_pos place none = []
behind_brace clean_lines end_linenum opening_linenum opening_pos place (some closing_pos) =
    let raw = get_or clean_lines.raw_lines opening_linenum [] in
    let body = body_text clean_lines opening_linenum opening_pos place.linenum closing_pos in
    when
      (same raw (cleanse_comments raw)
        && contains "^\\s*$" body
        && not
            (has_else (drop (place.linenum + 1) clean_lines.elided) (drop closing_pos place.line)))
      (report end_linenum "whitespace/empty_if_body" 4
        (text "If statement had no body and no else clause"))

from_brace : CleansedLines → ℕ → ℕ → Option (ℕ × Text) → List Report
unfolding close_expression behind_brace find
from_brace clean_lines end_linenum end_pos none = []
from_brace clean_lines end_linenum end_pos (some (opening_linenum, fragment)) =
    let found = or_zero (find (text "{") fragment) in
    let opening_pos = if opening_linenum == end_linenum then found + end_pos else found in
    let place = close_expression clean_lines.elided opening_linenum opening_pos in
    behind_brace clean_lines end_linenum opening_linenum opening_pos place place.pos

behind_head : CleansedLines → Text → Place → Option ℕ → List Report
unfolding semicolon_body from_brace to_open_brace same
behind_head clean_lines keyword place none = []
behind_head clean_lines keyword place (some end_pos) =
    let rest = drop end_pos place.line in
    semicolon_body keyword place.linenum rest
    ++ (if same keyword (text "if")
        then from_brace clean_lines place.linenum end_pos
            (to_open_brace (drop (place.linenum + 1) clean_lines.elided) place.linenum rest)
        else [])

empty_block_body : CleansedLines → ℕ → Option Found → List Report
unfolding close_expression behind_head group_text find
empty_block_body clean_lines linenum none = []
empty_block_body clean_lines linenum (some matched) =
    let place =
      close_expression clean_lines.elided linenum
        (or_zero (find (text "(") (get_or clean_lines.elided linenum []))) in
    behind_head clean_lines (group_text matched 1) place place.pos

unfoldable pub check_empty_block_body : CleansedLines → ℕ → List Report
unfolding empty_block_body match_text
check_empty_block_body clean_lines linenum =
    empty_block_body clean_lines linenum
      (match_text "\\s*(for|while|if)\\s*\\(" (get_or clean_lines.elided linenum []))
