-- ===== src/Lint/Checks/BraceSpacing.antt =====
-- cpplint.py, `_IsType`, `CheckBracesSpacing` and `IsDecltype`.
use netproject_c.Prelude.{
  ℕ, zero, suc, ◌+◌, ◌-◌, Bool, true, false, not, ◌&&◌, ◌||◌, Option, none, some, List, [], ◌∷◌,
  ◌++◌, Text, text, String, ltb, leb, if◌then◌else◌, get_or, length, take, drop, any, occurs,
}
use netproject_c.Regex.{Found, group_text}
use netproject_c.Lint.Patterns.{contains, matches, match_text, search_pattern, escape, is_found}
use netproject_c.Lint.Cleansed.{CleansedLines}
use netproject_c.Lint.Expression.{close_expression, reverse_close_expression, Place}
use netproject_c.Lint.Nesting.Blocks.{BlockInfo, Kind, namespace}
use netproject_c.Lint.Report.{Report, report, when}

-- `_TYPES`
abbrev types_pattern : String
types_pattern =
    "^(?:(char(16_t|32_t)?)|wchar_t|bool|short|int|long|signed|unsigned|float|double|(ptrdiff_t|size_t|max_align_t|nullptr_t)|(u?int(_fast|_least)?(8|16|32|64)_t)|(u?int(max|ptr)_t)|)$"

-- The last token of an expression.
last_token : Text → Option Found → Text
unfolding group_text
last_token expr none = expr
last_token expr (some m) = group_text m 1

-- The nearest line from number `n` up to number `low` that names a template.
template_line : List Text → ℕ → ℕ → Option ℕ
unfolding occurs
template_line elided low zero =
    if leb low 0 && occurs (text "template") (get_or elided 0 []) then some 0 else none
template_line elided low (suc n) =
    let above = template_line elided low n in
    if ltb (suc n) low
    then none
    else if occurs (text "template") (get_or elided (suc n) [])
    then some (suc n)
    else above

abbrev is_namespace : Kind → Bool
is_namespace (namespace name) = true
is_namespace _ = false

abbrev next_block_start : List BlockInfo → ℕ
next_block_start [] = 0
next_block_start (b ∷ bs) = b.starting_linenum

-- Whether a line from the template's to the block's declares the type.
declares : List Text → Text → ℕ → Option ℕ → Bool
unfolding search_pattern
declares elided typename_pattern last_line none = false
declares elided typename_pattern last_line (some first_line) =
    any (λ line. is_found (search_pattern typename_pattern line))
      (take (last_line + 1 - first_line) (drop first_line elided))

declared_in_blocks : List Text → Text → List BlockInfo → Bool
unfolding template_line declares
declared_in_blocks elided typename_pattern [] = false
declared_in_blocks elided typename_pattern (b ∷ bs) =
    let outer = declared_in_blocks elided typename_pattern bs in
    let last_line = b.starting_linenum in
    if is_namespace b.kind
    then false
    else declares elided typename_pattern last_line
        (template_line elided (next_block_start bs) last_line)
      || outer

unfoldable pub is_type : CleansedLines → List BlockInfo → Text → Bool
unfolding last_token declared_in_blocks match_text matches escape
is_type clean_lines stack expr =
    let token = last_token expr (match_text "^.*(\\b\\S+)$" expr) in
    matches types_pattern token
    || declared_in_blocks clean_lines.elided
        (text "\\b(?:typename|class|struct)\\s+" ++ escape token ++ text "\\b") stack

concat_lines : List Text → Text
concat_lines [] = []
concat_lines (line ∷ lines) = line ++ concat_lines lines

abbrev from_place : Place → Text
from_place place = elim place.pos [ none ↦ [] | some p ↦ drop p place.line ]

min : ℕ → ℕ → ℕ
min a b = if leb a b then a else b

-- What follows the closing brace, with the two lines below it.
trailing_text : CleansedLines → Place → Text
unfolding concat_lines min
trailing_text clean_lines place =
    from_place place
    ++ concat_lines (
        take (min (place.linenum + 3) (clean_lines.num_lines - 1) - (place.linenum + 1))
          (drop (place.linenum + 1) clean_lines.elided))

before_brace : CleansedLines → List BlockInfo → ℕ → Option Found → List Report
unfolding group_text close_expression trailing_text matches is_type
before_brace clean_lines stack linenum none = []
before_brace clean_lines stack linenum (some m) =
    let leading_text = group_text m 1 in
    let place = close_expression clean_lines.elided linenum (length leading_text) in
    when
      (not (matches "^[\\s}]*[{.;,)<>\\]:]" (trailing_text clean_lines place))
        && not (is_type clean_lines stack leading_text))
      (report linenum "whitespace/braces" 5 (text "Missing space before {"))

semicolons : ℕ → Text → List Report
unfolding contains
semicolons linenum line =
    if contains ":\\s*;\\s*$" line
    then report linenum "whitespace/semicolon" 5
        (text "Semicolon defining empty statement. Use {} instead.")
      ∷ []
    else if contains "^\\s*;\\s*$" line
    then report linenum "whitespace/semicolon" 5 (
        text "Line contains only semicolon. If this should be an empty statement, "
        ++ text "use {} instead.")
      ∷ []
    else when (contains "\\s+;\\s*$" line && not (contains "\\bfor\\b" line)) (
        report linenum "whitespace/semicolon" 5 (
          text "Extra space before last semicolon. If this should be an empty "
          ++ text "statement, use {} instead."))

unfoldable pub check_braces_spacing : CleansedLines → ℕ → List BlockInfo → List Report
unfolding before_brace semicolons match_text contains
check_braces_spacing clean_lines linenum stack =
    let line = get_or clean_lines.elided linenum [] in
    before_brace clean_lines stack linenum (match_text "^(.*[^ ({>]){" line)
    ++ when (contains "}else" line)
        (report linenum "whitespace/braces" 5 (text "Missing space before else"))
    ++ semicolons linenum line

unfoldable pub is_decltype : List Text → ℕ → ℕ → Bool
unfolding reverse_close_expression contains
is_decltype elided linenum column =
    let place = reverse_close_expression elided linenum column in
    elim place.pos [
      | none ↦ false
      | some start_col ↦ contains "\\bdecltype\\s*$" (take start_col place.line)
    ]
