-- ===== src/Lint/Checks/Style.antt =====
-- cpplint.py, `CheckStyle`: its own checks of a line, and the checks that it calls.
use netproject_c.Prelude.{
  ℕ, suc, ◌-◌, Bool, false, not, ◌&&◌, ◌||◌, Option, none, some, List, [], ◌∷◌, ◌++◌, Text, text,
  ltb, ◌==◌, if◌then◌else◌, get_or, same, show, occurs, count, starts_with, is_space,
}
use netproject_c.Lint.Patterns.{contains, matches}
use netproject_c.Lint.Settings.{Settings, get_line_width, is_header_extension}
use netproject_c.Lint.Cleansed.{CleansedLines}
use netproject_c.Lint.Report.{Report, report, when, Action, tell_all}
use netproject_c.Lint.HeaderGuard.{get_header_guard_cpp_variable}
use netproject_c.Lint.Nesting.{innermost_class}
use netproject_c.Lint.Nesting.Blocks.{BlockInfo, ClassFields}
use netproject_c.Lint.Checks.Braces.{check_braces}
use netproject_c.Lint.Checks.Semicolons.{check_trailing_semicolon}
use netproject_c.Lint.Checks.EmptyBody.{check_empty_block_body}
use netproject_c.Lint.Checks.BlankLines.{check_spacing}
use netproject_c.Lint.Checks.Operators.{check_operator_spacing}
use netproject_c.Lint.Checks.Spacing.{check_parenthesis_spacing, check_comma_spacing}
use netproject_c.Lint.Checks.BraceSpacing.{check_braces_spacing}
use netproject_c.Lint.Checks.FunctionCall.{check_spacing_for_function_call}
use netproject_c.Lint.Checks.CheckMacros.{check_check}
use netproject_c.Lint.Checks.AltTokens.{check_alt_tokens}
use netproject_c.Lint.Checks.Sections.{get_previous_non_blank_line, check_section_spacing}

unfoldable pub initial_spaces : Text → ℕ
initial_spaces [] = 0
initial_spaces (c ∷ s) = let rest = initial_spaces s in if c == 32 then suc rest else 0

tab : ℕ → Text → List Report
unfolding occurs
tab linenum line =
    when (occurs (9 ∷ []) line)
      (report linenum "whitespace/tab" 1 (text "Tab found; better to use spaces"))

indentation : CleansedLines → ℕ → Text → Text → Text → List Report
unfolding initial_spaces contains matches same
indentation clean_lines linenum line prev cleansed_line =
    let spaces = initial_spaces line in
    when
      (not (contains "[\",=><] *$" prev)
        && (spaces == 1 || spaces == 3)
        && not (matches "\\s*\\w+\\s*:\\s*\\\\?$" cleansed_line)
        && not
            (not (same (get_or clean_lines.raw_lines linenum []) line) && matches "^\\s*\"\"" line))
      (report linenum "whitespace/indent" 3
        (text "Weird number of spaces at line-start.  Are you using a 2-space indent?"))

unfoldable pub ends_in_space : Text → Bool
unfolding is_space
ends_in_space [] = false
ends_in_space (c ∷ []) = is_space c
ends_in_space (c ∷ d ∷ s) = ends_in_space (d ∷ s)

end_of_line : ℕ → Text → List Report
unfolding ends_in_space
end_of_line linenum line = when (ends_in_space line) (
    report linenum "whitespace/end_of_line" 4
      (text "Line ends in whitespace.  Consider deleting these extra spaces."))

is_header_guard : Settings → Text → Text → Text → Bool
unfolding is_header_extension get_header_guard_cpp_variable starts_with
is_header_guard settings filename file_extension line =
    let cppvar = get_header_guard_cpp_variable settings filename in
    is_header_extension settings file_extension
    && (starts_with line (text "#ifndef " ++ cppvar)
        || starts_with line (text "#define " ++ cppvar)
        || starts_with line (text "#endif  // " ++ cppvar))

may_be_long : Settings → Text → Text → Text → Bool
unfolding is_header_guard matches starts_with
may_be_long settings filename file_extension line =
    starts_with line (text "#include")
    || is_header_guard settings filename file_extension line
    || matches "^\\s*//.*http(s?)://\\S*$" line
    || matches "^\\s*//\\s*[^\\s]*$" line
    || matches "^// \\$Id:.*#[0-9]+ \\$$" line
    || matches "^\\s*/// [@\\\\](copydoc|copydetails|copybrief) .*$" line

long_line : Settings → Text → Text → ℕ → Text → List Report
unfolding may_be_long get_line_width show
long_line settings filename file_extension linenum line =
    when
      (not (may_be_long settings filename file_extension line)
        && ltb settings.line_length (get_line_width settings line))
      (report linenum "whitespace/line_length" 2
        (text "Lines should be <= " ++ show settings.line_length ++ text " characters long"))

more_commands : CleansedLines → ℕ → Text → Text → List Report
unfolding count matches occurs get_previous_non_blank_line
more_commands clean_lines linenum line cleansed_line =
    let prevline = (get_previous_non_blank_line clean_lines linenum).0 in
    when
      (ltb 1 (count (text ";") cleansed_line)
        && not (matches "^[^{};]*\\[[^\\[\\]]*\\][^{}]*\\{[^{}\\n\\r]*\\}" line)
        && not (occurs (text "for") cleansed_line)
        && (not (occurs (text "for") prevline) || occurs (text ";") prevline)
        && not (
            (occurs (text "case ") cleansed_line || occurs (text "default:") cleansed_line)
            && occurs (text "break;") cleansed_line))
      (report linenum "whitespace/newline" 0 (text "More than one command on the same line"))

section_spacing : CleansedLines → ℕ → Option (BlockInfo × ClassFields) → List Report
section_spacing clean_lines linenum none = []
section_spacing clean_lines linenum (some (block, fields)) =
    check_section_spacing clean_lines block.starting_linenum fields.last_line linenum

own_checks : Settings → Text → Text → CleansedLines → ℕ → List Report
unfolding tab indentation end_of_line long_line more_commands
own_checks settings filename file_extension clean_lines linenum =
    let raw_lines = clean_lines.lines_without_raw_strings in
    let line = get_or raw_lines linenum [] in
    let prev = if ltb 0 linenum then get_or raw_lines (linenum - 1) [] else [] in
    let cleansed_line = get_or clean_lines.elided linenum [] in
    tab linenum line
    ++ indentation clean_lines linenum line prev cleansed_line
    ++ end_of_line linenum line
    ++ long_line settings filename file_extension linenum line
    ++ more_commands clean_lines linenum line cleansed_line

unfoldable pub check_style :
    Settings → Text → Text → CleansedLines → ℕ → List BlockInfo → List Action
unfolding own_checks section_spacing check_braces check_trailing_semicolon check_empty_block_body
    check_spacing check_operator_spacing check_parenthesis_spacing check_comma_spacing
    check_braces_spacing check_spacing_for_function_call check_check check_alt_tokens
    innermost_class
check_style settings filename file_extension clean_lines linenum stack =
    tell_all (
      own_checks settings filename file_extension clean_lines linenum
      ++ check_braces settings clean_lines linenum)
    ++ check_trailing_semicolon clean_lines linenum
    ++ tell_all (
        check_empty_block_body clean_lines linenum
        ++ check_spacing clean_lines linenum stack
        ++ check_operator_spacing clean_lines linenum
        ++ check_parenthesis_spacing clean_lines linenum
        ++ check_comma_spacing clean_lines linenum
        ++ check_braces_spacing clean_lines linenum stack
        ++ check_spacing_for_function_call clean_lines linenum
        ++ check_check clean_lines linenum
        ++ check_alt_tokens clean_lines linenum
        ++ section_spacing clean_lines linenum (innermost_class stack))
