-- ===== src/Lint/Language.antt =====
-- cpplint.py, `CheckLanguage`.
pub mod Casts
pub mod Globals
pub mod References
use netproject_c.Prelude.{
  ℕ, zero, suc, ◌+◌, ◌-◌, Bool, true, false, not, ◌&&◌, ◌||◌, Option, none, some, List, [], ◌∷◌,
  ◌++◌, map, reverse, Text, text, String, ltb, leb, ◌==◌, if◌then◌else◌, get_or, length, take, drop,
  any, all, find, same, one_of, is_empty, strip, lstrip, words, lower, show, find_from, slice_from,
  occurs, is_some, join, count, starts_with, ends_with, is_space, replace, to_upper, line_before,
  split_path, join_path, dirname, split_extension, normal_path,
}
use netproject_c.Regex.{Found, group_text, group_of}
use netproject_c.Lint.Patterns.{
  contains, matches, match_text, search_text, match_pattern, replace_all, find_all, is_found,
}
use netproject_c.Lint.Settings.{
  Settings, get_line_width, is_header_extension, get_header_extensions, get_non_header_extensions,
}
use netproject_c.Lint.Files.{repository_name, full_name, base_name, extension}
use netproject_c.Lint.Cleansed.{CleansedLines, include_pattern}
use netproject_c.Lint.Report.{Report, report, when, Action, tell, nolint, tell_all}
use netproject_c.Lint.Patterns.{split_pattern}
use netproject_c.Regex.{group_start, group_end}
use netproject_c.Lint.IncludeState.{IncludeState, reset_section}
use netproject_c.Lint.Includes.{check_include_line}
use netproject_c.Lint.TextInside.{get_text_inside}
use netproject_c.Lint.Language.Casts.{check_casts}
use netproject_c.Lint.Language.Globals.{check_global_static, check_printf}

basic_type : ℕ → Option Found → List Report
unfolding group_text
basic_type linenum none = []
basic_type linenum (some m) =
    report linenum "runtime/int" 4
      (text "Use int16/int64/etc, rather than the C type " ++ group_text m 1)
    ∷ []

integers : ℕ → Text → List Report
unfolding contains basic_type search_text
integers linenum line =
    if contains "\\bshort port\\b" line
    then when (not (contains "\\bunsigned short port\\b" line))
        (report linenum "runtime/int" 4 (text "Use \"unsigned short\" for ports, not \"short\""))
    else basic_type linenum (search_text "\\b(short|long(?! +double)|long long)\\b" line)

-- A pattern with `(?i)` is sought in the lower-case text; the positions are those of the text.
function_name : Text → Option Found → Text
unfolding group_start group_end
function_name line none = []
function_name line (some m) = drop (group_start m 1) (take (group_end m 1) line)

format_argument : ℕ → Text → Option Found → List Report
unfolding same group_text function_name search_text lower
format_argument linenum line none = []
format_argument linenum line (some m) = when (not (same (group_text m 1) (text "__VA_ARGS__"))) (
    report linenum "runtime/printf" 4 (
      text "Potential format string bug. Do "
      ++ function_name line (search_text "\\b((?:string)?printf)\\s*\\(" (lower line))
      ++ text "(\"%s\", "
      ++ group_text m 1
      ++ text ") instead."))

-- The text inside the parentheses, which is `None` or empty if there is nothing to look at.
format_string : ℕ → Text → Option (Option Text) → List Report
unfolding format_argument match_text
format_string linenum line none = []
format_string linenum line (some none) = []
format_string linenum line (some (some printf_args)) =
    if is_empty printf_args
    then []
    else format_argument linenum line (match_text "([\\w.\\->()]+)$" printf_args)

memset : ℕ → Option Found → List Report
unfolding matches group_text
memset linenum none = []
memset linenum (some m) = when (not (matches "^''|-?[0-9]+|0x[0-9A-Fa-f]$" (group_text m 2))) (
    report linenum "runtime/memset" 4 (
      text "Did you mean \"memset("
      ++ group_text m 1
      ++ text ", 0, "
      ++ group_text m 2
      ++ text ")\"?"))

using_namespace : ℕ → Text → List Report
unfolding contains
using_namespace linenum line = when (contains "\\busing namespace\\b" line) (
    report linenum
      (if contains "\\bliterals\\b" line then "build/namespaces_literals" else "build/namespaces") 5
      (text "Do not use namespace using-directives.  Use using-declarations instead."))

-- `tok.lstrip(c)`
drop_all : ℕ → Text → Text
drop_all d [] = []
drop_all d (c ∷ s) = let rest = drop_all d s in if c == d then rest else c ∷ s

is_constant_token : Text → Bool
unfolding matches
is_constant_token tok =
    is_empty tok
    || matches "\\d+" tok
    || matches "0[xX][0-9a-fA-F]+" tok
    || matches "k[A-Z0-9]\\w*" tok
    || matches "(.+::)?k[A-Z0-9]\\w*" tok
    || matches "(.+::)?[A-Z][A-Z0-9_]*" tok

-- The loop over the tokens of the size; the first argument is `skip_next`.
is_const : Bool → List Text → Bool
unfolding contains is_constant_token drop_all starts_with
is_const skip_next [] = true
is_const true (tok ∷ tokens) = is_const false tokens
is_const false (tok ∷ tokens) =
    let bare = reverse (drop_all b')' (reverse (drop_all b'(' tok))) in
    let onward = is_const false tokens in
    let skipping = is_const true tokens in
    if contains "sizeof\\(.+\\)" tok || contains "arraysize\\(\\w+\\)" tok || is_constant_token bare
    then onward
    else if starts_with bare (text "sizeof")
    then skipping
    else false

variable_array : ℕ → Option Found → List Report
unfolding is_const split_pattern same occurs group_text
variable_array linenum none = []
variable_array linenum (some m) =
    when
      (not (same (group_text m 2) (text "return"))
        && not (same (group_text m 2) (text "delete"))
        && not (occurs (text "]") (group_text m 3))
        && not (is_const false (split_pattern "\\s|\\+|\\-|\\*|\\/|<<|>>]" (group_text m 3))))
      (report linenum "runtime/arrays" 1 (
        text
          "Do not use variable-length arrays.  Use an appropriately named ('k' followed by CamelCase) compile-time constant for the size."))

unnamed_namespace : Settings → Text → ℕ → Text → List Report
unfolding is_header_extension contains ends_with
unnamed_namespace settings file_extension linenum line =
    when
      (is_header_extension settings file_extension
        && contains "\\bnamespace\\s*{" line
        && not (ends_with line (text "\\")))
      (report linenum "build/namespaces" 4 (
        text
          "Do not use unnamed namespaces in header files.  See https://google-styleguide.googlecode.com/svn/trunk/cppguide.xml#Namespaces for more information."))

-- The checks behind `CheckPrintf`.
line_checks : Settings → Text → ℕ → Text → List Report
unfolding integers contains format_string get_text_inside search_text memset using_namespace
    variable_array match_text unnamed_namespace lower
line_checks settings file_extension linenum line =
    integers linenum line
    ++ when (contains "\\boperator\\s*&\\s*\\(\\s*\\)" line)
        (report linenum "runtime/operator" 4 (text "Unary operator& is dangerous.  Do not use it."))
    ++ when (contains "\\}\\s*if\\s*\\(" line) (
        report linenum "readability/braces" 4
          (text "Did you mean \"else if\"? If not, start a new line for \"if\"."))
    ++ format_string linenum line
        (get_text_inside line (search_text "\\b(string)?printf\\s*\\(" (lower line)))
    ++ memset linenum (search_text "memset\\s*\\(([^,]*),\\s*([^,]*),\\s*0\\s*\\)" line)
    ++ using_namespace linenum line
    ++ variable_array linenum (match_text "\\s*(.+::)?(\\w+) [a-z]\\w*\\[(.+)];" line)
    ++ unnamed_namespace settings file_extension linenum line

section_reset : IncludeState → Option Found → IncludeState
unfolding group_text
section_reset state none = state
section_reset state (some m) = reset_section state (group_text m 1)

other_line :
    Settings
    → Text
    → CleansedLines
    → ℕ
    → Text
    → IncludeState
    → Option (List Report)
    → Option (IncludeState × List Report)
unfolding line_checks check_global_static check_printf
other_line settings file_extension clean_lines linenum line state none = none
other_line settings file_extension clean_lines linenum line state (some casts) = some (
  state,
  casts
      ++ check_global_static clean_lines linenum
      ++ check_printf clean_lines linenum
      ++ line_checks settings file_extension linenum line,
)

-- `none` is the `IndexError` of `CheckCasts`.
unfoldable pub check_language :
    Settings → Text → Text → CleansedLines → ℕ → IncludeState → Option (IncludeState × List Report)
unfolding other_line section_reset check_include_line check_casts match_text contains
check_language settings filename file_extension clean_lines linenum state =
    let line = get_or clean_lines.elided linenum [] in
    if is_empty line
    then some (state, [])
    else if contains "^\\s*#\\s*include\\s*([<\"])([^>\"]*)[>\"].*$" line
    then some (check_include_line settings filename clean_lines linenum state)
    else other_line settings file_extension clean_lines linenum line
        (section_reset state (match_text "^\\s*#\\s*(if|ifdef|ifndef|elif|else|endif)\\b" line))
        (check_casts clean_lines linenum)
