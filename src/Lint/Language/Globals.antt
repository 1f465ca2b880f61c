-- ===== src/Lint/Language/Globals.antt =====
-- cpplint.py, `CheckGlobalStatic` and `CheckPrintf`.
use netproject_c.Prelude.{
  ℕ, ◌+◌, not, ◌&&◌, ◌||◌, Option, none, some, List, [], ◌∷◌, ◌++◌, Text, text, ltb, if◌then◌else◌,
  get_or, length, same, strip,
}
use netproject_c.Regex.{Found, group_text}
use netproject_c.Lint.Patterns.{contains, matches, match_text, search_text}
use netproject_c.Lint.Cleansed.{CleansedLines}
use netproject_c.Lint.Report.{Report, report, when}

-- `match.group(2) or ''` is the text of the group.
string_report : ℕ → Text → Found → List Report
unfolding contains group_text
string_report linenum line m =
    if contains "\\bconst\\b" line
    then report linenum "runtime/string" 4 (
        text "For a static/global string constant, use a C style string instead: \""
        ++ group_text m 1
        ++ text "char"
        ++ group_text m 2
        ++ text " "
        ++ group_text m 3
        ++ text "[]\".")
      ∷ []
    else report linenum "runtime/string" 4
        (text "Static/global string variables are not permitted.")
      ∷ []

global_string : ℕ → Text → Option Found → List Report
unfolding string_report contains matches group_text
global_string linenum line none = []
global_string linenum line (some m) =
    if contains "\\bstring\\b(\\s+const)?\\s*[\\*\\&]\\s*(const\\s+)?\\w" line
      || contains "\\boperator\\W" line
      || matches "\\s*(<.*>)?(::[a-zA-Z0-9_]+)*\\s*\\(([^\"]|$)" (group_text m 4)
    then []
    else string_report linenum line m

unfoldable pub check_global_static : CleansedLines → ℕ → List Report
unfolding global_string match_text contains strip
check_global_static clean_lines linenum =
    let own = get_or clean_lines.elided linenum [] in
    let line =
      if ltb (linenum + 1) (length clean_lines.elided) && not (contains "[;({]" own)
      then own ++ strip (get_or clean_lines.elided (linenum + 1) [])
      else own in
    global_string linenum line (
      match_text "((?:|static +)(?:|const +))(?::*std::)?string( +const)? +([a-zA-Z0-9_:]+)\\b(.*)"
        line)
    ++ when
        (contains "\\b([A-Za-z0-9_]*_)\\(\\1\\)" line
          || contains "\\b([A-Za-z0-9_]*_)\\(CHECK_NOTNULL\\(\\1\\)\\)" line)
        (report linenum "runtime/init" 4
          (text "You seem to be initializing a member variable with itself."))

abbrev literal_size : ℕ → Option Found → List Report
literal_size linenum none = []
literal_size linenum (some m) = when (not (same (group_text m 2) (text "0"))) (
    report linenum "runtime/printf" 3 (
      text "If you can, use sizeof("
      ++ group_text m 1
      ++ text ") instead of "
      ++ group_text m 2
      ++ text " as the 2nd arg to snprintf."))

abbrev string_function : ℕ → Option Found → List Report
string_function linenum none = []
string_function linenum (some m) =
    report linenum "runtime/printf" 4
      (text "Almost always, snprintf is better than " ++ group_text m 1)
    ∷ []

unfoldable pub check_printf : CleansedLines → ℕ → List Report
unfolding search_text contains same group_text
check_printf clean_lines linenum =
    let line = get_or clean_lines.elided linenum [] in
    literal_size linenum (search_text "snprintf\\s*\\(([^,]*),\\s*([0-9]*)\\s*," line)
    ++ when (contains "\\bsprintf\\s*\\(" line)
        (report linenum "runtime/printf" 5 (text "Never use sprintf. Use snprintf instead."))
    ++ string_function linenum (search_text "\\b(strcpy|strcat)\\s*\\(" line)
