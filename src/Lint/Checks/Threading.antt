-- ===== src/Lint/Checks/Threading.antt =====
-- cpplint.py, checks that look for a pattern in one line: `CheckForMultilineCommentsAndStrings`,
-- `CheckPosixThreading`, `CheckVlogArguments`, `CheckInvalidIncrement`, `IsMacroDefinition` and
-- `IsForwardClassDeclaration`. A line out of range is the empty text.
use netproject_c.Prelude.{
  ℕ, zero, suc, ◌+◌, ◌%◌, Bool, ◌||◌, List, [], ◌∷◌, ◌++◌, Text, text, ltb, ◌==◌, if◌then◌else◌,
  get_or, count, replace, String,
}
use netproject_c.Lint.Patterns.{contains, matches, search_pattern, is_found}
use netproject_c.Lint.Cleansed.{CleansedLines}
use netproject_c.Lint.Report.{Report, report}

-- The quotes that no backslash stands before, as a difference of two counts; it is odd when the sum
-- is.
abbrev odd_quotes : Text → Bool
unfolding count
odd_quotes line = (count (text "\"") line + count (text "\\\"") line) % 2 == 1

pub check_for_multiline_comments_and_strings : CleansedLines → ℕ → List Report
unfolding replace count
check_for_multiline_comments_and_strings clean_lines linenum =
    let line = replace (text "\\\\") [] (get_or clean_lines.elided linenum []) in
    (if ltb (count (text "*/") line) (count (text "/*") line)
      then report linenum "readability/multiline_comment" 5 (
          text "Complex multi-line /*...*/-style comment found. "
          ++ text "Lint may give bogus warnings.  "
          ++ text "Consider replacing these with //-style comments, "
          ++ text "with #if 0...#endif, "
          ++ text "or with more clearly structured multi-line comments.")
        ∷ []
      else [])
    ++ (if odd_quotes line
        then report linenum "readability/multiline_string" 5 (
            text "Multi-line string (\"...\") found.  This lint script doesn't "
            ++ text "do well with such strings, and may give bogus warnings.  "
            ++ text "Use C++11 raw strings or concatenation instead.")
          ∷ []
        else [])

-- The name, the alternative, and the pattern behind the prefix.
abbrev ThreadingRow : Type 0
ThreadingRow = Text × Text × Text

abbrev unsafe_func_prefix : Text
unsafe_func_prefix = text "(?:[-+*/=%^&|(<]\\s*|>\\s+)"

abbrev row : String → String → String → ThreadingRow
row name safe pattern = (text name, text safe, unsafe_func_prefix ++ text pattern)

pub threading_list : List ThreadingRow
threading_list =
    row "asctime(" "asctime_r(" "asctime\\([^)]+\\)"
    ∷ row "ctime(" "ctime_r(" "ctime\\([^)]+\\)"
    ∷ row "getgrgid(" "getgrgid_r(" "getgrgid\\([^)]+\\)"
    ∷ row "getgrnam(" "getgrnam_r(" "getgrnam\\([^)]+\\)"
    ∷ row "getlogin(" "getlogin_r(" "getlogin\\(\\)"
    ∷ row "getpwnam(" "getpwnam_r(" "getpwnam\\([^)]+\\)"
    ∷ row "getpwuid(" "getpwuid_r(" "getpwuid\\([^)]+\\)"
    ∷ row "gmtime(" "gmtime_r(" "gmtime\\([^)]+\\)"
    ∷ row "localtime(" "localtime_r(" "localtime\\([^)]+\\)"
    ∷ row "rand(" "rand_r(" "rand\\(\\)"
    ∷ row "strtok(" "strtok_r(" "strtok\\([^)]+\\)"
    ∷ row "ttyname(" "ttyname_r(" "ttyname\\([^)]+\\)"
    ∷ []

posix_threading : List ThreadingRow → ℕ → Text → List Report
unfolding search_pattern
posix_threading [] linenum line = []
posix_threading ((single_thread_func, multithread_safe_func, pattern) ∷ rows) linenum line =
    let later = posix_threading rows linenum line in
    if is_found (search_pattern pattern line)
    then report linenum "runtime/threadsafe_fn" 2 (
        text "Consider using "
        ++ multithread_safe_func
        ++ text "...) instead of "
        ++ single_thread_func
        ++ text "...) for improved thread safety.")
      ∷ later
    else later

unfoldable pub check_posix_threading : CleansedLines → ℕ → List Report
unfolding posix_threading threading_list
check_posix_threading clean_lines linenum =
    posix_threading threading_list linenum (get_or clean_lines.elided linenum [])

pub check_vlog_arguments : CleansedLines → ℕ → List Report
unfolding contains
check_vlog_arguments clean_lines linenum =
    if contains "\\bVLOG\\((INFO|ERROR|WARNING|DFATAL|FATAL)\\)"
      (get_or clean_lines.elided linenum [])
    then report linenum "runtime/vlog" 5 (
        text "VLOG() should be used with numeric verbosity level.  "
        ++ text "Use LOG() if you want symbolic severity levels.")
      ∷ []
    else []

unfoldable pub check_invalid_increment : CleansedLines → ℕ → List Report
unfolding matches
check_invalid_increment clean_lines linenum =
    if matches "^\\s*\\*\\w+(\\+\\+|--);" (get_or clean_lines.elided linenum [])
    then report linenum "runtime/invalid_increment" 5
        (text "Changing pointer instead of value (or unused value of operator*).")
      ∷ []
    else []

pub is_macro_definition : List Text → ℕ → Bool
unfolding contains
is_macro_definition clean_lines zero = contains "^#define" (get_or clean_lines 0 [])
is_macro_definition clean_lines (suc previous) =
    contains "^#define" (get_or clean_lines (suc previous) [])
    || contains "\\\\$" (get_or clean_lines previous [])

pub is_forward_class_declaration : List Text → ℕ → Bool
unfolding matches
is_forward_class_declaration clean_lines linenum =
    matches "^\\s*(\\btemplate\\b)*.*class\\s+\\w+;\\s*$" (get_or clean_lines linenum [])
