-- ===== src/Lint/Checks/Dialect.antt =====
-- cpplint.py, checks of the dialect of C++: `FlagCxx11Features`, `FlagCxx14Features`,
-- `CheckMakePairUsesDeduction` and `CheckRedundantOverrideOrFinal`.
use netproject_c.Prelude.{
  ℕ, ◌-◌, Bool, not, ◌&&◌, Option, none, some, List, [], ◌∷◌, ◌++◌, Text, text, ltb, ◌==◌,
  if◌then◌else◌, get_or, one_of, starts_with, any,
}
use netproject_c.Regex.{Found, group_text}
use netproject_c.Lint.Patterns.{contains, matches, match_text, search_pattern, is_found}
use netproject_c.Lint.Cleansed.{CleansedLines}
use netproject_c.Lint.Report.{Report, report}

-- `re.match(r'\s*#\s*include\s+[<"]([^<"]+)[">]', line)`
abbrev included_header : Text → Option Found
unfolding match_text
included_header = match_text "\\s*#\\s*include\\s+[<\"]([^<\"]+)[\">]"

abbrev cxx11_headers : List Text
cxx11_headers =
    text "cfenv"
    ∷ text "condition_variable"
    ∷ text "fenv.h"
    ∷ text "future"
    ∷ text "mutex"
    ∷ text "thread"
    ∷ text "chrono"
    ∷ text "ratio"
    ∷ text "regex"
    ∷ text "system_error"
    ∷ []

cxx11_header_reports : ℕ → Option Found → List Report
unfolding group_text starts_with one_of
cxx11_header_reports linenum none = []
cxx11_header_reports linenum (some m) =
    (if starts_with (group_text m 1) (text "tr1/")
      then report linenum "build/c++tr1" 5
          (text "C++ TR1 headers such as <" ++ group_text m 1 ++ text "> are unapproved.")
        ∷ []
      else [])
    ++ (if one_of (group_text m 1) cxx11_headers
        then report linenum "build/c++11" 5
            (text "<" ++ group_text m 1 ++ text "> is an unapproved C++11 header.")
          ∷ []
        else [])

abbrev top_names : List Text
top_names = text "alignment_of" ∷ text "aligned_union" ∷ []

top_name_reports : ℕ → Text → List Text → List Report
unfolding search_pattern
top_name_reports linenum line [] = []
top_name_reports linenum line (top_name ∷ names) =
    let later = top_name_reports linenum line names in
    if is_found (search_pattern (text "\\bstd::" ++ top_name ++ text "\\b") line)
    then report linenum "build/c++11" 5 (
        text "std::"
        ++ top_name
        ++ text " is an unapproved C++11 class or function.  Send c-style "
        ++ text "an example of where it would make your code more readable, and "
        ++ text "they may let you use it.")
      ∷ later
    else later

unfoldable pub flag_cxx11_features : CleansedLines → ℕ → List Report
unfolding cxx11_header_reports top_name_reports matches included_header
flag_cxx11_features clean_lines linenum =
    let line = get_or clean_lines.elided linenum [] in
    cxx11_header_reports linenum (included_header line)
    ++ (if matches "\\s*#" line && not (matches "\\s*#\\s*define\\b" line)
        then []
        else top_name_reports linenum line top_names)

cxx14_header_reports : ℕ → Option Found → List Report
unfolding group_text one_of
cxx14_header_reports linenum none = []
cxx14_header_reports linenum (some m) =
    if one_of (group_text m 1) (text "scoped_allocator" ∷ text "shared_mutex" ∷ [])
    then report linenum "build/c++14" 5
        (text "<" ++ group_text m 1 ++ text "> is an unapproved C++14 header.")
      ∷ []
    else []

pub flag_cxx14_features : CleansedLines → ℕ → List Report
unfolding cxx14_header_reports included_header
flag_cxx14_features clean_lines linenum =
    cxx14_header_reports linenum (included_header (get_or clean_lines.elided linenum []))

pub check_make_pair_uses_deduction : CleansedLines → ℕ → List Report
unfolding contains
check_make_pair_uses_deduction clean_lines linenum =
    if contains "\\bmake_pair\\s*<" (get_or clean_lines.elided linenum [])
    then report linenum "build/explicit_make_pair" 4 (
        text "For C++11-compatibility, omit template arguments from make_pair"
        ++ text " OR use pair directly OR if appropriate, construct a pair directly")
      ∷ []
    else []

abbrev closes : Text → Bool
closes line = any (λ c. c == b')') line

-- `line[line.rfind(')'):]`, for a line that has a `)`
from_last_close : Text → Text
from_last_close [] = []
from_last_close (c ∷ s) =
    let rest = from_last_close s in if c == b')' && not (closes s) then c ∷ s else rest

-- The text in which the specifiers are looked for, if any.
fragment_of : List Text → ℕ → Option Text
unfolding from_last_close
fragment_of elided linenum =
    let line = get_or elided linenum [] in
    if closes line
    then some (from_last_close line)
    else if ltb 1 linenum && closes (get_or elided (linenum - 1) [])
    then some line
    else none

redundant : ℕ → Option Text → List Report
unfolding contains
redundant linenum none = []
redundant linenum (some fragment) =
    if contains "\\boverride\\b" fragment && contains "\\bfinal\\b" fragment
    then report linenum "readability/inheritance" 4 (
        text "\"override\" is redundant since function is " ++ text "already declared as \"final\"")
      ∷ []
    else []

unfoldable pub check_redundant_override_or_final : CleansedLines → ℕ → List Report
unfolding redundant fragment_of
check_redundant_override_or_final clean_lines linenum =
    redundant linenum (fragment_of clean_lines.elided linenum)
