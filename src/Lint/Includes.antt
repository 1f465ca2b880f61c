-- ===== src/Lint/Includes.antt =====
-- cpplint.py, `CheckIncludeLine` and `CheckHeaderFileIncluded`.
pub mod CppHeaders
pub mod Classify
pub mod Entered
use netproject_c.Prelude.{
  ℕ, zero, suc, ◌+◌, ◌-◌, Bool, true, false, not, ◌&&◌, ◌||◌, Option, none, some, List, [], ◌∷◌,
  ◌++◌, map, reverse, Text, text, String, ltb, leb, ◌==◌, if◌then◌else◌, get_or, length, take, drop,
  any, all, find, same, one_of, is_empty, strip, lstrip, words, lower, show, find_from, slice_from,
  occurs, is_some, join, count, starts_with, ends_with, is_space, replace, to_upper, line_before,
  split_path, join_path, dirname, split_extension, normal_path,
}
use netproject_c.Regex.{Found, group_text, group_of}
use netproject_c.Lint.Patterns.{
  contains, matches, match_text, search_text, match_pattern, replace_all, find_all, is_found,
}
use netproject_c.Lint.Settings.{
  Settings, get_line_width, is_header_extension, get_header_extensions, get_non_header_extensions,
}
use netproject_c.Lint.Files.{repository_name, full_name, base_name, extension}
use netproject_c.Lint.Cleansed.{CleansedLines, include_pattern}
use netproject_c.Lint.Report.{Report, report, when, Action, tell, nolint, tell_all}
use netproject_c.Lint.IncludeState.{
  IncludeState, Include, HeaderType, c_sys_header, cpp_sys_header, likely_my_header,
  possible_my_header, other_header, find_header, append_last, check_next_include_order,
  canonicalize_alphabetical_order, is_in_alphabetical_order, set_last_header,
}
use netproject_c.Lint.Includes.CppHeaders.{cpp_headers}
use netproject_c.Lint.Includes.Classify.{classify_include}

pub third_party : Text → Bool
unfolding matches
third_party = matches "^(?:[^/]*[A-Z][^/]*\\.h|lua\\.h|lauxlib\\.h|lualib\\.h)$"

without_directory : ℕ → Option Found → List Report
unfolding third_party group_text
without_directory linenum none = []
without_directory linenum (some m) =
    when (not (third_party (group_text m 1)))
      (report linenum "build/include_subdir" 4 (text "Include the directory when naming .h files"))

-- The name of the header that goes with a source file, for an extension.
header_file : Settings → Text → Text → Text
unfolding extension
header_file settings filename ext =
    take (length filename - length (extension settings filename)) filename ++ text "." ++ ext

pub is_own_header : Settings → Text → Text → Bool
unfolding header_file repository_name get_header_extensions occurs
is_own_header settings filename include =
    any
      (λ ext.
        let headername = repository_name settings (header_file settings filename ext) in
        occurs headername include || occurs include headername)
      (get_header_extensions settings)

-- The first extension for which a source file of another package is included.
pub foreign_source : Settings → Text → Text → List Text → Option Text
unfolding ends_with dirname repository_name same
foreign_source settings filename include [] = none
foreign_source settings filename include (ext ∷ exts) =
    let later = foreign_source settings filename include exts in
    if ends_with include (text "." ++ ext)
      && not (same (dirname (repository_name settings filename)) (dirname include))
    then some ext
    else later

-- The header is entered, and its place in the order is looked at.
unfoldable pub enter_include :
    Settings
    → Text
    → CleansedLines
    → ℕ
    → IncludeState
    → Text
    → HeaderType
    → IncludeState × List Report
unfolding line_before base_name
enter_include settings filename clean_lines linenum state include header_type =
    let entered = record state {
      include_list = append_last (include, linenum) state.include_list;
    } in
    let ordered = check_next_include_order entered header_type in
    let canonical_include = canonicalize_alphabetical_order include in
    (
      set_last_header ordered.0 canonical_include,
      when (not (is_empty ordered.1)) (
            report linenum "build/include_order" 4 (
              ordered.1
              ++ text ". Should be: "
              ++ base_name settings filename
              ++ text ".h, c system, c++ system, other."))
          ++ when
              (not (
                is_in_alphabetical_order ordered.0 (line_before clean_lines.elided linenum)
                  canonical_include))
              (report linenum "build/include_alpha" 4
                (text "Include \"" ++ include ++ text "\" not in alphabetical order")),
    )

pub new_include :
    Settings
    → Text
    → CleansedLines
    → ℕ
    → IncludeState
    → Text
    → Bool
    → Option Text
    → IncludeState × List Report
unfolding enter_include classify_include is_own_header third_party
new_include settings filename clean_lines linenum state include is_system (some ext) = (
  state,
  report linenum "build/include" 4
        (text "Do not include ." ++ ext ++ text " files from other packages")
      ∷ [],
)
new_include settings filename clean_lines linenum state include is_system none =
    if is_own_header settings filename include || not (third_party include)
    then enter_include settings filename clean_lines linenum state include
        (classify_include settings filename include is_system)
    else (state, [])

unfoldable pub take_include :
    Settings
    → Text
    → CleansedLines
    → ℕ
    → IncludeState
    → Text
    → Bool
    → Option ℕ
    → IncludeState × List Report
unfolding new_include foreign_source get_non_header_extensions show
take_include settings filename clean_lines linenum state include is_system (some duplicate_line) = (
  state,
  report linenum "build/include" 4 (
        text "\""
        ++ include
        ++ text "\" already included at "
        ++ filename
        ++ text ":"
        ++ show duplicate_line)
      ∷ [],
)
take_include settings filename clean_lines linenum state include is_system none =
    new_include settings filename clean_lines linenum state include is_system
      (foreign_source settings filename include (get_non_header_extensions settings))

matched_include :
    Settings → Text → CleansedLines → ℕ → IncludeState → Option Found → IncludeState × List Report
unfolding take_include group_text same
matched_include settings filename clean_lines linenum state none = (state, [])
matched_include settings filename clean_lines linenum state (some m) =
    take_include settings filename clean_lines linenum state (group_text m 2)
      (same (group_text m 1) (text "<")) (find_header state (group_text m 2))

unfoldable pub check_include_line :
    Settings → Text → CleansedLines → ℕ → IncludeState → IncludeState × List Report
unfolding matched_include without_directory match_text search_text
check_include_line settings filename clean_lines linenum state =
    let line = get_or clean_lines.lines linenum [] in
    let taken =
      matched_include settings filename clean_lines linenum state
        (search_text "^\\s*#\\s*include\\s*([<\"])([^>\"]*)[>\"].*$" line) in
    (taken.0, without_directory linenum (match_text "#include\\s*\"([^/]+\\.h)\"" line) ++ taken.1)

-- The scan of the includes for a header: whether it is there, and otherwise `first_include`, which is
-- `None` at first and is replaced as long as it is `None` or 0.
scan_includes : Text → Option ℕ → List Include → Option (Option ℕ)
unfolding occurs
scan_includes headername first [] = some first
scan_includes headername first (f ∷ fs) =
    let next : Option ℕ = elim first [
      | none ↦ some f.1
      | some n ↦ (if n == 0 then some f.1 else some n)
    ] in
    let onward = scan_includes headername next fs in
    if occurs headername f.0 || occurs f.0 headername then none else onward

flatten : List (List Include) → List Include
flatten [] = []
flatten (s ∷ ss) = s ++ flatten ss

-- The reports of `CheckHeaderFileIncluded`, all of category `build/include` and confidence 5: the line,
-- which is `None` in a file with no include, and the message.
abbrev Missing : Type 0
Missing = Option ℕ × Text

missing_headers : Settings → Text → IncludeState → List Text → List Missing
unfolding scan_includes flatten header_file repository_name
missing_headers settings filename state [] = []
missing_headers settings filename state (ext ∷ exts) =
    let headerfile = header_file settings filename ext in
    let headername = repository_name settings headerfile in
    let later = missing_headers settings filename state exts in
    let scanned : List Missing = elim (scan_includes headername none (flatten state.include_list)) [
      | none ↦ []
      | some first ↦
          (
            first,
            repository_name settings filename
                ++ text " should include its header file "
                ++ headername,
          )
          ∷ later
    ] in
    if not (settings.exists headerfile) then later else scanned

check_header_file_included : Settings → Text → IncludeState → List Missing
unfolding missing_headers base_name get_header_extensions contains
check_header_file_included settings filename state =
    if contains "(_test|_regtest|_unittest)$" (base_name settings filename)
    then []
    else missing_headers settings filename state (get_header_extensions settings)
