-- ===== src/Lint/Config.antt =====
-- cpplint.py, `ProcessConfigOverrides`: what the files named CPPLINT.cfg above a file change, and the
-- messages of a run, `PrintInfo` and `PrintError`.
pub mod Filters
pub mod Climb
use netproject_c.Prelude.{
  ℕ, zero, suc, ◌+◌, ◌-◌, Bool, true, false, not, ◌&&◌, ◌||◌, Option, none, some, List, [], ◌∷◌,
  ◌++◌, map, reverse, Text, text, String, ltb, leb, ◌==◌, if◌then◌else◌, get_or, length, take, drop,
  any, all, find, same, one_of, is_empty, strip, lstrip, words, lower, show, find_from, slice_from,
  occurs, is_some, join, count, starts_with, ends_with, is_space, replace, to_upper, line_before,
  split_path, join_path, dirname, split_extension, normal_path,
}
use netproject_c.Regex.{Found, group_text, group_of}
use netproject_c.Lint.Patterns.{
  contains, matches, match_text, search_text, match_pattern, replace_all, find_all, is_found,
}
use netproject_c.Lint.Settings.{
  Settings, get_line_width, is_header_extension, get_header_extensions, get_non_header_extensions,
}
use netproject_c.Lint.Files.{repository_name, full_name, base_name, extension}
use netproject_c.Lint.Cleansed.{CleansedLines, include_pattern}
use netproject_c.Lint.Report.{Report, report, when, Action, tell, nolint, tell_all}
use netproject_c.Lint.State.{CppLintState, add_filters}
use netproject_c.Lint.Settings.{process_extensions_option, process_hpp_headers_option}

-- The global state of a run: the settings, `_cpplint_state` with its list of junit errors, and what has
-- been written to the two streams.
pub record Session : Type 0 where
  pub settings : Settings
  pub state : CppLintState
  pub junit_errors : List Text
  pub stdout : List Text
  pub stderr : List Text

-- `_quiet` is the constant `False`.
print_info : Session → Text → Session
unfolding same
print_info session message =
    if same session.state.output_format (text "junit")
    then session
    else record session { stdout = session.stdout ++ message ∷ [] }

print_error : Session → Text → Session
unfolding same
print_error session message =
    if same session.state.output_format (text "junit")
    then record session { junit_errors = session.junit_errors ++ message ∷ [] }
    else record session { stderr = session.stderr ++ message ∷ [] }

-- What a configuration file is read with: its lines, where the outer `none` says that there is no such
-- file and the inner one that it cannot be opened; `re` on a pattern of the file; and `int`, with `none`
-- for a `ValueError`.
pub record Outside : Type 0 where
  pub config : Text → Option (Option (List Text))
  pub matches_name : Text → Text → Bool
  pub int : Text → Option ℕ

-- `s.partition(c)`: the parts before and behind the first `c`
before_char : ℕ → Text → Text
before_char c [] = []
before_char c (x ∷ s) = let rest = before_char c s in if x == c then [] else x ∷ rest

behind_char : ℕ → Text → Text
behind_char c [] = []
behind_char c (x ∷ s) = let rest = behind_char c s in if x == c then s else rest

-- The session, whether the search goes on above, and the filters so far, the last one first.
pub record Progress : Type 0 where
  pub session : Session
  pub keep_looking : Bool
  pub cfg_filters : List Text

abbrev set_settings : Progress → Settings → Progress
set_settings p settings = record p { session = record p.session { settings = settings } }

abbrev complain : Progress → Text → Progress
complain p message = record p { session = print_error p.session message }

line_length_option : Progress → Option ℕ → Progress
unfolding print_error
line_length_option p none = complain p (text "Line length must be numeric.")
line_length_option p (some n) = set_settings p (record p.session.settings { line_length = n })

-- An option that is not `exclude_files`.
apply_option : Outside → Text → Text → Text → Progress → Progress
unfolding same join_path dirname line_length_option print_error
apply_option outside cfg_file name val p =
    if same name (text "set noparent")
    then record p { keep_looking = false }
    else if same name (text "filter")
    then record p { cfg_filters = val ∷ p.cfg_filters }
    else if same name (text "linelength")
    then line_length_option p (outside.int val)
    else if same name (text "extensions")
    then set_settings p (process_extensions_option p.session.settings val)
    else if same name (text "root")
    then set_settings p (record p.session.settings { root = join_path (dirname cfg_file) val })
    else if same name (text "headers")
    then set_settings p (process_hpp_headers_option p.session.settings val)
    else complain p (
        text "Invalid configuration option (" ++ name ++ text ") in file " ++ cfg_file ++ text "\n")

-- The message for a file that is left out, unless the run is quiet.
ignored : Text → Text → Text → Text → Session → Session
unfolding print_info
ignored filename cfg_file base_name val session =
    if session.state.quiet
    then session
    else print_info session (
        text "Ignoring \""
        ++ filename
        ++ text "\": file excluded by \""
        ++ cfg_file
        ++ text "\". File path component \""
        ++ base_name
        ++ text "\" matches pattern \""
        ++ val
        ++ text "\"\n")

-- What the reading of a file ends with: the file that is checked is left out, or the search goes on.
pub data Reading : Type 0 where
  excluded : Session → Reading
  going : Progress → Reading

apply_line : Outside → Text → Text → Text → Text → Text → Progress → Reading
unfolding same apply_option ignored
apply_line outside filename cfg_file base_name name val p =
    if same name (text "exclude_files")
    then (if outside.matches_name val base_name
        then excluded (ignored filename cfg_file base_name val p.session)
        else going p)
    else going (apply_option outside cfg_file name val p)

config_lines : Outside → Text → Text → Text → List Text → Progress → Reading
unfolding apply_line before_char behind_char strip
config_lines outside filename cfg_file base_name [] p = going p
config_lines outside filename cfg_file base_name (raw ∷ lines) p =
    let line = before_char b'#' raw in
    let name = strip (before_char b'=' line) in
    let val = strip (behind_char b'=' line) in
    let step =
      if is_empty (strip line)
      then going p
      else apply_line outside filename cfg_file base_name name val p in
    elim step [
      | excluded session ↦ excluded session
      | going p' ↦ config_lines outside filename cfg_file base_name lines p'
    ]

config_file : Outside → Text → Text → Text → Option (List Text) → Progress → Reading
unfolding config_lines print_error
config_file outside filename cfg_file base_name none p =
    going
      (record (complain p
        (text "Skipping config file '" ++ cfg_file ++ text "': Can't open for reading\n")) {
          keep_looking = false;
        })
config_file outside filename cfg_file base_name (some lines) p =
    config_lines outside filename cfg_file base_name lines p

-- One round of the loop up the directories, at the file `cfg_file`; `onward` is the rounds that follow.
look_in : Outside → Text → Text → Text → (Progress → Reading) → Progress → Reading
unfolding config_file
look_in outside filename base_name cfg_file onward p =
    let found : Reading = elim (outside.config cfg_file) [
      | none ↦ onward p
      | some contents ↦ elim (config_file outside filename cfg_file base_name contents p) [
        | excluded session ↦ excluded session
        | going p' ↦ if p'.keep_looking then onward p' else going p'
      ]
    ] in
    if is_empty base_name then going p else found

-- The rounds that are left are fuel.
unfoldable pub search_configs : ℕ → Outside → Text → Text → Progress → Reading
unfolding look_in split_path join_path
search_configs zero outside filename abs_filename p = going p
search_configs (suc fuel) outside filename abs_filename p =
    let (abs_path, base_name) = split_path abs_filename in
    look_in outside filename base_name (join_path abs_path (text "CPPLINT.cfg"))
      (λ p'. search_configs fuel outside filename abs_path p') p

-- The result: `return False`, `return True`, or the `ValueError` of a filter with no sign.
pub data Overrides : Type 0 where
  left_out : Session → Overrides
  accepted : Session → Overrides
  refused : Session → Text → Overrides

-- Behind one addition: the rest of the loop, unless an error is raised.
unfoldable pub after_addition : (Session → Overrides) → Session → Option Text → Overrides
after_addition onward session none = onward session
after_addition onward session (some f) = refused session f

unfoldable pub add_config_filters : List Text → Session → Overrides
unfolding after_addition
add_config_filters [] session = accepted session
add_config_filters (cfg_filter ∷ cfg_filters) session =
    let (state, error) = add_filters session.state cfg_filter in
    after_addition (add_config_filters cfg_filters) (record session { state = state }) error

unfoldable pub process_config_overrides : Outside → Text → Session → Overrides
unfolding search_configs add_config_filters
process_config_overrides outside filename session =
    let abs_filename = session.settings.absolute_path filename in
    elim (search_configs (length abs_filename + 1) outside filename abs_filename
      (record { session = session; keep_looking = true; cfg_filters = [] })) [
        | excluded s ↦ left_out s
        | going p ↦ add_config_filters p.cfg_filters p.session
      ]
