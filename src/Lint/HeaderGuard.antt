-- ===== src/Lint/HeaderGuard.antt =====
-- cpplint.py, `PathSplitToList`, `GetHeaderGuardCPPVariable` and `CheckForHeaderGuard`. The debugging
-- output of `_root_debug` is left out.
pub mod Name
use netproject_c.Prelude.{
  ℕ, zero, suc, ◌+◌, ◌-◌, Bool, true, false, not, ◌&&◌, ◌||◌, Option, none, some, List, [], ◌∷◌,
  ◌++◌, map, reverse, Text, text, String, ltb, leb, ◌==◌, if◌then◌else◌, get_or, length, take, drop,
  any, all, find, same, one_of, is_empty, strip, lstrip, words, lower, show, find_from, slice_from,
  occurs, is_some, join, count, starts_with, ends_with, is_space, replace, to_upper, line_before,
  split_path, join_path, dirname, split_extension, normal_path,
}
use netproject_c.Regex.{Found, group_text, group_of}
use netproject_c.Lint.Patterns.{
  contains, matches, match_text, search_text, match_pattern, replace_all, find_all, is_found,
}
use netproject_c.Lint.Settings.{
  Settings, get_line_width, is_header_extension, get_header_extensions, get_non_header_extensions,
}
use netproject_c.Lint.Files.{repository_name, full_name, base_name, extension}
use netproject_c.Lint.Cleansed.{CleansedLines, include_pattern}
use netproject_c.Lint.Report.{Report, report, when, Action, tell, nolint, tell_all}

-- The components of a path, the last one first; each round takes a character or more, so the length of
-- the path is fuel enough.
path_parts : ℕ → Text → List Text
unfolding split_path same
path_parts zero path = path ∷ []
path_parts (suc fuel) path =
    let (head, tail) = split_path path in
    let onward = tail ∷ path_parts fuel head in
    if same head path then head ∷ [] else if same tail path then tail ∷ [] else onward

unfoldable pub path_split_to_list : Text → List Text
unfolding path_parts
path_split_to_list path = reverse (path_parts (length path) path)

-- `StripListPrefix`
strip_list_prefix : List Text → List Text → Option (List Text)
unfolding same
strip_list_prefix lst [] = some lst
strip_list_prefix [] (p ∷ prefix) = none
strip_list_prefix (x ∷ lst) (p ∷ prefix) = if same x p then strip_list_prefix lst prefix else none

-- `os.path.join(*parts)`
join_parts : Text → List Text → Text
unfolding join_path
join_parts path [] = path
join_parts path (part ∷ parts) = join_parts (join_path path part) parts

-- `if maybe_path: return os.path.join(*maybe_path)`
joined_or : Option (List Text) → Text → Text
unfolding join_parts
joined_or none otherwise = otherwise
joined_or (some []) otherwise = otherwise
joined_or (some (part ∷ parts)) otherwise = join_parts part parts

-- `FixupPathFromRoot`
unfoldable pub fixup_path_from_root : Settings → Text → Text
unfolding repository_name full_name path_split_to_list strip_list_prefix joined_or
fixup_path_from_root settings filename =
    let file_path_from_root = repository_name settings filename in
    let root_parts = path_split_to_list settings.root in
    let outer_parts = path_split_to_list (settings.absolute_path settings.root) in
    if is_empty settings.root
    then file_path_from_root
    else joined_or (strip_list_prefix (path_split_to_list file_path_from_root) root_parts) (
        joined_or (strip_list_prefix (path_split_to_list (full_name settings filename)) outer_parts)
          file_path_from_root)

-- `re.sub(r'/\.flymake/([^/]*)$', r'/\1', filename)`
without_flymake_dir : Text → Option Found → Text
unfolding group_text
without_flymake_dir filename none = filename
without_flymake_dir filename (some m) =
    take m.start filename ++ text "/" ++ group_text m 1 ++ drop m.finish filename

original_name : Text → Text
unfolding without_flymake_dir replace_all search_text replace
original_name filename =
    let plain = replace_all "_flymake\\.h$" (text ".h") filename in
    replace (text "c++") (text "cpp") (
      replace (text "C++") (text "cpp")
        (without_flymake_dir plain (search_text "/\\.flymake/([^/]*)$" plain)))

unfoldable pub is_letter_or_digit : ℕ → Bool
is_letter_or_digit c =
    (leb b'a' c && leb c b'z') || (leb b'A' c && leb c b'Z') || (leb b'0' c && leb c b'9')

-- `re.sub(r'[^a-zA-Z0-9]', '_', path).upper()`
unfoldable pub guard_name : Text → Text
unfolding is_letter_or_digit to_upper
guard_name = map λ c. to_upper (if is_letter_or_digit c then c else b'_')

unfoldable pub get_header_guard_cpp_variable : Settings → Text → Text
unfolding guard_name fixup_path_from_root original_name
get_header_guard_cpp_variable settings filename =
    guard_name (fixup_path_from_root settings (original_name filename)) ++ text "_"

-- The names and lines that the loop over the lines has found; an empty text is none yet.
pub record Guard : Type 0 where
  pub ifndef : Text
  pub ifndef_linenum : ℕ
  pub define : Text
  pub endif : Text
  pub endif_linenum : ℕ

abbrev no_guard : Guard
no_guard = record { ifndef = []; ifndef_linenum = 0; define = []; endif = []; endif_linenum = 0 }

see_directive : Guard → ℕ → List Text → Guard
unfolding same
see_directive g linenum [] = g
see_directive g linenum (word ∷ []) = g
see_directive g linenum (word ∷ arg ∷ r) =
    let h =
      if is_empty g.ifndef && same word (text "#ifndef")
      then record g { ifndef = arg; ifndef_linenum = linenum }
      else g in
    if is_empty h.define && same word (text "#define") then record h { define = arg } else h

see_line : Guard → ℕ → Text → Guard
unfolding see_directive starts_with words
see_line g linenum line =
    let h = see_directive g linenum (words line) in
    if starts_with line (text "#endif")
    then record h { endif = line; endif_linenum = linenum }
    else h

see_lines : Guard → ℕ → List Text → Guard
unfolding see_line
see_lines g linenum [] = g
see_lines g linenum (line ∷ lines) = see_lines (see_line g linenum line) (linenum + 1) lines

-- The low-severity report for a double underscore at the end.
abbrev suffix_action : ℕ → Text → Found → List Action
suffix_action linenum message m =
    tell_all
      (when (same (group_text m 1) (text "_")) (report linenum "build/header_guard" 0 message))

abbrev line_comment : Text → Text
line_comment cppvar = text "#endif line should be \"#endif  // " ++ cppvar ++ text "\""

abbrev block_comment : Text → Text
block_comment cppvar = text "#endif line should be \"#endif  /* " ++ cppvar ++ text " */\""

has_line_comment : List Text → Bool
unfolding matches
has_line_comment raw_lines =
    any (matches "^(?:(?:'(?:\\.|[^'])*')|(?:\"(?:\\.|[^\"])*\")|[^'\"])*//")
      (take (length raw_lines - 2) (drop 1 raw_lines))

block_comment_actions : Text → Guard → Option Found → List Action
unfolding same group_text
block_comment_actions cppvar g none =
    tell (report g.endif_linenum "build/header_guard" 5 (line_comment cppvar)) ∷ []
block_comment_actions cppvar g (some m) = suffix_action g.endif_linenum (block_comment cppvar) m

endif_actions : List Text → Text → Guard → Option Found → List Action
unfolding block_comment_actions has_line_comment match_pattern same group_text
endif_actions raw_lines cppvar g (some m) = suffix_action g.endif_linenum (line_comment cppvar) m
endif_actions raw_lines cppvar g none = block_comment_actions cppvar g (
    if has_line_comment raw_lines
    then none
    else match_pattern (text "#endif\\s*/\\*\\s*" ++ cppvar ++ text "(_)?\\s*\\*/") g.endif)

wrong_style : List Text → Text → Guard → List Action
unfolding same
wrong_style raw_lines cppvar g =
    if same g.ifndef cppvar
    then []
    else nolint (get_or raw_lines g.ifndef_linenum []) g.ifndef_linenum
      ∷ tell (
          report g.ifndef_linenum "build/header_guard"
            (if same g.ifndef (cppvar ++ text "_") then 0 else 5)
            (text "#ifndef header guard has wrong style, please use: " ++ cppvar))
      ∷ []

guard_actions : List Text → Text → Guard → List Action
unfolding wrong_style endif_actions match_pattern same
guard_actions raw_lines cppvar g =
    if is_empty g.ifndef || is_empty g.define || not (same g.ifndef g.define)
    then tell (
        report 0 "build/header_guard" 5
          (text "No #ifndef header guard found, suggested CPP variable is: " ++ cppvar))
      ∷ []
    else wrong_style raw_lines cppvar g
      ++ nolint (get_or raw_lines g.endif_linenum []) g.endif_linenum
        ∷ endif_actions raw_lines cppvar g
            (match_pattern (text "#endif\\s*//\\s*" ++ cppvar ++ text "(_)?\\b") g.endif)

unfoldable pub check_for_header_guard : Settings → Text → CleansedLines → List Action
unfolding guard_actions see_lines get_header_guard_cpp_variable contains
check_for_header_guard settings filename clean_lines =
    let raw_lines = clean_lines.lines_without_raw_strings in
    if any (contains "//\\s*NOLINT\\(build/header_guard\\)") raw_lines
      || any (contains "^\\s*#pragma\\s+once") raw_lines
    then []
    else guard_actions raw_lines (get_header_guard_cpp_variable settings filename)
        (see_lines no_guard 0 raw_lines)
