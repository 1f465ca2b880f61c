-- ===== src/Lint/Required.antt =====
-- cpplint.py, `UpdateIncludeState` and `CheckForIncludeWhatYouUse`. A dictionary is the list of its
-- entries in the order in which the keys came in.
pub mod Tables
pub mod Modules
pub mod Inside
pub mod Order
pub mod Permuted
use netproject_c.Prelude.{
  ℕ, zero, suc, ◌+◌, ◌-◌, Bool, true, false, not, ◌&&◌, ◌||◌, Option, none, some, List, [], ◌∷◌,
  ◌++◌, map, reverse, Text, text, String, ltb, leb, ◌==◌, if◌then◌else◌, get_or, length, take, drop,
  any, all, find, same, one_of, is_empty, strip, lstrip, words, lower, show, find_from, slice_from,
  occurs, is_some, join, count, starts_with, ends_with, is_space, replace, to_upper, line_before,
  split_path, join_path, dirname, split_extension, normal_path,
}
use netproject_c.Regex.{Found, group_text, group_of}
use netproject_c.Lint.Patterns.{
  contains, matches, match_text, search_text, match_pattern, replace_all, find_all, is_found,
}
use netproject_c.Lint.Settings.{
  Settings, get_line_width, is_header_extension, get_header_extensions, get_non_header_extensions,
}
use netproject_c.Lint.Files.{repository_name, full_name, base_name, extension}
use netproject_c.Lint.Cleansed.{CleansedLines, include_pattern}
use netproject_c.Lint.Report.{Report, report, when, Action, tell, nolint, tell_all}
use netproject_c.Prelude.{text_lt}
use netproject_c.Lint.Patterns.{search_pattern}
use netproject_c.Lint.IncludeState.{IncludeState, Include}
use netproject_c.Lint.Comments.{cleanse_comments}
use netproject_c.Lint.Required.Tables.{
  Pattern, re_pattern_headers_maybe_templates, re_pattern_templates,
}
use netproject_c.Lint.Required.Modules.{files_belong_to_same_module}

-- `required[header] = (linenum, template)`
pub record Need : Type 0 where
  pub header : Text
  pub linenum : ℕ
  pub template : Text

unfoldable pub require : Need → List Need → List Need
unfolding same
require n [] = n ∷ []
require n (m ∷ ms) = if same m.header n.header then n ∷ ms else m ∷ require n ms

-- Not in a namespace other than `std`.
in_std : Text → Bool
unfolding ends_with
in_std prefix = ends_with prefix (text "std::") || not (ends_with prefix (text "::"))

need_string : ℕ → Text → Option Found → List Need → List Need
unfolding require in_std
need_string linenum line none needs = needs
need_string linenum line (some m) needs =
    if in_std (take m.start line)
    then require (record { header = text "<string>"; linenum = linenum; template = text "string" })
        needs
    else needs

need_of : ℕ → Pattern → Need
need_of linenum p = record { header = p.header; linenum = linenum; template = p.template }

need_maybe : ℕ → Text → List Pattern → List Need → List Need
unfolding require search_pattern need_of
need_maybe linenum line [] needs = needs
need_maybe linenum line (p ∷ ps) needs =
    need_maybe linenum line ps (
      if is_found (search_pattern p.pattern line) then require (need_of linenum p) needs else needs)

need_templates : ℕ → Text → List Pattern → List Need → List Need
unfolding require search_pattern need_of in_std
need_templates linenum line [] needs = needs
need_templates linenum line (p ∷ ps) needs =
    need_templates linenum line ps (elim (search_pattern p.pattern line) [
      | none ↦ needs
      | some m ↦ if in_std (take m.start line) then require (need_of linenum p) needs else needs
    ])

abbrev begins_with_hash : Text → Bool
begins_with_hash [] = false
begins_with_hash (c ∷ s) = c == b'#'

needs_of_line : ℕ → Text → List Need → List Need
unfolding need_string need_maybe need_templates search_text occurs
needs_of_line linenum line needs =
    let named =
      need_maybe linenum line re_pattern_headers_maybe_templates
        (need_string linenum line (search_text "\\bstring\\b" line) needs) in
    if is_empty line || begins_with_hash line
    then needs
    else if not (occurs (text "<") line)
    then named
    else need_templates linenum line re_pattern_templates named

unfoldable pub needs_from : ℕ → List Text → List Need → List Need
unfolding needs_of_line
needs_from linenum [] needs = needs
needs_from linenum (line ∷ lines) needs =
    needs_from (linenum + 1) lines (needs_of_line linenum line needs)

-- `include_dict[include] = linenum`
put : Include → List Include → List Include
unfolding same
put f [] = f ∷ []
put f (g ∷ gs) = if same g.0 f.0 then f ∷ gs else g ∷ put f gs

-- `dict([item for sublist in include_list for item in sublist])`
put_all : List Include → List Include → List Include
unfolding put
put_all [] dict = dict
put_all (f ∷ fs) dict = put_all fs (put f dict)

flattened : List (List Include) → List Include → List Include
unfolding put_all
flattened [] dict = dict
flattened (s ∷ ss) dict = flattened ss (put_all s dict)

abbrev key_of : Include → Text
key_of f = f.0

-- `include_dict.setdefault(include, linenum)`
set_default : Include → List Include → List Include
unfolding one_of
set_default f dict = if one_of f.0 (map key_of dict) then dict else dict ++ f ∷ []

enter_match : ℕ → Option Found → List Include → List Include
unfolding set_default group_text
enter_match linenum none dict = dict
enter_match linenum (some m) dict = set_default (group_text m 2, linenum) dict

enter_lines : ℕ → List Text → List Include → List Include
unfolding enter_match search_text cleanse_comments
enter_lines linenum [] dict = dict
enter_lines linenum (line ∷ lines) dict = enter_lines (linenum + 1) lines (
    enter_match linenum
      (search_text "^\\s*#\\s*include\\s*([<\"])([^>\"]*)[>\"].*$" (cleanse_comments line)) dict)

-- `io.open` is the first parameter: the lines of a file, each with its newline, or `none` for an
-- `IOError`.
unfoldable pub update_include_state :
    (Text → Option (List Text)) → Text → List Include → List Include × Bool
unfolding enter_lines
update_include_state open_file filename include_dict = elim (open_file filename) [
  | none ↦ (include_dict, false)
  | some lines ↦ (enter_lines 1 lines include_dict, true)
]

-- The loop over the keys: the dictionary, and whether a header has been found.
own_headers :
    (Text → Option (List Text))
    → Settings
    → Text
    → List Text
    → List Include × Bool
    → List Include × Bool
unfolding update_include_state files_belong_to_same_module
own_headers open_file settings abs_filename [] found = found
own_headers open_file settings abs_filename (header ∷ headers) (dict, header_found) =
    let (same_module, common_path) = files_belong_to_same_module settings abs_filename header in
    let (dict', loaded) = update_include_state open_file (common_path ++ header) dict in
    own_headers open_file settings abs_filename headers
      (if same_module then (dict', header_found || loaded) else (dict, header_found))

-- `sorted(required, key=required.__getitem__)`: by line and template, equal ones in their order
need_lt : Need → Need → Bool
unfolding text_lt
need_lt a b = ltb a.linenum b.linenum || (a.linenum == b.linenum && text_lt a.template b.template)

insert_need : Need → List Need → List Need
unfolding need_lt
insert_need n [] = n ∷ []
insert_need n (m ∷ ms) = if need_lt m n then m ∷ insert_need n ms else n ∷ m ∷ ms

unfoldable pub sort_needs : List Need → List Need
unfolding insert_need
sort_needs [] = []
sort_needs (n ∷ ns) = insert_need n (sort_needs ns)

-- `header.strip('<>"')`, for a header in angle brackets
abbrev is_bracket : ℕ → Bool
is_bracket c = c == b'<' || c == b'>' || c == b'"'

drop_brackets : Text → Text
drop_brackets [] = []
drop_brackets (c ∷ s) = let rest = drop_brackets s in if is_bracket c then rest else c ∷ s

unfoldable pub bare_header : Text → Text
unfolding drop_brackets
bare_header header = reverse (drop_brackets (reverse (drop_brackets header)))

unfoldable pub is_missing : List Include → Need → Bool
unfolding bare_header one_of
is_missing dict n = not (one_of (bare_header n.header) (map key_of dict))

abbrev pub missing_report : Need → Report
missing_report n =
    report n.linenum "build/include_what_you_use" 4
      (text "Add #include " ++ n.header ++ text " for " ++ n.template)

unfoldable pub missing_includes : List Include → List Need → List Report
unfolding is_missing
missing_includes dict [] = []
missing_includes dict (n ∷ ns) =
    when (is_missing dict n) (missing_report n) ++ missing_includes dict ns

pub is_source_name : Settings → Text → Bool
unfolding get_non_header_extensions ends_with
is_source_name settings filename =
    any (λ ext. ends_with filename (text "." ++ ext)) (get_non_header_extensions settings)

-- The end of the check: the dictionary, and whether the header of the file has been found.
unfoldable pub report_missing : Settings → Text → List Need → List Include × Bool → List Report
unfolding is_source_name sort_needs missing_includes
report_missing settings filename required (dict, header_found) =
    if not header_found && is_source_name settings filename
    then []
    else missing_includes dict (sort_needs required)

unfoldable pub check_for_include_what_you_use :
    (Text → Option (List Text)) → Settings → Text → CleansedLines → IncludeState → List Report
unfolding needs_from flattened own_headers full_name replace_all report_missing
check_for_include_what_you_use open_file settings filename clean_lines include_state =
    let include_dict = flattened include_state.include_list [] in
    let abs_filename = replace_all "_flymake\\.cc$" (text ".cc") (full_name settings filename) in
    report_missing settings filename (needs_from 0 clean_lines.elided [])
      (own_headers open_file settings abs_filename (map key_of include_dict) (include_dict, false))
