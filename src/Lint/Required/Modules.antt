-- ===== src/Lint/Required/Modules.antt =====
-- cpplint.py, `FilesBelongToSameModule`.
use netproject_c.Prelude.{
  ◌-◌, Bool, true, false, not, Option, none, some, [], ◌∷◌, Text, text, ◌==◌, if◌then◌else◌, length,
  take, one_of, is_empty, ends_with, replace,
}
use netproject_c.Regex.{Found, group_text}
use netproject_c.Lint.Patterns.{search_text}
use netproject_c.Lint.Settings.{Settings, is_header_extension, get_non_header_extensions}
use netproject_c.Lint.Files.{base_name, extension}

-- `s.lstrip('.')`
drop_dots : Text → Text
drop_dots [] = []
drop_dots (c ∷ s) = let rest = drop_dots s in if c == b'.' then rest else c ∷ s

-- `s[:-len(end)]`, where the end of an empty text is at 0
unfoldable pub without_end : Text → Text → Text
without_end s end = if is_empty end then [] else take (length s - length end) s

without_suffix : Text → Option Found → Text
unfolding without_end group_text
without_suffix filename none = filename
without_suffix filename (some m) = without_end filename (group_text m 1)

without_folders : Text → Text
unfolding replace
without_folders filename =
    replace (text "/internal/") (text "/") (replace (text "/public/") (text "/") filename)

module_of_source : Settings → Text → Text
unfolding without_folders without_suffix without_end extension base_name search_text
module_of_source settings filename_cc = without_folders (
    without_suffix (without_end filename_cc (extension settings filename_cc))
      (search_text "(_test|_regtest|_unittest)$" (base_name settings filename_cc)))

module_of_header : Settings → Text → Text
unfolding without_folders without_end extension ends_with
module_of_header settings filename_h =
    let bare = without_end filename_h (extension settings filename_h) in
    without_folders (if ends_with bare (text "-inl") then without_end bare (text "-inl") else bare)

unfoldable pub files_belong_to_same_module : Settings → Text → Text → Bool × Text
unfolding module_of_source module_of_header without_end drop_dots extension is_header_extension
    get_non_header_extensions one_of ends_with
files_belong_to_same_module settings filename_cc filename_h =
    let source = module_of_source settings filename_cc in
    let header = module_of_header settings filename_h in
    if not
      (one_of (drop_dots (extension settings filename_cc)) (get_non_header_extensions settings))
    then (false, [])
    else if not (is_header_extension settings (drop_dots (extension settings filename_h)))
    then (false, [])
    else if ends_with source header
    then (true, without_end source header)
    else (false, [])
