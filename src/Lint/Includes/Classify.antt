-- ===== src/Lint/Includes/Classify.antt =====
-- cpplint.py, `_DropCommonSuffixes` and `_ClassifyInclude`.
use netproject_c.Prelude.{
  ℕ, ◌-◌, Bool, false, not, ◌&&◌, ◌||◌, Option, some, List, [], ◌∷◌, ◌++◌, map, Text, text, ltb,
  ◌==◌, if◌then◌else◌, get_or, length, take, drop, same, one_of, ends_with, replace, split_path,
  split_extension, normal_path,
}
use netproject_c.Regex.{Found}
use netproject_c.Lint.Patterns.{match_text}
use netproject_c.Lint.Settings.{Settings, get_header_extensions, get_non_header_extensions}
use netproject_c.Lint.Files.{repository_name}
use netproject_c.Lint.IncludeState.{
  HeaderType, c_sys_header, cpp_sys_header, likely_my_header, possible_my_header, other_header,
}
use netproject_c.Lint.Includes.CppHeaders.{cpp_headers}

abbrev test_suffixes : List Text
test_suffixes = text "_test" ∷ text "_regtest" ∷ text "_unittest" ∷ []

-- `prefix.ext` for each prefix and, inside, each extension
abbrev with_extensions : List Text → List Text → List Text
with_extensions [] exts = []
with_extensions (p ∷ ps) exts = map (λ ext. p ++ text "." ++ ext) exts ++ with_extensions ps exts

common_suffixes : Settings → List Text
unfolding get_non_header_extensions get_header_extensions
common_suffixes settings =
    with_extensions (map (drop 1) test_suffixes) (get_non_header_extensions settings)
    ++ with_extensions (text "inl" ∷ text "imp" ∷ text "internal" ∷ [])
        (get_header_extensions settings)

abbrev is_delimiter : ℕ → Bool
is_delimiter c = c == b'-' || c == b'_'

drop_suffix : List Text → Text → Text
unfolding ends_with split_extension
drop_suffix [] filename = (split_extension filename).0
drop_suffix (suffix ∷ suffixes) filename =
    let n = length filename - length suffix in
    let later = drop_suffix suffixes filename in
    if ends_with filename suffix
      && ltb (length suffix) (length filename)
      && is_delimiter (get_or filename (n - 1) 0)
    then take (n - 1) filename
    else later

unfoldable pub drop_common_suffixes : Settings → Text → Text
unfolding drop_suffix common_suffixes
drop_common_suffixes settings filename = drop_suffix (common_suffixes settings) filename

-- The two matches of `_RE_FIRST_COMPONENT` are there and are the same text.
same_component : Option Found → Option Found → Bool
unfolding same
same_component (some a) (some b) = same a.matched b.matched
same_component _ _ = false

classify_other : Text × Text → Text × Text → HeaderType
unfolding same same_component normal_path replace match_text
classify_other target inc =
    let target_dir_pub =
      replace (text "\\") (text "/") (normal_path (target.0 ++ text "/../public")) in
    if same target.1 inc.1 && (same inc.0 target.0 || same inc.0 target_dir_pub)
    then likely_my_header
    else if same_component (match_text "^[^-_.]+" target.1) (match_text "^[^-_.]+" inc.1)
    then possible_my_header
    else other_header

unfoldable pub classify_include : Settings → Text → Text → Bool → HeaderType
unfolding classify_other drop_common_suffixes repository_name split_path split_extension one_of
    cpp_headers
classify_include settings filename include is_system =
    let cpp_extension =
      one_of (split_extension include).1 (text ".hpp" ∷ text ".hxx" ∷ text ".h++" ∷ []) in
    if is_system && not cpp_extension
    then (if one_of include cpp_headers then cpp_sys_header else c_sys_header)
    else classify_other
        (split_path (drop_common_suffixes settings (repository_name settings filename)))
        (split_path (drop_common_suffixes settings include))
