-- ===== src/Lint/Checks/Constructs.antt =====
-- cpplint.py, `CheckForNonStandardConstructs`. The collapsing of arguments can run past the end of the
-- list: `none` stands for the `IndexError` that ends the run.
pub mod Collapse
use netproject_c.Prelude.{
  ℕ, ◌+◌, ◌-◌, Bool, true, false, not, ◌&&◌, ◌||◌, Option, none, some, List, [], ◌∷◌, ◌++◌, Text,
  text, String, ltb, leb, ◌==◌, if◌then◌else◌, get_or, length, replace, split_char, count, same,
  strip, is_some, is_empty, last_or, split_text, occurs,
}
use netproject_c.Regex.{Found, group_text, group_of}
use netproject_c.Lint.Patterns.{
  contains, matches, match_text, match_pattern, matches_pattern, escape,
}
use netproject_c.Lint.Cleansed.{CleansedLines}
use netproject_c.Lint.Report.{Report, report, when}
use netproject_c.Lint.Nesting.{innermost_class}
use netproject_c.Lint.Nesting.Blocks.{BlockInfo, ClassFields}

format_reports : ℕ → Text → List Report
unfolding contains replace
format_reports linenum line =
    let bare = replace (text "\\\\") [] line in
    when (contains "printf\\s*\\(.*\".*%[-+ ]?\\d*q" line) (
      report linenum "runtime/printf_format" 3
        (text "%q in format strings is deprecated.  Use %ll instead."))
    ++ when (contains "printf\\s*\\(.*\".*%\\d+\\$" line) (
        report linenum "runtime/printf_format" 2
          (text "%N$ formats are unconventional.  Try rewriting to avoid them."))
    ++ when (contains "(\"|').*\\\\(%|\\[|\\(|{)" bare) (
        report linenum "build/printf_format" 3
          (text "%, [, (, and { are undefined character escapes.  Unescape them."))

line_reports : ℕ → Text → List Report
unfolding contains matches
line_reports linenum line =
    when
      (contains
        "\\b(const|volatile|void|char|short|int|long|float|double|signed|unsigned|schar|u?int8|u?int16|u?int32|u?int64)\\s+(register|static|extern|typedef)\\b"
        line)
      (report linenum "build/storage_class" 5 (
        text "Storage-class specifier (static, extern, typedef, etc) should be "
        ++ text "at the beginning of the declaration."))
    ++ when (matches "\\s*#\\s*endif\\s*[^/\\s]+" line) (
        report linenum "build/endif_comment" 5
          (text "Uncommented text after #endif is non-standard.  Use a comment."))
    ++ when (matches "\\s*class\\s+(\\w+\\s*::\\s*)+\\w+\\s*;" line) (
        report linenum "build/forward_decl" 5
          (text "Inner-style forward declarations are invalid.  Remove this line."))
    ++ when (contains "(\\w+|[+-]?\\d+(\\.\\d*)?)\\s*(<|>)\\?=?\\s*(\\w+|[+-]?\\d+)(\\.\\d*)?" line)
        (report linenum "build/deprecated" 3
          (text ">? and <? (max and min) operators are non-standard and deprecated."))
    ++ when (contains "^\\s*const\\s*string\\s*&\\s*\\w+\\s*;" line) (
        report linenum "runtime/member_string_references" 2 (
          text "const string& members are dangerous. It is much better to use "
          ++ text "alternatives, such as pointers or simple constants."))

-- The loop goes on with the argument behind the next comma.
unfoldable pub is_open : Text → Bool
unfolding count
is_open arg =
    ltb (count (text ">") arg) (count (text "<") arg)
    || ltb (count (text ")") arg) (count (text "(") arg)

abbrev pub add_argument : Text → Option (List Text) → Option (List Text)
add_argument arg none = none
add_argument arg (some args) = some (arg ∷ args)

unfoldable pub collapse_from : Text → List Text → Option (List Text)
collapse_from arg [] = if is_open arg then none else some (arg ∷ [])
collapse_from arg (next ∷ args) =
    let longer = collapse_from (arg ++ text "," ++ next) args in
    let settled = add_argument arg (collapse_from next args) in
    if is_open arg then longer else settled

unfoldable pub collapse_arguments : List Text → Option (List Text)
unfolding collapse_from
collapse_arguments [] = some []
collapse_arguments (arg ∷ args) = collapse_from arg args

abbrev constructor_args : Text → List Text
unfolding split_char
constructor_args [] = []
constructor_args (c ∷ s) = split_char b',' (c ∷ s)

abbrev select : (Text → Bool) → List Text → List Text
select p [] = []
select p (x ∷ xs) = let rest = select p xs in if p x then x ∷ rest else rest

variadic : List Text → List Text
unfolding occurs
variadic = select (occurs (text "&&..."))

defaulted : List Text → List Text
unfolding occurs
defaulted = select (occurs (text "="))

noarg_constructor : List Text → Bool
unfolding same strip
noarg_constructor args =
    is_empty args || (length args == 1 && same (strip (get_or args 0 [])) (text "void"))

onearg_constructor : List Text → Bool
unfolding noarg_constructor variadic defaulted
onearg_constructor args =
    (length args == 1 && not (noarg_constructor args))
    || (leb 1 (length args)
        && not (noarg_constructor args)
        && leb (length args - 1) (length (defaulted args)))
    || (leb (length args) 2 && leb 1 (length (variadic args)))

copy_constructor : Text → Text → Bool
unfolding matches_pattern escape strip
copy_constructor base_classname first =
    matches_pattern
      (text "(const\\s+)?"
        ++ escape base_classname
        ++ text "(\\s*<[^>]*>)?(\\s+const)?\\s*(?:<\\w+>\\s*)?&")
      (strip first)

explicit_reports : ℕ → Text → Bool → List Text → List Report
unfolding onearg_constructor noarg_constructor variadic defaulted copy_constructor contains
explicit_reports linenum base_classname is_marked_explicit args =
    let first = get_or args 0 [] in
    let suspect =
      onearg_constructor args
      && not (contains "\\bstd\\s*::\\s*initializer_list\\b" first)
      && not (copy_constructor base_classname first) in
    if not is_marked_explicit && suspect
    then report linenum "runtime/explicit" 5 (
        if not (is_empty (defaulted args)) || not (is_empty (variadic args))
        then text "Constructors callable with one argument should be marked explicit."
        else text "Single-parameter constructors should be marked explicit.")
      ∷ []
    else when (is_marked_explicit && not (onearg_constructor args) && noarg_constructor args) (
        report linenum "runtime/explicit" 5
          (text "Zero-parameter constructors should not be marked explicit."))

abbrev with_arguments : Option (List Text) → (List Text → List Report) → Option (List Report)
with_arguments none k = none
with_arguments (some args) k = some (k args)

constructor_reports : ℕ → Text → Option Found → Option (List Report)
unfolding explicit_reports collapse_arguments constructor_args group_of group_text
constructor_reports linenum base_classname none = some []
constructor_reports linenum base_classname (some m) =
    with_arguments (collapse_arguments (constructor_args (group_text m 2)))
      (explicit_reports linenum base_classname (is_some (group_of m 1)))

class_reports : ℕ → Text → Option (BlockInfo × ClassFields) → Option (List Report)
unfolding constructor_reports match_pattern escape split_text
class_reports linenum line none = some []
class_reports linenum line (some (info, class_info)) =
    let base_classname = last_or (split_text (text "::") class_info.name) [] in
    if info.seen_open_brace
    then constructor_reports linenum base_classname (
        match_pattern
          (text "\\s+(?:(?:inline|constexpr)\\s+)*(explicit\\s+)?(?:(?:inline|constexpr)\\s+)*"
            ++ escape base_classname
            ++ text "\\s*\\(((?:[^()]|\\([^()]*\\))*)\\)")
          line)
    else some []

abbrev behind : List Report → Option (List Report) → Option (List Report)
behind first none = none
behind first (some reports) = some (first ++ reports)

unfoldable pub check_for_non_standard_constructs :
    CleansedLines → ℕ → List BlockInfo → Option (List Report)
unfolding format_reports line_reports class_reports innermost_class
check_for_non_standard_constructs clean_lines linenum stack =
    let line = get_or clean_lines.elided linenum [] in
    behind
      (format_reports linenum (get_or clean_lines.lines linenum []) ++ line_reports linenum line)
      (class_reports linenum line (innermost_class stack))
