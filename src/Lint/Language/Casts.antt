-- ===== src/Lint/Language/Casts.antt =====
-- cpplint.py, `CheckCasts`, `CheckCStyleCast` and `ExpectingFunctionArgs`.
use netproject_c.Prelude.{
  ℕ, ◌+◌, ◌-◌, Bool, true, false, not, ◌&&◌, ◌||◌, Option, none, some, List, [], ◌∷◌, ◌++◌, Text,
  text, String, ltb, leb, ◌==◌, if◌then◌else◌, get_or, length, take, drop, join, starts_with,
  ends_with,
}
use netproject_c.Regex.{Found, group_text, group_of}
use netproject_c.Lint.Patterns.{contains, matches, match_text, search_text, is_found}
use netproject_c.Lint.Cleansed.{CleansedLines}
use netproject_c.Lint.Report.{Report, report, when}
use netproject_c.Lint.Patterns.{search_pattern, matches_pattern}
use netproject_c.Prelude.{get_elem?}
use netproject_c.Regex.{group_start}
use netproject_c.Lint.Expression.{close_expression, Place}

unfoldable pub expecting_function_args : CleansedLines → ℕ → Bool
unfolding matches contains
expecting_function_args clean_lines linenum =
    matches "^\\s*MOCK_(CONST_)?METHOD\\d+(_T)?\\(" (get_or clean_lines.elided linenum [])
    || (leb 2 linenum
        && (matches "^\\s*MOCK_(?:CONST_)?METHOD\\d+(?:_T)?\\((?:\\S+,)?\\s*$"
              (get_or clean_lines.elided (linenum - 1) [])
            || matches "^\\s*MOCK_(?:CONST_)?METHOD\\d+(?:_T)?\\(\\s*$"
                (get_or clean_lines.elided (linenum - 2) [])
            || contains "\\bstd::m?function\\s*\\<\\s*$"
                (get_or clean_lines.elided (linenum - 1) [])))

-- The text in front of a cast, with up to four lines above it.
wide_context : List Text → ℕ → Text → Text
unfolding join
wide_context elided linenum context =
    let first = linenum - 5 + 1 in join [] (take (linenum - first) (drop first elided)) ++ context

not_a_cast : List Text → ℕ → Text → Found → Bool
unfolding matches wide_context ends_with group_start
not_a_cast elided linenum line m =
    let near = take (group_start m 1 - 1) line in
    let context = wide_context elided linenum near in
    matches ".*\\b(?:sizeof|alignof|alignas|[_A-Z][_A-Z0-9]*)\\s*$" near
    || matches ".*\\b[_A-Z][_A-Z0-9]*\\s*\\((?:\\([^()]*\\)|[^()])*$" context
    || ends_with context (text " operator++")
    || ends_with context (text " operator--")
    || matches "^\\s*(?:;|const\\b|throw\\b|final\\b|override\\b|[=>{),]|->)" (drop m.finish line)

-- The report, if there is one; the result of the source is whether there is.
check_c_style_cast : CleansedLines → ℕ → String → String → List Report
unfolding not_a_cast search_text group_text
check_c_style_cast clean_lines linenum cast_type pattern =
    let line = get_or clean_lines.elided linenum [] in
    elim (search_text pattern line) [
      | none ↦ []
      | some m ↦ when (not (not_a_cast clean_lines.elided linenum line m)) (
          report linenum "readability/casting" 4 (
            text "Using C-style cast.  Use "
            ++ text cast_type
            ++ text "<"
            ++ group_text m 1
            ++ text ">(...) instead"))
    ]

abbrev is_none : Option Text → Bool
is_none none = true
is_none (some t) = false

deprecated : ℕ → Text → Found → List Report
unfolding group_of group_text matches starts_with matches_pattern search_pattern
deprecated linenum line m =
    let matched_type = group_text m 2 in
    let matched_funcptr = group_text m 3 in
    when
      (is_none (group_of m 1)
        && not (
            matches "\\((?:[^() ]+::\\s*\\*\\s*)?[^() ]+\\)\\s*\\(" matched_funcptr
            || starts_with matched_funcptr (text "(*)"))
        && not (matches_pattern (text "\\s*using\\s+\\S+\\s*=\\s*" ++ matched_type) line)
        && not (is_found (search_pattern (text "new\\(\\S+\\)\\s*" ++ matched_type) line)))
      (report linenum "readability/casting" 4 (
        text "Using deprecated casting style.  Use static_cast<"
        ++ matched_type
        ++ text ">(...) instead"))

-- Behind the second `CloseExpression`.
is_dereferenced : List Text → Place → Bool
unfolding matches
is_dereferenced elided place = elim place.pos [
  | none ↦ false
  | some x2 ↦ matches "\\s*(?:->|\\[)" (
      drop x2 (get_or elided place.linenum [])
      ++ (if ltb (place.linenum + 1) (length elided)
          then get_or elided (place.linenum + 1) []
          else []))
]

-- `parenthesis_error`; `none` is an `IndexError`.
behind_template : List Text → Place → Option ℕ → Option Bool
unfolding close_expression is_dereferenced
behind_template elided place none = some false
behind_template elided place (some x1) = elim (get_elem? (get_or elided place.linenum []) x1) [
  | none ↦ none
  | some c ↦ some (c == b'(' && is_dereferenced elided (close_expression elided place.linenum x1))
]

parenthesis_error : List Text → ℕ → Option Found → Option Bool
unfolding behind_template close_expression group_text
parenthesis_error elided linenum none = some false
parenthesis_error elided linenum (some m) =
    let place = close_expression elided linenum (length (group_text m 1)) in
    behind_template elided place place.pos

address_report : ℕ → Bool → Report
address_report linenum true = report linenum "readability/casting" 4 (
    text
      "Are you taking an address of something dereferenced from a cast?  Wrapping the dereferenced expression in parentheses will make the binding more obvious")
address_report linenum false = report linenum "runtime/casting" 4 (
    text
      "Are you taking an address of a cast?  This is dangerous: could be a temp var.  Take the address before doing the cast, rather than after")

address_of_cast : List Text → ℕ → Text → Option (List Report)
unfolding contains parenthesis_error match_text address_report
address_of_cast elided linenum line =
    let taken : Option (List Report) =
      elim (parenthesis_error elided linenum
        (match_text "^(.*&(?:static|dynamic|down|reinterpret)_cast\\b)<" line)) [
          | none ↦ none
          | some b ↦ some (address_report linenum b ∷ [])
        ] in
    if contains
      "(?:[^\\w]&\\(([^)*][^)]*)\\)[\\w(])|(?:[^\\w]&(static|dynamic|down|reinterpret)_cast\\b)"
      line
    then taken
    else some []

or_else : List Report → List Report → List Report
or_else [] others = others
or_else (r ∷ rs) others = r ∷ rs

abbrev in_front_of : List Report → Option (List Report) → Option (List Report)
in_front_of rs none = none
in_front_of rs (some later) = some (rs ++ later)

-- The C-style casts and what follows.
other_casts : CleansedLines → ℕ → Text → Bool → Option (List Report)
unfolding check_c_style_cast or_else address_of_cast
other_casts clean_lines linenum line expecting_function =
    in_front_of
      ((if expecting_function
          then []
          else check_c_style_cast clean_lines linenum "static_cast"
              "\\((int|float|double|bool|char|u?int(16|32|64))\\)")
        ++ or_else
            (check_c_style_cast clean_lines linenum "const_cast" "\\((char\\s?\\*+\\s?)\\)\\s*\"")
            (check_c_style_cast clean_lines linenum "reinterpret_cast" "\\((\\w+\\s?\\*+\\s?)\\)"))
      (address_of_cast clean_lines.elided linenum line)

function_cast : CleansedLines → ℕ → Text → Bool → Option Found → Option (List Report)
unfolding other_casts deprecated matches group_text
function_cast clean_lines linenum line expecting_function none =
    other_casts clean_lines linenum line expecting_function
function_cast clean_lines linenum line true (some m) = other_casts clean_lines linenum line true
function_cast clean_lines linenum line false (some m) =
    let rest =
      in_front_of (deprecated linenum line m) (other_casts clean_lines linenum line false) in
    if matches "\\([^()]+\\)\\s*\\[" (group_text m 3) then some [] else rest

-- `none` is an `IndexError`: the line ends behind the template argument of the cast.
unfoldable pub check_casts : CleansedLines → ℕ → Option (List Report)
unfolding function_cast search_text expecting_function_args
check_casts clean_lines linenum =
    let line = get_or clean_lines.elided linenum [] in
    function_cast clean_lines linenum line (expecting_function_args clean_lines linenum) (
      search_text
        "(\\bnew\\s+(?:const\\s+)?|\\S<\\s*(?:const\\s+)?)?\\b(int|float|double|bool|char|int32|uint32|int64|uint64)(\\([^)].*)"
        line)
