-- ===== src/Lint/Language/References.antt =====
-- cpplint.py, `CheckForNonConstReference`, with `IsDerivedFunction`, `IsOutOfLineMethodDefinition` and
-- `IsInitializerList`.
use netproject_c.Prelude.{
  ℕ, zero, suc, ◌+◌, ◌-◌, Bool, true, false, not, ◌&&◌, ◌||◌, Option, none, some, List, [], ◌∷◌,
  ◌++◌, map, reverse, Text, text, ltb, ◌==◌, if◌then◌else◌, get_or, length, take, drop, strip,
  lstrip, occurs, is_some, join, line_before,
}
use netproject_c.Regex.{Found, group_text}
use netproject_c.Lint.Patterns.{contains, matches, match_text, search_text, replace_all, find_all}
use netproject_c.Lint.Cleansed.{CleansedLines}
use netproject_c.Lint.Report.{Report, report, when}
use netproject_c.Lint.Nesting.Blocks.{BlockInfo, class_of, namespace}
use netproject_c.Lint.Expression.{close_expression, reverse_close_expression, Place}
use netproject_c.Prelude.{rfind}

-- The scan back for the start of the function, over at most this many lines from `i` on.
function_head : ℕ → List Text → ℕ → Option (ℕ × Found)
unfolding match_text
function_head zero elided i = none
function_head (suc rounds) elided i =
    let earlier = function_head rounds elided (i - 1) in
    elim (match_text "^([^()]*\\w+)\\(" (get_or elided i [])) [
      | some m ↦ some (i, m)
      | none ↦ if i == 0 then none else earlier
    ]

-- Behind the parentheses of the function.
overrides : Place → Bool
unfolding contains
overrides place = elim place.pos [
  | none ↦ false
  | some p ↦ contains "\\boverride\\b" (drop p place.line)
]

unfoldable pub is_derived_function : CleansedLines → ℕ → Bool
unfolding function_head overrides close_expression group_text
is_derived_function clean_lines linenum = elim (function_head 10 clean_lines.elided linenum) [
  | none ↦ false
  | some (i, m) ↦ overrides (close_expression clean_lines.elided i (length (group_text m 1)))
]

unfoldable pub is_out_of_line_method_definition : CleansedLines → ℕ → Bool
unfolding function_head matches
is_out_of_line_method_definition clean_lines linenum =
    elim (function_head 10 clean_lines.elided linenum) [
      | none ↦ false
      | some (i, m) ↦ matches "^[^()]*\\w+::\\w+\\(" (get_or clean_lines.elided i [])
    ]

-- The line before the brace at its end, if there is one.
without_body : Text → Option Found → Text
unfolding group_text
without_body line none = line
without_body line (some m) = group_text m 1

-- The scan back from line `i` on, which ends before line 1; `line` is what is looked at for line `i`.
initializer_from : List Text → ℕ → Text → Bool
unfolding contains
initializer_from elided zero line = false
initializer_from elided (suc i) line =
    let earlier = initializer_from elided i (get_or elided i []) in
    if i == 0
    then false
    else if contains "\\s:\\s*\\w+[({]" line || contains "\\}\\s*,\\s*$" line
    then true
    else if contains "[{};]\\s*$" line
    then false
    else earlier

unfoldable pub is_initializer_list : CleansedLines → ℕ → Bool
unfolding initializer_from without_body match_text
is_initializer_list clean_lines linenum =
    let line = get_or clean_lines.elided linenum [] in
    initializer_from clean_lines.elided linenum
      (without_body line (match_text "^(.*)\\{\\s*$" line))

-- The end of a long type on the line before.
split_type : Text → Text → Option Found
unfolding matches search_text
split_type line above =
    if matches "\\s*::(?:[\\w<>]|::)+\\s*&\\s*\\S" line
    then search_text "\\b((?:const\\s*)?(?:[\\w<>]|::)+[\\w<>])\\s*$" above
    else if matches "\\s*[a-zA-Z_]([\\w<>]|::)+\\s*&\\s*\\S" line
    then search_text "\\b((?:const\\s*)?(?:[\\w<>]|::)+::)\\s*$" above
    else none

-- A template parameter that begins on an earlier line: all pieces up to the current line.
collected : List Text → ℕ → Text → Place → Text
unfolding strip join
collected elided linenum line place =
    if is_some place.pos && ltb place.linenum linenum
    then join [] (map strip (take (linenum + 1 - place.linenum) (drop place.linenum elided)))
    else line

whole_template : List Text → ℕ → Text → Option ℕ → Text
unfolding collected reverse_close_expression
whole_template elided linenum line none = line
whole_template elided linenum line (some endpos) =
    collected elided linenum line (reverse_close_expression elided linenum endpos)

joined_line : List Text → ℕ → Text → Option Found → Text
unfolding whole_template group_text lstrip rfind
joined_line elided linenum line (some previous) = group_text previous 1 ++ lstrip line
joined_line elided linenum line none = whole_template elided linenum line (rfind (text ">") line)

-- Not at the top level, not in a class and not in a namespace.
in_other_block : Option BlockInfo → Bool
in_other_block none = false
in_other_block (some b) = elim b.kind [ class_of c ↦ false | namespace name ↦ false | _ ↦ true ]

-- The scan back for a line that begins an initializer list, over the lines that are given.
behind_colon : List Text → Bool
unfolding contains matches
behind_colon [] = false
behind_colon (previous_line ∷ earlier) =
    let onward = behind_colon earlier in
    if not (contains "[),]\\s*$" previous_line)
    then false
    else if matches "^\\s*:\\s+\\S" previous_line
    then true
    else onward

-- The lines `linenum - 1` down to `max(0, linenum - 10) + 1`.
lines_above : List Text → ℕ → List Text
lines_above elided linenum =
    let first = linenum - 10 + 1 in reverse (take (linenum - first) (drop first elided))

is_whitelisted : Text → Bool
unfolding contains
is_whitelisted =
    contains "(?:[sS]wap(?:<\\w:+>)?|operator\\s*[<>][<>]|static_assert|COMPILE_ASSERT)\\s*\\("

whitelisted_function : List Text → ℕ → Text → Bool
unfolding is_whitelisted contains
whitelisted_function elided linenum line =
    is_whitelisted line
    || (not (contains "\\S+\\([^)]*$" line)
        && ((ltb 0 linenum && is_whitelisted (get_or elided (linenum - 1) []))
            || (ltb 1 linenum && is_whitelisted (get_or elided (linenum - 2) []))))

parameter_report : ℕ → Text → List Report
unfolding matches replace_all
parameter_report linenum parameter =
    when
      (not (
          matches
            "(?:.*\\s*\\bconst\\s*&\\s*[_a-zA-Z]\\w*|const\\s+(?:const\\s+)?(?:typename\\s+|class\\s+|struct\\s+|union\\s+|enum\\s+)?(?:\\w|\\s*<(?:<(?:<[^<>]*>|[^<>])*>|[^<>])*>|::)+\\s*&\\s*[_a-zA-Z]\\w*)"
            parameter)
        && not (matches "(?:.*stream\\s*&\\s*[_a-zA-Z]\\w*)" parameter))
      (report linenum "runtime/references" 2 (
        text "Is this a non-const reference? If so, make const or use a pointer: "
        ++ replace_all " *<" (text "<") parameter))

parameter_reports : ℕ → List Found → List Report
unfolding parameter_report group_text
parameter_reports linenum [] = []
parameter_reports linenum (m ∷ ms) =
    parameter_report linenum (group_text m 1) ++ parameter_reports linenum ms

-- `previous_stack_top` is that of the nesting state.
unfoldable pub check_for_non_const_reference : CleansedLines → ℕ → Option BlockInfo → List Report
unfolding is_derived_function is_out_of_line_method_definition is_initializer_list split_type
    joined_line in_other_block behind_colon lines_above whitelisted_function parameter_reports
    occurs contains find_all replace_all line_before
check_for_non_const_reference clean_lines linenum previous_stack_top =
    let elided = clean_lines.elided in
    let own = get_or elided linenum [] in
    let line =
      if ltb 1 linenum
      then joined_line elided linenum own (split_type own (line_before elided linenum))
      else own in
    if not (occurs (text "&") own)
      || is_derived_function clean_lines linenum
      || is_out_of_line_method_definition clean_lines linenum
      || in_other_block previous_stack_top
      || behind_colon (lines_above elided linenum)
      || contains "\\\\\\s*$" line
      || is_initializer_list clean_lines linenum
      || whitelisted_function elided linenum line
    then []
    else parameter_reports linenum (
        find_all
          "((?:const\\s+)?(?:typename\\s+|class\\s+|struct\\s+|union\\s+|enum\\s+)?(?:\\w|\\s*<(?:<(?:<[^<>]*>|[^<>])*>|[^<>])*>|::)+(?:\\s*(?:\\bconst\\b|[*]))*\\s*&\\s*[_a-zA-Z]\\w*)\\s*(?:=[^,()]+)?[,)]"
          (replace_all "{[^}]*}" (text " ") line))
