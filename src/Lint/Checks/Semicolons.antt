-- ===== src/Lint/Checks/Semicolons.antt =====
-- cpplint.py, `CheckTrailingSemicolon`.
use netproject_c.Prelude.{
  or_zero, ℕ, ◌-◌, Bool, false, not, ◌&&◌, ◌||◌, Option, none, some, List, [], ◌∷◌, Text, text, ltb,
  if◌then◌else◌, get_or, length, take, drop, one_of, is_empty, rfind, line_before,
}
use netproject_c.Regex.{Found, group_text}
use netproject_c.Lint.Patterns.{contains, matches, match_text, search_text}
use netproject_c.Lint.Cleansed.{CleansedLines}
use netproject_c.Lint.Expression.{close_expression, reverse_close_expression, Place}
use netproject_c.Lint.Checks.Sections.{get_previous_non_blank_line}
use netproject_c.Lint.Report.{report, Action, tell, nolint}

abbrev safe_macros : List Text
safe_macros =
    text "TEST"
    ∷ text "TEST_F"
    ∷ text "MATCHER"
    ∷ text "MATCHER_P"
    ∷ text "TYPED_TEST"
    ∷ text "EXCLUSIVE_LOCKS_REQUIRED"
    ∷ text "SHARED_LOCKS_REQUIRED"
    ∷ text "LOCKS_EXCLUDED"
    ∷ text "INTERFACE_DEF"
    ∷ []

unsafe_macro : Option Found → Bool
unfolding group_text one_of
unsafe_macro none = false
unsafe_macro (some macro) = not (one_of (group_text macro 1) safe_macros)

is_lambda : Option Found → Bool
unfolding group_text contains
is_lambda none = false
is_lambda (some func) = not (contains "\\boperator\\s*\\[\\s*\\]" (group_text func 1))

-- The text before the opening parenthesis is one after which the semicolon may be needed.
excused : Text → Bool
unfolding unsafe_macro is_lambda search_text match_text contains
excused line_prefix =
    unsafe_macro (search_text "\\b([A-Z_][A-Z0-9_]*)\\s*$" line_prefix)
    || is_lambda (match_text "^(.*\\])\\s*$" line_prefix)
    || contains "\\b(?:struct|union)\\s+alignas\\s*$" line_prefix
    || contains "\\bdecltype$" line_prefix
    || contains "\\s+=\\s*$" line_prefix

prefix_excused : Place → Bool
unfolding excused
prefix_excused place = elim place.pos [ none ↦ false | some p ↦ excused (take p place.line) ]

-- Case 1: the text before the brace ends in a closing parenthesis.
behind_parenthesis : CleansedLines → ℕ → Text → Option Text
unfolding prefix_excused reverse_close_expression rfind contains line_before
behind_parenthesis clean_lines linenum before =
    let place =
      reverse_close_expression clean_lines.elided linenum (or_zero (rfind (text ")") before)) in
    if prefix_excused place
    then none
    else if ltb 1 place.linenum
        && contains "\\]\\s*$" (line_before clean_lines.elided place.linenum)
    then none
    else some before

first_group : Option Found → Option Text
unfolding group_text
first_group none = none
first_group (some m) = some (group_text m 1)

-- Cases 2 to 6.
other_block : CleansedLines → ℕ → Text → Option Found → Option Text
unfolding group_text contains match_text get_previous_non_blank_line first_group
other_block clean_lines linenum line (some m) = some (group_text m 1)
other_block clean_lines linenum line none =
    let prevline = (get_previous_non_blank_line clean_lines linenum).0 in
    if not (is_empty prevline) && contains "[;{}]\\s*$" prevline
    then first_group (match_text "^(\\s*)\\{" line)
    else none

-- The text before the brace of a block that needs no semicolon.
block_head : CleansedLines → ℕ → Text → Option Found → Option Text
unfolding behind_parenthesis other_block match_text group_text
block_head clean_lines linenum line (some m) =
    behind_parenthesis clean_lines linenum (group_text m 1)
block_head clean_lines linenum line none =
    other_block clean_lines linenum line (match_text "^(.*(?:else|\\)\\s*const)\\s*)\\{" line)

redundant : CleansedLines → Place → Option ℕ → List Action
unfolding matches line_before
redundant clean_lines place none = []
redundant clean_lines place (some endpos) =
    if matches "^\\s*;" (drop endpos place.line)
    then nolint (line_before clean_lines.raw_lines place.linenum) (place.linenum - 1)
      ∷ nolint (get_or clean_lines.raw_lines place.linenum []) place.linenum
      ∷ tell (report place.linenum "readability/braces" 4 (text "You don't need a ; after a }"))
      ∷ []
    else []

behind_block : CleansedLines → ℕ → Option Text → List Action
unfolding redundant close_expression
behind_block clean_lines linenum none = []
behind_block clean_lines linenum (some before) =
    let place = close_expression clean_lines.elided linenum (length before) in
    redundant clean_lines place place.pos

unfoldable pub check_trailing_semicolon : CleansedLines → ℕ → List Action
unfolding behind_block block_head match_text
check_trailing_semicolon clean_lines linenum =
    let line = get_or clean_lines.elided linenum [] in
    behind_block clean_lines linenum
      (block_head clean_lines linenum line (match_text "^(.*\\)\\s*)\\{" line))
