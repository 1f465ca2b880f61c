-- ===== src/Lint/Checks/FunctionLengths.antt =====
-- cpplint.py, `CheckForFunctionLengths`: the driver of the function state, line by line.
use netproject_c.Prelude.{
  ℕ, Bool, false, not, ◌||◌, Option, none, some, List, [], ◌∷◌, ◌++◌, Text, text, if◌then◌else◌,
  get_or, drop, lstrip, is_space, reverse, same,
}
use netproject_c.Regex.{Found, group_text}
use netproject_c.Lint.Patterns.{contains, matches, match_text, search_text}
use netproject_c.Lint.Cleansed.{CleansedLines}
use netproject_c.Lint.FunctionState.{FunctionState, begin, count, end, check}
use netproject_c.Lint.Report.{Report, report}

unfoldable pub first_group : Option Found → Text
unfolding group_text
first_group none = []
first_group (some m) = group_text m 1

until_space : Text → Text
unfolding is_space
until_space [] = []
until_space (c ∷ s) = let rest = until_space s in if is_space c then [] else c ∷ rest

-- `s.split()[-1]`
last_word : Text → Text
unfolding lstrip until_space
last_word s = reverse (until_space (lstrip (reverse s)))

-- Whether the line can start a function: its name is no macro's, or is that of a test.
name_starts_function : Text → Bool
unfolding same matches
name_starts_function function_name =
    same function_name (text "TEST")
    || same function_name (text "TEST_F")
    || not (matches "[A-Z_]+$" function_name)

abbrev starting_func : Option Found → Bool
starting_func none = false
starting_func (some m) = name_starts_function (last_word (first_group (some m)))

-- How the search for the body ends: with the joined lines when there is one.
pub data Body : Type 0 where
  missing trivial : Body
  opened : Text → Body

find_body : Text → List Text → Body
unfolding lstrip contains
find_body joined_line [] = missing
find_body joined_line (start_line ∷ lines) =
    let joined = joined_line ++ text " " ++ lstrip start_line in
    let later = find_body joined lines in
    if contains "(;|})" start_line
    then trivial
    else if contains "{" start_line
    then opened joined
    else later

-- The name that the state keeps; a test has its parameters with it.
function_of : Text → Text → Text
unfolding search_text matches first_group
function_of line joined_line =
    let function = first_group (search_text "((\\w|:)*)\\(" line) in
    if matches "TEST" function
    then function ++ first_group (search_text "(\\(.*\\))" joined_line)
    else function ++ text "()"

unfoldable pub start_function : FunctionState → ℕ → Text → Body → FunctionState × List Report
unfolding begin function_of
start_function s linenum line trivial = (s, [])
start_function s linenum line (opened joined) = (begin s (function_of line joined), [])
start_function s linenum line missing = (
  s,
  report linenum "readability/fn_size" 5 (text "Lint failed to find start of function body.") ∷ [],
)

unfoldable pub check_for_function_lengths :
    (ℕ → ℕ → ℕ) → ℕ → CleansedLines → ℕ → FunctionState → FunctionState × List Report
unfolding find_body count end check match_text matches name_starts_function last_word first_group
    start_function
check_for_function_lengths log_level verbose_level clean_lines linenum function_state =
    let line = get_or clean_lines.lines linenum [] in
    if starting_func (match_text "(\\w(\\w|::|\\*|\\&|\\s)*)\\(" line)
    then start_function function_state linenum line (find_body [] (drop linenum clean_lines.lines))
    else if matches "^\\}\\s*$" line
    then (end function_state, check log_level verbose_level function_state linenum)
    else if matches "^\\s*$" line
    then (function_state, [])
    else (count function_state, [])
