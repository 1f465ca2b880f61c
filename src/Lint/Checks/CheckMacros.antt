-- ===== src/Lint/Checks/CheckMacros.antt =====
-- cpplint.py, `FindCheckMacro` and `CheckCheck`, with the macros and their replacements.
use netproject_c.Prelude.{
  ℕ, zero, suc, ◌+◌, ◌-◌, Bool, not, ◌&&◌, ◌||◌, Option, none, some, List, [], ◌∷◌, ◌++◌, Text,
  text, ◌==◌, if◌then◌else◌, get_or, length, take, drop, same, one_of, is_empty, strip, occurs,
  join,
}
use netproject_c.Regex.{Found, group_text}
use netproject_c.Lint.Patterns.{matches, match_text, match_pattern}
use netproject_c.Lint.Cleansed.{CleansedLines}
use netproject_c.Lint.Expression.{
  close_expression, Place, find_end_of_expression_in_line, LineResult, at_pos, unclosed, still_open,
}
use netproject_c.Lint.Report.{Report, report, when}

abbrev check_macros : List Text
check_macros =
    text "DCHECK"
    ∷ text "CHECK"
    ∷ text "EXPECT_TRUE"
    ∷ text "ASSERT_TRUE"
    ∷ text "EXPECT_FALSE"
    ∷ text "ASSERT_FALSE"
    ∷ []

operator_name : Text → Text
unfolding same
operator_name op =
    if same op (text "==")
    then text "EQ"
    else if same op (text "!=")
    then text "NE"
    else if same op (text ">=")
    then text "GE"
    else if same op (text ">")
    then text "GT"
    else if same op (text "<=")
    then text "LE"
    else text "LT"

inverse_name : Text → Text
unfolding same
inverse_name op =
    if same op (text "==")
    then text "NE"
    else if same op (text "!=")
    then text "EQ"
    else if same op (text ">=")
    then text "LT"
    else if same op (text ">")
    then text "LE"
    else if same op (text "<=")
    then text "GT"
    else text "GE"

-- `_CHECK_REPLACEMENT[macro][op]`, for one of the macros and one of the six operators
check_replacement : Text → Text → Text
unfolding operator_name inverse_name same
check_replacement macro op =
    if same macro (text "DCHECK")
    then text "DCHECK_" ++ operator_name op
    else if same macro (text "CHECK")
    then text "CHECK_" ++ operator_name op
    else if same macro (text "EXPECT_TRUE")
    then text "EXPECT_" ++ operator_name op
    else if same macro (text "ASSERT_TRUE")
    then text "ASSERT_" ++ operator_name op
    else if same macro (text "EXPECT_FALSE")
    then text "EXPECT_" ++ inverse_name op
    else text "ASSERT_" ++ inverse_name op

find_macro : List Text → Text → Option (Text × ℕ)
unfolding occurs match_pattern group_text
find_macro [] line = none
find_macro (macro ∷ macros) line =
    let later = find_macro macros line in
    if not (occurs macro line)
    then later
    else elim (match_pattern (text "^(.*\\b" ++ macro ++ text "\\s*)\\(") line) [
      | none ↦ later
      | some matched ↦ some (macro, length (group_text matched 1))
    ]

find_check_macro : Text → Option (Text × ℕ)
unfolding find_macro
find_check_macro line = find_macro check_macros line

-- The text of the condition, between the parentheses.
condition_text : List Text → ℕ → ℕ → Place → ℕ → Text
unfolding join
condition_text lines linenum start_pos place end_pos =
    let line = get_or lines linenum [] in
    if linenum == place.linenum
    then drop (start_pos + 1) (take (end_pos - 1) line)
    else drop (start_pos + 1) line
      ++ join [] (take (place.linenum - (linenum + 1)) (drop (linenum + 1) lines))
      ++ take (end_pos - 1) place.line

-- The operands of the condition; an operator that has not been found is `none`.
pub record Operands : Type 0 where
  pub lhs : Text
  pub operator : Option Text
  pub rhs : Text

-- What a round of the loop does: it returns, ends the loop, or goes on with a longer left side and the
-- text that is left.
pub data Round : Type 0 where
  give_up : Round
  finish : Text → Text → Round
  go : Text → Text → Round

parenthesized : Text → LineResult → Round
parenthesized expression (at_pos end) = go (b'(' ∷ take end expression) (drop end expression)
parenthesized expression unclosed = give_up
parenthesized expression (still_open stack) = give_up

token_round : Text → Text → Round
unfolding parenthesized find_end_of_expression_in_line same one_of
token_round token expression =
    if same token (text "(")
    then parenthesized expression (find_end_of_expression_in_line expression 0 (b'(' ∷ []))
    else if one_of token (text "&&" ∷ text "||" ∷ [])
    then give_up
    else if one_of token
        (text "<<" ∷ text "<<=" ∷ text ">>" ∷ text ">>=" ∷ text "->*" ∷ text "->" ∷ [])
    then go token expression
    else finish token expression

operand_round : Option Found → Option Found → Round
unfolding group_text
operand_round (some matched) other = go (group_text matched 1) (group_text matched 2)
operand_round none (some matched) = go (group_text matched 1) (group_text matched 2)
operand_round none none = finish [] []

condition_round : Text → Option Found → Round
unfolding token_round operand_round group_text match_text
condition_round expression (some matched) =
    token_round (group_text matched 1) (group_text matched 2)
condition_round expression none =
    operand_round (match_text "^([^-=!<>()&|]+)(.*)$" expression)
      (match_text "^(\\s*\\S)(.*)$" expression)

-- The loop; each round takes a character or more, so the length of the text is fuel enough. `none` is
-- the early return.
operands_from : ℕ → Text → Text → Option Operands
unfolding condition_round match_text
operands_from zero lhs expression = some (record { lhs = lhs; operator = none; rhs = [] })
operands_from (suc fuel) lhs [] = some (record { lhs = lhs; operator = none; rhs = [] })
operands_from (suc fuel) lhs (c ∷ s) =
    let matched =
      match_text "^\\s*(<<|<<=|>>|>>=|->\\*|->|&&|\\|\\||==|!=|>=|>|<=|<|\\()(.*)$" (c ∷ s) in
    elim (condition_round (c ∷ s) matched) [
      | give_up ↦ none
      | finish [] rhs ↦ some (record { lhs = lhs; operator = none; rhs = rhs })
      | finish (t ∷ ts) rhs ↦ some (record { lhs = lhs; operator = some (t ∷ ts); rhs = rhs })
      | go more rest ↦ operands_from fuel (lhs ++ more) rest
    ]

is_constant : Text → Bool
unfolding matches
is_constant s = matches "^([-+]?(\\d+|0[xX][0-9a-fA-F]+)[lLuU]{0,3}|\".*\"|'.*')$" s

replaceable : Text → Text → Bool
unfolding occurs is_constant strip
replaceable lhs rhs =
    not (is_empty lhs)
    && not (is_empty rhs)
    && not (occurs (text "&&") rhs || occurs (text "||") rhs)
    && (is_constant (strip lhs) || is_constant (strip rhs))

suggest : ℕ → Text → Option Operands → List Report
unfolding replaceable check_replacement
suggest linenum macro none = []
suggest linenum macro (some operands) = elim operands.operator [
  | none ↦ []
  | some operator ↦ when (replaceable operands.lhs operands.rhs) (
      report linenum "readability/check" 2 (
        text "Consider using "
        ++ check_replacement macro operator
        ++ text " instead of "
        ++ macro
        ++ text "(a "
        ++ operator
        ++ text " b)"))
]

behind_macro : CleansedLines → ℕ → Text → ℕ → Place → Option ℕ → List Report
unfolding suggest operands_from condition_text matches
behind_macro clean_lines linenum macro start_pos place none = []
behind_macro clean_lines linenum macro start_pos place (some end_pos) =
    let expression = condition_text clean_lines.elided linenum start_pos place end_pos in
    if matches "\\s*;" (drop end_pos place.line)
    then suggest linenum macro (operands_from (length expression) [] expression)
    else []

from_macro : CleansedLines → ℕ → Option (Text × ℕ) → List Report
unfolding behind_macro close_expression
from_macro clean_lines linenum none = []
from_macro clean_lines linenum (some (macro, start_pos)) =
    let place = close_expression clean_lines.elided linenum start_pos in
    behind_macro clean_lines linenum macro start_pos place place.pos

unfoldable pub check_check : CleansedLines → ℕ → List Report
unfolding from_macro find_check_macro
check_check clean_lines linenum =
    from_macro clean_lines linenum (find_check_macro (get_or clean_lines.elided linenum []))
