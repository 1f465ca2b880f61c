-- ===== src/Lint/Checks/Operators.antt =====
-- cpplint.py, `CheckOperatorSpacing`.
use netproject_c.Prelude.{
  ℕ, zero, suc, Bool, not, ◌&&◌, ◌||◌, Option, none, some, List, [], ◌∷◌, ◌++◌, Text, text,
  if◌then◌else◌, get_or, length, same, all, is_some, is_empty, replicate,
}
use netproject_c.Regex.{Found, group_text}
use netproject_c.Regex.Syntax.{is_digit}
use netproject_c.Lint.Patterns.{contains, matches, match_text, search_text}
use netproject_c.Lint.Cleansed.{CleansedLines}
use netproject_c.Lint.Expression.{close_expression, reverse_close_expression}
use netproject_c.Lint.Report.{Report, report, when}

-- The name of an operator method becomes underscores; each round takes a name away, so the length of
-- the line is fuel enough.
mask_operators : ℕ → Text → Text
unfolding match_text group_text
mask_operators zero line = line
mask_operators (suc fuel) line = elim (match_text "^(.*\\boperator\\b)(\\S+)(\\s*\\(.*)$" line) [
  | none ↦ line
  | some m ↦
      mask_operators fuel
        (group_text m 1 ++ replicate (length (group_text m 2)) b'_' ++ group_text m 3)
]

abbrev operators : ℕ → ℕ → Text → Report
operators linenum confidence message = report linenum "whitespace/operators" confidence message

assignment : ℕ → Text → List Report
unfolding contains
assignment linenum line =
    when
      ((contains "[\\w.]=" line || contains "=[\\w.]" line)
        && not (contains "\\b(if|while|for) " line)
        && not (contains "(>=|<=|==|!=|&=|\\^=|\\|=|\\+=|\\*=|\\/=|\\%=)" line)
        && not (contains "operator=" line))
      (operators linenum 4 (text "Missing spaces around ="))

-- A `<` whose expression does not close, or a `>` whose expression does not open.
around_less : CleansedLines → ℕ → Option Found → List Report
unfolding group_text close_expression
around_less clean_lines linenum none = []
around_less clean_lines linenum (some m) =
    when (not (is_some (close_expression clean_lines.elided linenum (length (group_text m 1))).pos))
      (operators linenum 3 (text "Missing spaces around <"))

around_greater : CleansedLines → ℕ → Option Found → List Report
unfolding group_text reverse_close_expression
around_greater clean_lines linenum none = []
around_greater clean_lines linenum (some m) =
    when
      (not (
        is_some
          (reverse_close_expression clean_lines.elided linenum (length (group_text m 1))).pos))
      (operators linenum 3 (text "Missing spaces around >"))

comparison : CleansedLines → ℕ → Text → Option Found → List Report
unfolding group_text matches match_text around_less around_greater
comparison clean_lines linenum line (some m) =
    operators linenum 3 (text "Missing spaces around " ++ group_text m 1) ∷ []
comparison clean_lines linenum line none =
    if matches "#.*include" line
    then []
    else around_less clean_lines linenum (match_text "^(.*[^\\s<])<[^\\s=<,]" line)
      ++ around_greater clean_lines linenum (match_text "^(.*[^-\\s>])>[^\\s=>,]" line)

-- `s.isdigit()`
is_digits : Text → Bool
unfolding is_digit
is_digits s = not (is_empty s) && all is_digit s

left_shift : ℕ → Option Found → List Report
unfolding group_text is_digits same
left_shift linenum none = []
left_shift linenum (some m) =
    when
      (not (is_digits (group_text m 1) && is_digits (group_text m 2))
        && not (same (group_text m 1) (text "operator") && same (group_text m 2) (text ";")))
      (operators linenum 3 (text "Missing spaces around <<"))

unary : ℕ → Option Found → List Report
unfolding group_text
unary linenum none = []
unary linenum (some m) =
    operators linenum 4 (text "Extra space for operator " ++ group_text m 1) ∷ []

unfoldable pub check_operator_spacing : CleansedLines → ℕ → List Report
unfolding mask_operators assignment comparison left_shift unary contains search_text
check_operator_spacing clean_lines linenum =
    let whole = get_or clean_lines.elided linenum [] in
    let line = mask_operators (length whole) whole in
    assignment linenum line
    ++ comparison clean_lines linenum line
        (search_text "[^<>=!\\s](==|!=|<=|>=|\\|\\|)[^<>=!\\s,;\\)]" line)
    ++ left_shift linenum
        (search_text "(operator|[^\\s(<])(?:L|UL|LL|ULL|l|ul|ll|ull)?<<([^\\s,=<])" line)
    ++ when (contains ">>[a-zA-Z_]" line) (operators linenum 3 (text "Missing spaces around >>"))
    ++ unary linenum (search_text "(!\\s|~\\s|[\\s]--[\\s;]|[\\s]\\+\\+[\\s;])" line)
