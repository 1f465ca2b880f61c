-- ===== src/Lint/Tests/Texts.antt =====
-- Runs of `_GetTextInside`, `CloseExpression` and the collapsing of constructor arguments.
use netproject_c.Prelude.{
  none, some, List, [], ◌∷◌, ◌++◌, Text, text, ◌≡◌, ◌↔◌, refl, arith, drop, get_or, count, join,
}
use netproject_c.Regex.{Found}
use netproject_c.Lint.Patterns.{matches, match_text}
use netproject_c.Lint.TextInside.{closing_of, get_text_inside}
use netproject_c.Lint.TextInside.Nested.{Nested}
use netproject_c.Lint.TextInside.Grammar.{get_text_inside-Nested}
use netproject_c.Lint.Expression.{
  close_expression, end_scan, end_step, end_bracket, pop_while, find_end_of_expression_in_line,
}
use netproject_c.Lint.Expression.Range.{InFile, close_expression-InFile}
use netproject_c.Lint.Checks.Constructs.{collapse_arguments, collapse_from, is_open}
use netproject_c.Lint.Checks.Constructs.Collapse.{
  Collapsed, collapse_arguments-Collapsed, collapse_arguments-unbalanced,
}

abbrev call : Text
call = text "f(a(b), c)"

abbrev call_start : Found
call_start = record { start = 0; finish = 2; matched = text "f("; captures = [] }

get_text_inside-Nested_example :
    (get_text_inside call (some call_start) ≡ some (some (text "a(b), c"))) ↔ (
      Nested (text "a(b), c")
      × (rest : Text) × (drop 2 call ≡ text "a(b), c" ++ (closing_of (get_or call 1 0) ∷ rest)))
get_text_inside-Nested_example = get_text_inside-Nested call (text "a(b), c") call_start refl refl

abbrev two_lines : List Text
two_lines = text "f(a," ∷ text "  b);" ∷ []

close_expression-InFile_example : InFile two_lines 0 (close_expression two_lines 0 1) 4
unfolding close_expression find_end_of_expression_in_line end_scan end_step end_bracket pop_while
    matches match_text
close_expression-InFile_example = close_expression-InFile two_lines 0 1 4 refl

abbrev template_arguments : List Text
template_arguments = text " int> m" ∷ text "int n" ∷ []

collapse_arguments-Collapsed_example :
    Collapsed (text "map<int" ∷ template_arguments) (text "map<int, int> m" ∷ text "int n" ∷ [])
unfolding collapse_arguments collapse_from is_open count
collapse_arguments-Collapsed_example =
    collapse_arguments-Collapsed (text "map<int") template_arguments
      (text "map<int, int> m" ∷ text "int n" ∷ []) refl

collapse_arguments-unbalanced_example : collapse_arguments (text "bool b = x < 3" ∷ []) ≡ none
unfolding count join
collapse_arguments-unbalanced_example =
    collapse_arguments-unbalanced (text "bool b = x < 3") [] (omega arith)
