-- ===== src/Lint/Tests/Checks.antt =====
-- Runs of the checks of single lines.
use netproject_c.Prelude.{ℕ, List, [], ◌∷◌, Text, text, map, ◌≡◌, refl, false}
use netproject_c.Lint.Report.{Report}
use netproject_c.Lint.Cleansed.{CleansedLines}
use netproject_c.Lint.FunctionState.{FunctionState}
use netproject_c.Lint.Checks.Threading.{check_posix_threading, check_invalid_increment}
use netproject_c.Lint.Checks.FunctionCall.{check_spacing_for_function_call}
use netproject_c.Lint.Checks.FunctionLengths.{check_for_function_lengths}
use netproject_c.Lint.Checks.CommentStyle.{check_comment}
use netproject_c.Lint.Checks.Spacing.{check_parenthesis_spacing, check_comma_spacing}
use netproject_c.Lint.Checks.Dialect.{flag_cxx11_features, check_redundant_override_or_final}

abbrev lines_of : List Text → CleansedLines
lines_of lines = record {
  elided = lines;
  lines = lines;
  raw_lines = lines;
  num_lines = 9;
  lines_without_raw_strings = lines;
}

abbrev confidences : List Report → List ℕ
confidences reports = map (λ r. r.confidence) reports

threading_run :
    confidences (check_posix_threading (lines_of (text "int x = rand();" ∷ [])) 0) ≡ 2 ∷ []
unfolding check_posix_threading
threading_run = refl

increment_run :
    confidences (check_invalid_increment (lines_of (text "  *count++;" ∷ [])) 0) ≡ 5 ∷ []
unfolding check_invalid_increment
increment_run = refl

call_run :
    confidences (check_spacing_for_function_call (lines_of (text "f( 3, 4 );" ∷ [])) 0) ≡ 4 ∷ 2 ∷ []
unfolding check_spacing_for_function_call
call_run = refl

comment_run : confidences (check_comment (text "a; //TODO x") 1 0) ≡ 2 ∷ 2 ∷ 4 ∷ []
unfolding check_comment
comment_run = refl

parenthesis_run :
    confidences (check_parenthesis_spacing (lines_of (text "  if( ab) {" ∷ [])) 0) ≡ 5 ∷ 5 ∷ []
unfolding check_parenthesis_spacing
parenthesis_run = refl

comma_run : confidences (check_comma_spacing (lines_of (text "f(a,b);x" ∷ [])) 0) ≡ 3 ∷ 3 ∷ []
unfolding check_comma_spacing
comma_run = refl

header_run : confidences (flag_cxx11_features (lines_of (text "#include <thread>" ∷ [])) 0) ≡ 5 ∷ []
unfolding flag_cxx11_features
header_run = refl

override_run :
    confidences
      (check_redundant_override_or_final (lines_of (text "void f() override final;" ∷ [])) 0)
    ≡ 4 ∷ []
unfolding check_redundant_override_or_final
override_run = refl

abbrev outside : FunctionState
outside = record { in_a_function = false; lines_in_function = 0; current_function = [] }

function_run :
    (check_for_function_lengths
      (λ n b. 0)
      1
      (lines_of (text "int Foo::Bar(int x)" ∷ text "{" ∷ []))
      0
      outside).0.current_function
    ≡ text "Foo::Bar()"
unfolding check_for_function_lengths
function_run = refl
