-- ===== src/Lint/FunctionState.antt =====
-- cpplint.py, `_FunctionState`: the length of the function body that is being read.
pub mod Length
use netproject_c.Prelude.{
  ℕ, ◌+◌, ◌*◌, ◌^◌, Bool, true, false, List, [], ◌∷◌, ◌++◌, Text, text, ltb, if◌then◌else◌, show,
}
use netproject_c.Lint.Patterns.{matches}
use netproject_c.Lint.Report.{Report, report}

pub record FunctionState : Type 0 where
  pub in_a_function : Bool
  pub lines_in_function : ℕ
  pub current_function : Text

abbrev pub normal_trigger : ℕ
normal_trigger = 250

abbrev pub test_trigger : ℕ
test_trigger = 400

pub init : FunctionState
init = record { in_a_function = false; lines_in_function = 0; current_function = [] }

unfoldable pub begin : FunctionState → Text → FunctionState
begin self function_name = record {
  in_a_function = true;
  lines_in_function = 0;
  current_function = function_name;
}

unfoldable pub count : FunctionState → FunctionState
count self =
    if self.in_a_function
    then record self { lines_in_function = self.lines_in_function + 1 }
    else self

unfoldable pub end : FunctionState → FunctionState
end self = record self { in_a_function = false }

pub base_trigger : FunctionState → ℕ
unfolding matches
base_trigger self =
    if matches "T(EST|est)" self.current_function then test_trigger else normal_trigger

-- `log_level n b` stands for `int(math.log(n / b, 2))`, which is computed on floats.
unfoldable pub check : (ℕ → ℕ → ℕ) → ℕ → FunctionState → ℕ → List Report
unfolding base_trigger
check log_level verbose_level self linenum =
    let base = base_trigger self in
    let trigger = base * 2 ^ verbose_level in
    let level = log_level self.lines_in_function base in
    let error_level = if ltb 5 level then 5 else level in
    if self.in_a_function
    then (if ltb trigger self.lines_in_function
        then report linenum "readability/fn_size" error_level (
            text "Small and focused functions are preferred: "
            ++ self.current_function
            ++ text " has "
            ++ show self.lines_in_function
            ++ text " non-comment lines (error triggered by exceeding "
            ++ show trigger
            ++ text " lines).")
          ∷ []
        else [])
    else []
