-- ===== src/Lint/Nesting/Preprocessor.antt =====
-- cpplint.py, `NestingState.UpdatePreprocessor`, over any type of blocks.
pub mod Restore
use netproject_c.Prelude.{Bool, true, false, Option, none, some, List, [], ◌∷◌, Text, if◌then◌else◌}
use netproject_c.Lint.Patterns.{matches}

-- `_PreprocessorInfo`
pub record PreprocessorInfo (B : Type 0) : Type 0 where
  pub stack_before_if : List B
  pub stack_before_else : List B
  pub seen_else : Bool

pub data Directive : Type 0 where
  begin_if begin_else end_if no_directive : Directive

unfoldable pub directive_of : Text → Directive
unfolding matches
directive_of line =
    if matches "^\\s*#\\s*(if|ifdef|ifndef)\\b" line
    then begin_if
    else if matches "^\\s*#\\s*(else|elif)\\b" line
    then begin_else
    else if matches "^\\s*#\\s*endif\\b" line
    then end_if
    else no_directive

-- The nesting stack and the stack of preprocessor infos.
abbrev pub Stacks : Type 0 → Type 0
Stacks B = List B × List (PreprocessorInfo B)

module _ {B : Type 0} where
  unfoldable pub push_if : Stacks B → Stacks B
  push_if (stack, pp) =
      (stack, record { stack_before_if = stack; stack_before_else = []; seen_else = false } ∷ pp)

  unfoldable pub turn_else : Stacks B → Stacks B
  turn_else (stack, []) = (stack, [])
  turn_else (stack, info ∷ pp) = (
    info.stack_before_if,
    (if info.seen_else then info else record info { seen_else = true; stack_before_else = stack })
        ∷ pp,
  )

  unfoldable pub pop_if : Stacks B → Stacks B
  pop_if (stack, []) = (stack, [])
  pop_if (stack, info ∷ pp) = (if info.seen_else then info.stack_before_else else stack, pp)

  unfoldable pub directive_step : Directive → Stacks B → Stacks B
  unfolding push_if turn_else pop_if
  directive_step begin_if s = push_if s
  directive_step begin_else s = turn_else s
  directive_step end_if s = pop_if s
  directive_step no_directive s = s

  unfoldable pub update_preprocessor : Text → Stacks B → Stacks B
  unfolding directive_step directive_of
  update_preprocessor line s = directive_step (directive_of line) s
