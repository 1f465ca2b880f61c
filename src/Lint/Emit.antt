-- ===== src/Lint/Emit.antt =====
-- cpplint.py, `_ShouldPrintError` and `Error`: which reports reach the output.
pub mod Verdict
pub mod Totals
use netproject_c.Prelude.{
  ℕ, Bool, true, false, not, ◌&&◌, ◌||◌, Option, none, some, List, [], ◌∷◌, ◌++◌, Text, text, ltb,
  if◌then◌else◌, same, starts_with, drop, show,
}
use netproject_c.Lint.Report.{Report, Action, tell, nolint}
use netproject_c.Lint.State.{CppLintState, increment_error_count, add_junit_failure}
use netproject_c.Lint.Nolint.{
  Suppressions, is_error_suppressed_by_nolint, parse_nolint_suppressions,
  process_global_suppressions, reset_nolint_suppressions,
}

-- One filter of the loop. `none` stands for the failed assertion on a filter with no sign.
pub apply_filter : Text → Text → Bool → Option Bool
unfolding starts_with
apply_filter one_filter category is_filtered =
    if starts_with one_filter (text "-")
    then some (if starts_with category (drop 1 one_filter) then true else is_filtered)
    else if starts_with one_filter (text "+")
    then some (if starts_with category (drop 1 one_filter) then false else is_filtered)
    else none

pub filter_loop : List Text → Text → Bool → Option Bool
unfolding apply_filter
filter_loop [] category is_filtered = some is_filtered
filter_loop (f ∷ fs) category is_filtered = elim (apply_filter f category is_filtered) [
  | none ↦ none
  | some b ↦ filter_loop fs category b
]

abbrev pub negated : Option Bool → Option Bool
negated none = none
negated (some b) = some (not b)

pub should_print_error : CppLintState → Suppressions → Text → ℕ → ℕ → Option Bool
unfolding filter_loop is_error_suppressed_by_nolint
should_print_error state suppressions category confidence linenum =
    if is_error_suppressed_by_nolint suppressions category linenum
    then some false
    else if ltb confidence state.verbose_level
    then some false
    else negated (filter_loop state.filters category false)

-- The line that `Error` writes in the formats other than junit.
abbrev pub formatted : Text → Text → Report → Text
formatted format filename r =
    let tail = text "  [" ++ r.category ++ text "] [" ++ show r.confidence ++ text "]\n" in
    if same format (text "vs7")
    then filename
      ++ text "("
      ++ show r.linenum
      ++ text "): error cpplint: ["
      ++ r.category
      ++ text "] "
      ++ r.message
      ++ text " ["
      ++ show r.confidence
      ++ text "]\n"
    else if same format (text "eclipse")
    then filename ++ text ":" ++ show r.linenum ++ text ": warning: " ++ r.message ++ tail
    else filename ++ text ":" ++ show r.linenum ++ text ":  " ++ r.message ++ tail

-- What a run has changed: the state, and the lines written to an output stream.
pub record Run : Type 0 where
  pub state : CppLintState
  pub output : List Text

pub emit : Text → Run → Report → Run
unfolding increment_error_count add_junit_failure
emit filename run r =
    let counted = increment_error_count run.state r.category in
    if same run.state.output_format (text "junit")
    then record run { state = add_junit_failure counted filename r }
    else record run {
      state = counted;
      output = run.output ++ formatted run.state.output_format filename r ∷ [];
    }

-- `Error`; `none` is the failed assertion.
pub error : Text → Suppressions → Run → Report → Option Run
unfolding should_print_error emit
error filename suppressions run r =
    elim (should_print_error run.state suppressions r.category r.confidence r.linenum) [
      | none ↦ none
      | some b ↦ some (if b then emit filename run r else run)
    ]

-- Calls of `Error` in a row, between which the suppressions stay the same.
pub errors : Text → Suppressions → Run → List Report → Option Run
unfolding error
errors filename suppressions run [] = some run
errors filename suppressions run (r ∷ rs) = elim (error filename suppressions run r) [
  | none ↦ none
  | some run' ↦ errors filename suppressions run' rs
]

-- What `ProcessFileData` and the checks that it calls do to the suppressions and the run, in their
-- order: a check makes the actions that its function here returns.
pub data Event : Type 0 where
  reset : Event
  global_directives : List Text → Event
  acted : Action → Event

abbrev pub with_suppressions : Suppressions → Option Run → Option (Suppressions × Run)
with_suppressions s none = none
with_suppressions s (some run) = some (s, run)

-- `ParseNolintSuppressions` either adds a suppression or calls `Error`, with the old suppressions.
pub event_step : Text → Suppressions → Run → Event → Option (Suppressions × Run)
unfolding error errors
event_step filename s run reset = some (reset_nolint_suppressions s, run)
event_step filename s run (global_directives lines) =
    some (process_global_suppressions s lines, run)
event_step filename s run (acted (nolint raw_line linenum)) =
    let parsed = parse_nolint_suppressions s raw_line linenum in
    with_suppressions parsed.0 (errors filename s run parsed.1)
event_step filename s run (acted (tell r)) = with_suppressions s (error filename s run r)

pub process_events : Text → Suppressions → Run → List Event → Option (Suppressions × Run)
unfolding event_step
process_events filename s run [] = some (s, run)
process_events filename s run (e ∷ es) = elim (event_step filename s run e) [
  | none ↦ none
  | some (s', run') ↦ process_events filename s' run' es
]
