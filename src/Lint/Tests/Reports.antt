-- ===== src/Lint/Tests/Reports.antt =====
-- Runs of `ParseNolintSuppressions`, `_ShouldPrintError` and `Error`.
use netproject_c.Prelude.{
  ◌+◌, some, List, [], ◌∷◌, text, ◌≡◌, refl, false, not, ◌&&◌, ◌||◌, ltb, ◌==◌, starts_with,
}
use netproject_c.Lint.Report.{report, tell, nolint}
use netproject_c.Lint.State.{CppLintState}
use netproject_c.Lint.Nolint.{Suppressions, apply_nolint, is_error_suppressed_by_nolint}
use netproject_c.Lint.Nolint.Exact.{covers, target, apply_nolint_exact}
use netproject_c.Lint.Emit.{
  Run, should_print_error, reset, global_directives, acted, Event, process_events,
}
use netproject_c.Lint.Emit.Verdict.{last_verdict, or_default, should_print_error_exact}
use netproject_c.Lint.Emit.Totals.{count_events, shown_in, errors_counted}

abbrev state : CppLintState
state = record {
  verbose_level = 2;
  error_count = 0;
  filters = text "-whitespace" ∷ text "+whitespace/tab" ∷ [];
  filters_backup = [];
  counting = text "total";
  errors_by_category = [];
  quiet = false;
  output_format = text "emacs";
  junit_failures = [];
}

abbrev suppressions : Suppressions
suppressions = record {
  by_line = (some (text "build/include"), 4 ∷ []) ∷ [];
  globally = text "legal/copyright" ∷ [];
}

apply_nolint_exact_example :
    is_error_suppressed_by_nolint
      (apply_nolint suppressions 9 (some (text "NEXTLINE")) (some (text "(whitespace/tab)"))).0
      (text "whitespace/tab")
      10
    ≡ (is_error_suppressed_by_nolint suppressions (text "whitespace/tab") 10
        || (covers (some (text "(whitespace/tab)")) (text "whitespace/tab")
            && target 9 (some (text "NEXTLINE")) == 10))
apply_nolint_exact_example =
    apply_nolint_exact suppressions 9 (some (text "NEXTLINE")) (some (text "(whitespace/tab)"))
      (text "whitespace/tab") 10

should_print_error_exact_example :
    should_print_error state suppressions (text "whitespace/tab") 3 6
    ≡ some (
        not (is_error_suppressed_by_nolint suppressions (text "whitespace/tab") 6)
        && not (ltb 3 2)
        && not (or_default (last_verdict state.filters (text "whitespace/tab")) false))
unfolding starts_with
should_print_error_exact_example =
    should_print_error_exact state suppressions (text "whitespace/tab") 3 6 refl

abbrev run : Run
run = record { state = state; output = [] }

abbrev events : List Event
events =
    reset
    ∷ acted (tell (report 5 "whitespace/tab" 3 (text "before the comment")))
    ∷ acted (nolint (text "x  // NOLINT(whitespace/tab)") 5)
    ∷ acted (tell (report 5 "whitespace/tab" 3 (text "behind the comment")))
    ∷ acted (nolint (text "y  // NOLINT(no/such)") 6)
    ∷ global_directives (text "// LINT_C_FILE" ∷ [])
    ∷ acted (tell (report 7 "readability/casting" 4 (text "suppressed for the file")))
    ∷ acted (tell (report 8 "whitespace/eol" 4 (text "filtered")))
    ∷ []

errors_counted_example :
    (sup' : Suppressions) × (run' : Run) × (process_events (text "a.cpp") suppressions run events
      ≡ some (sup', run'))
    × (run'.state.error_count ≡ run.state.error_count + count_events run.state suppressions events)
    × (shown_in run' ≡ shown_in run + count_events run.state suppressions events)
unfolding starts_with
errors_counted_example = errors_counted (text "a.cpp") events suppressions run refl
