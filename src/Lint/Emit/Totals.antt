-- ===== src/Lint/Emit/Totals.antt =====
-- The error count after the checks of a file.
use netproject_c.Prelude.{
  ℕ, ◌+◌, Bool, true, false, not, ◌&&◌, some, List, [], ◌∷◌, Text, text, ◌≡◌, refl, arith, ◌∙◌, ap,
  length, length-append, ltb, all, if◌then◌else◌, same, Bool-cases, inl, inr,
}
use netproject_c.Lint.Report.{Report, tell, nolint}
use netproject_c.Lint.State.{CppLintState, is_signed, increment_error_count, add_junit_failure}
use netproject_c.Lint.Nolint.{
  Suppressions, is_error_suppressed_by_nolint, parse_nolint_suppressions,
  process_global_suppressions, reset_nolint_suppressions,
}
use netproject_c.Lint.Emit.{
  formatted, Run, should_print_error, emit, error, errors, Event, reset, global_directives, acted,
  event_step, process_events, with_suppressions,
}
use netproject_c.Lint.Emit.Verdict.{last_verdict, or_default, should_print_error_exact}

-- Whether a report passes, as the settings and the suppressions decide it.
pub passes : CppLintState → Suppressions → Report → Bool
passes state sup r =
    not (is_error_suppressed_by_nolint sup r.category r.linenum)
    && not (ltb r.confidence state.verbose_level)
    && not (or_default (last_verdict state.filters r.category) false)

pub count_passing : CppLintState → Suppressions → List Report → ℕ
count_passing state sup [] = 0
count_passing state sup (r ∷ rs) =
    (if passes state sup r then 1 else 0) + count_passing state sup rs

-- The reports that pass, each under the suppressions that are in force when it is made.
pub count_events : CppLintState → Suppressions → List Event → ℕ
count_events state sup [] = 0
count_events state sup (reset ∷ es) = count_events state (reset_nolint_suppressions sup) es
count_events state sup (global_directives lines ∷ es) =
    count_events state (process_global_suppressions sup lines) es
count_events state sup (acted (nolint raw_line linenum) ∷ es) =
    let (after, complaints) = parse_nolint_suppressions sup raw_line linenum in
    count_passing state sup complaints + count_events state after es
count_events state sup (acted (tell r) ∷ es) =
    (if passes state sup r then 1 else 0) + count_events state sup es

-- What `emit` leaves alone, and what it adds.
record Emitted (run run' : Run) : Type 0 where
  filters : run'.state.filters ≡ run.state.filters
  verbose : run'.state.verbose_level ≡ run.state.verbose_level
  format : run'.state.output_format ≡ run.state.output_format
  counted : run'.state.error_count ≡ run.state.error_count + 1
  shown :
      length run'.output + length run'.state.junit_failures
      ≡ length run.output + length run.state.junit_failures + 1

emit-Emitted : (filename : Text) (run : Run) (r : Report) → Emitted run (emit filename run r)
unfolding emit increment_error_count add_junit_failure
emit-Emitted filename run r = elim (Bool-cases (same run.state.output_format (text "junit"))) [
  | inl junit ↦ rw junit (record {
    filters = refl;
    verbose = refl;
    format = refl;
    counted = refl;
    shown = omega (arith, length-append run.state.junit_failures ((filename, r) ∷ []));
  })
  | inr other ↦ rw other (record {
    filters = refl;
    verbose = refl;
    format = refl;
    counted = refl;
    shown =
        omega (arith, length-append run.output (formatted run.state.output_format filename r ∷ []));
  })
]

passes-settings :
    (a b : CppLintState) (sup : Suppressions) (rs : List Report)
    → a.filters ≡ b.filters
    → a.verbose_level ≡ b.verbose_level
    → count_passing a sup rs ≡ count_passing b sup rs
unfolding count_passing passes
passes-settings a b sup [] f v = refl
passes-settings a b sup (r ∷ rs) f v = rw (f, v, passes-settings a b sup rs f v)

abbrev pub shown_in : Run → ℕ
shown_in run = length run.output + length run.state.junit_failures

verdict :
    (run : Run) (sup : Suppressions) (r : Report)
    → all is_signed run.state.filters ≡ true
    → should_print_error run.state sup r.category r.confidence r.linenum
      ≡ some (passes run.state sup r)
unfolding passes
verdict run sup r h = should_print_error_exact run.state sup r.category r.confidence r.linenum h

error-passes :
    (filename : Text) (sup : Suppressions) (run : Run) (r : Report)
    → all is_signed run.state.filters ≡ true
    → error filename sup run r ≡ some (if passes run.state sup r then emit filename run r else run)
unfolding error
error-passes filename sup run r h = rw (verdict run sup r h, error)

-- What calls of `Error` leave: the settings as they were, and the reports that pass counted.
record Counted (n : ℕ) (run run' : Run) : Type 0 where
  filters : run'.state.filters ≡ run.state.filters
  verbose : run'.state.verbose_level ≡ run.state.verbose_level
  counted : run'.state.error_count ≡ run.state.error_count + n
  shown : shown_in run' ≡ shown_in run + n

Counted-refl : (run : Run) → Counted 0 run run
Counted-refl run = record {
  filters = refl;
  verbose = refl;
  counted = omega arith;
  shown = omega arith;
}

Counted-trans : {n m : ℕ} {a b c : Run} → Counted n a b → Counted m b c → Counted (n + m) a c
Counted-trans x y = record {
  filters = y.filters ∙ x.filters;
  verbose = y.verbose ∙ x.verbose;
  counted = omega (arith, x.counted, y.counted);
  shown = omega (arith, x.shown, y.shown);
}

error-Counted :
    (filename : Text) (sup : Suppressions) (run : Run) (r : Report)
    → all is_signed run.state.filters ≡ true
    → (run' : Run) × (error filename sup run r ≡ some run')
      × Counted (if passes run.state sup r then 1 else 0) run run'
error-Counted filename sup run r h = elim (Bool-cases (passes run.state sup r)) [
  | inl pass ↦
      let e = emit-Emitted filename run r in
      (
        emit filename run r,
        error-passes filename sup run r h ∙ rw pass refl,
        rw pass (record {
          filters = e.filters;
          verbose = e.verbose;
          counted = e.counted;
          shown = e.shown;
        }),
      )
  | inr drop ↦ (run, error-passes filename sup run r h ∙ rw drop refl, rw drop (Counted-refl run))
]

errors-Counted :
    (filename : Text) (sup : Suppressions) (rs : List Report) (run : Run)
    → all is_signed run.state.filters ≡ true
    → (run' : Run) × (errors filename sup run rs ≡ some run')
      × Counted (count_passing run.state sup rs) run run'
unfolding errors count_passing
errors-Counted filename sup [] run h = (run, refl, Counted-refl run)
errors-Counted filename sup (r ∷ rs) run h =
    let (next, made, first) = error-Counted filename sup run r h in
    let (last, done, others) = errors-Counted filename sup rs next (rw first.filters h) in
    let settled = passes-settings next.state run.state sup rs first.filters first.verbose in
    (last, rw (made, errors) done, Counted-trans first (rw settled at others))

events-settings :
    (a b : CppLintState) (sup : Suppressions) (es : List Event)
    → a.filters ≡ b.filters
    → a.verbose_level ≡ b.verbose_level
    → count_events a sup es ≡ count_events b sup es
unfolding count_events passes
events-settings a b sup [] f v = refl
events-settings a b sup (reset ∷ es) f v = events-settings a b _ es f v
events-settings a b sup (global_directives lines ∷ es) f v = events-settings a b _ es f v
events-settings a b sup (acted (nolint raw_line linenum) ∷ es) f v =
    let (after, complaints) = parse_nolint_suppressions sup raw_line linenum in
    rw (passes-settings a b sup complaints f v, events-settings a b after es f v)
events-settings a b sup (acted (tell r) ∷ es) f v = rw (f, v, events-settings a b sup es f v)

-- One event: the suppressions and the run behind it, and what is still to be counted.
record Stepped (filename : Text) (sup : Suppressions) (run : Run) (e : Event) : Type 0 where
  after : Suppressions
  next : Run
  passed : ℕ
  step : event_step filename sup run e ≡ some (after, next)
  kept : Counted passed run next
  split :
      (es : List Event)
      → count_events run.state sup (e ∷ es) ≡ passed + count_events run.state after es

event_step-Stepped :
    (filename : Text) (sup : Suppressions) (run : Run) (e : Event)
    → all is_signed run.state.filters ≡ true
    → Stepped filename sup run e
unfolding event_step count_events
event_step-Stepped filename sup run reset h = record {
  after = reset_nolint_suppressions sup;
  next = run;
  passed = 0;
  step = refl;
  kept = Counted-refl run;
  split = λ es. omega arith;
}
event_step-Stepped filename sup run (global_directives lines) h = record {
  after = process_global_suppressions sup lines;
  next = run;
  passed = 0;
  step = refl;
  kept = Counted-refl run;
  split = λ es. omega arith;
}
event_step-Stepped filename sup run (acted (nolint raw_line linenum)) h =
    let parsed = parse_nolint_suppressions sup raw_line linenum in
    let (next, made, kept) = errors-Counted filename sup parsed.1 run h in
    record {
      after = parsed.0;
      next = next;
      passed = count_passing run.state sup parsed.1;
      step = ap (with_suppressions parsed.0) made;
      kept = kept;
      split = λ es. refl;
    }
event_step-Stepped filename sup run (acted (tell r)) h =
    let (next, made, kept) = error-Counted filename sup run r h in
    record {
      after = sup;
      next = next;
      passed = if passes run.state sup r then 1 else 0;
      step = ap (with_suppressions sup) made;
      kept = kept;
      split = λ es. refl;
    }

-- With filters that all have a sign, no assertion fails in the course of a file, whatever the order
-- of reports and of changes of the suppressions; and the count of errors and the number of lines or
-- junit entries shown both grow by the number of reports that pass, each under the suppressions in
-- force when it is made.
pub errors_counted :
    (filename : Text) (es : List Event) (sup : Suppressions) (run : Run)
    → all is_signed run.state.filters ≡ true
    → (sup' : Suppressions) × (run' : Run) × (process_events filename sup run es
        ≡ some (sup', run'))
      × (run'.state.error_count ≡ run.state.error_count + count_events run.state sup es)
      × (shown_in run' ≡ shown_in run + count_events run.state sup es)
unfolding process_events count_events
errors_counted filename [] sup run h = (sup, run, refl, omega arith, omega arith)
errors_counted filename (e ∷ es) sup run h =
    let s = event_step-Stepped filename sup run e h in
    let (sup', run', done, counted, shown) =
      errors_counted filename es s.after s.next (rw s.kept.filters h) in
    let settled = events-settings s.next.state run.state s.after es s.kept.filters s.kept.verbose in
    (
      sup',
      run',
      rw (s.step, process_events) done,
      omega (arith, s.split es, s.kept.counted, settled, counted),
      omega (arith, s.split es, s.kept.shown, settled, shown),
    )
