-- ===== src/Lint/Emit/Verdict.antt =====
-- The verdict of the filters: the last one that fits decides.
use netproject_c.Prelude.{
  ℕ, Bool, true, false, not, ◌&&◌, Option, none, some, List, [], ◌∷◌, Text, text, ◌≡◌, refl, arith,
  ltb, all, if◌then◌else◌, starts_with, drop,
}
use netproject_c.Lint.State.{CppLintState, is_signed}
use netproject_c.Lint.Nolint.{Suppressions, is_error_suppressed_by_nolint}
use netproject_c.Lint.Emit.{apply_filter, filter_loop, should_print_error}

abbrev pub fits : Text → Text → Bool
fits category f = starts_with category (drop 1 f)

-- The sign of the last filter that fits the category: `true` for "-".
pub last_verdict : List Text → Text → Option Bool
last_verdict [] category = none
last_verdict (f ∷ fs) category = elim (last_verdict fs category) [
  | some b ↦ some b
  | none ↦ if fits category f then some (starts_with f (text "-")) else none
]

abbrev pub or_default : Option Bool → Bool → Bool
or_default none d = d
or_default (some b) d = b

filter_loop-last_verdict :
    (fs : List Text) (category : Text) (start : Bool)
    → all is_signed fs ≡ true
    → filter_loop fs category start ≡ some (or_default (last_verdict fs category) start)
unfolding filter_loop apply_filter last_verdict
filter_loop-last_verdict [] category start h = refl
filter_loop-last_verdict (f ∷ fs) category start h =
    ground
      (arith, filter_loop-last_verdict fs category true, filter_loop-last_verdict fs category false)

-- With filters that all have a sign the assertion holds, and a report is printed exactly when no
-- NOLINT comment or directive suppresses it, its confidence reaches the verbosity, and the last
-- filter that fits its category, if there is one, has the sign +.
pub should_print_error_exact :
    (state : CppLintState) (sup : Suppressions) (category : Text) (confidence linenum : ℕ)
    → all is_signed state.filters ≡ true
    → should_print_error state sup category confidence linenum
      ≡ some (
          not (is_error_suppressed_by_nolint sup category linenum)
          && not (ltb confidence state.verbose_level)
          && not (or_default (last_verdict state.filters category) false))
unfolding should_print_error
should_print_error_exact state sup category confidence linenum h =
    ground (arith, filter_loop-last_verdict state.filters category false)
