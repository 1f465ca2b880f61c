-- ===== src/Lint/State.antt =====
-- cpplint.py, `_CppLintState`: the settings, the filters and the error counts of a run. The module's
-- functions `_SetFilters`, `_BackupFilters` and so on are these methods on the one global object.
pub mod Filters
pub mod Counts
use netproject_c.Prelude.{
  ℕ, zero, suc, ◌+◌, Bool, true, false, not, ◌&&◌, ◌||◌, Option, none, some, List, [], ◌∷◌, ◌++◌,
  Text, text, if◌then◌else◌, same, one_of, starts_with, split_char, strip,
}
use netproject_c.Lint.Categories.{default_filters}
use netproject_c.Lint.Report.{Report}

pub record CppLintState : Type 0 where
  pub verbose_level : ℕ
  pub error_count : ℕ
  pub filters : List Text
  pub filters_backup : List Text
  pub counting : Text
  pub errors_by_category : List (Text × ℕ)
  pub quiet : Bool
  pub output_format : Text
  pub junit_failures : List (Text × Report)

pub init : CppLintState
init = record {
  verbose_level = 1;
  error_count = 0;
  filters = default_filters;
  filters_backup = default_filters;
  counting = text "total";
  errors_by_category = [];
  quiet = false;
  output_format = text "emacs";
  junit_failures = [];
}

pub set_output_format : CppLintState → Text → CppLintState
set_output_format self output_format = record self { output_format = output_format }

-- The setters of `quiet` and of the verbosity return the setting before.
pub set_quiet : CppLintState → Bool → CppLintState × Bool
set_quiet self quiet = (record self { quiet = quiet }, self.quiet)

pub set_verbose_level : CppLintState → ℕ → CppLintState × ℕ
set_verbose_level self level = (record self { verbose_level = level }, self.verbose_level)

pub set_counting_style : CppLintState → Text → CppLintState
set_counting_style self counting_style = record self { counting = counting_style }

-- The filters of a comma-separated list, stripped, the empty ones left out.
pub clean_filters : List Text → List Text
unfolding strip
clean_filters [] = []
clean_filters (f ∷ fs) = elim (strip f) [
  | [] ↦ clean_filters fs
  | c ∷ s ↦ (c ∷ s) ∷ clean_filters fs
]

abbrev pub is_signed : Text → Bool
is_signed f = starts_with f (text "+") || starts_with f (text "-")

-- The first filter that makes the loop raise `ValueError`.
pub first_unsigned : List Text → Option Text
first_unsigned [] = none
first_unsigned (f ∷ fs) = if is_signed f then first_unsigned fs else some f

-- The state is changed before the check: a refused filter has been added when the error is raised.
pub add_filters : CppLintState → Text → CppLintState × Option Text
unfolding clean_filters first_unsigned split_char
add_filters self filters =
    let added = self.filters ++ clean_filters (split_char b',' filters) in
    (record self { filters = added }, first_unsigned added)

pub set_filters : CppLintState → Text → CppLintState × Option Text
unfolding add_filters
set_filters self filters = add_filters (record self { filters = default_filters }) filters

pub backup_filters : CppLintState → CppLintState
backup_filters self = record self { filters_backup = self.filters }

pub restore_filters : CppLintState → CppLintState
restore_filters self = record self { filters = self.filters_backup }

pub reset_error_counts : CppLintState → CppLintState
reset_error_counts self = record self { error_count = 0; errors_by_category = [] }

-- `d[key] += 1`, with the key set to 0 first if it is not there
pub bump : Text → List (Text × ℕ) → List (Text × ℕ)
unfolding same
bump key [] = (key, 1) ∷ []
bump key ((k, n) ∷ d) = if same k key then (k, n + 1) ∷ d else (k, n) ∷ bump key d

abbrev first_or_empty : List Text → Text
first_or_empty [] = []
first_or_empty (x ∷ xs) = x

-- The key under which a category is counted; `none` where only the total is kept.
pub counted_as : Text → Text → Option Text
unfolding one_of same split_char
counted_as counting category =
    if one_of counting (text "toplevel" ∷ text "detailed" ∷ [])
    then some (
        if same counting (text "detailed")
        then category
        else first_or_empty (split_char b'/' category))
    else none

abbrev bump_key : Option Text → List (Text × ℕ) → List (Text × ℕ)
bump_key none d = d
bump_key (some key) d = bump key d

unfoldable pub increment_error_count : CppLintState → Text → CppLintState
unfolding counted_as bump
increment_error_count self category = record self {
  error_count = self.error_count + 1;
  errors_by_category = bump_key (counted_as self.counting category) self.errors_by_category;
}

unfoldable pub add_junit_failure : CppLintState → Text → Report → CppLintState
add_junit_failure self filename r = record self {
  junit_failures = self.junit_failures ++ (filename, r) ∷ [];
}
