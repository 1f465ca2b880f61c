-- ===== src/Lint/Includes/Entered.antt =====
-- Which headers a line `#include` adds to those that `FindHeader` knows of.
use netproject_c.Prelude.{
  ℕ, Bool, true, false, not, ◌&&◌, ◌||◌, Option, none, some, [], Text, if◌then◌else◌, is_some, same,
  ◌≡◌, ◌≢◌, refl, sym, ◌∙◌,
}
use netproject_c.Lint.Settings.{Settings, get_non_header_extensions}
use netproject_c.Lint.Cleansed.{CleansedLines}
use netproject_c.Lint.IncludeState.{IncludeState, HeaderType, find_header, first_of_two}
use netproject_c.Lint.IncludeState.Headers.{
  included, find_header-included, include_list-ordered, find_header-include_list,
}
use netproject_c.Lint.Includes.Classify.{classify_include}
use netproject_c.Lint.Includes.{
  enter_include, take_include, new_include, foreign_source, is_own_header, third_party,
}

-- Neither a duplicate nor a source file of another package, and not one of the headers that the check
-- passes over.
unfoldable pub is_entered : Settings → Text → IncludeState → Text → Bool
is_entered settings filename state include =
    not (is_some (find_header state include))
    && not (is_some (foreign_source settings filename include (get_non_header_extensions settings)))
    && (is_own_header settings filename include || not (third_party include))

first_of_two-none : (o : Option ℕ) → first_of_two o none ≡ o
first_of_two-none none = refl
first_of_two-none (some n) = refl

find_header-enter_include :
    (settings : Settings) (filename : Text) (clean_lines : CleansedLines) (linenum : ℕ)
    (state : IncludeState) (include h : Text) (ty : HeaderType)
    → state.include_list ≢ []
    → find_header (enter_include settings filename clean_lines linenum state include ty).0 h
      ≡ first_of_two (find_header state h) (if same include h then some linenum else none)
unfolding enter_include
find_header-enter_include settings filename clean_lines linenum state include h ty ne =
    find_header-include_list _ (included state include linenum) h
      (include_list-ordered (included state include linenum) ty _)
    ∙ find_header-included state include h linenum ne

abbrev found_after : IncludeState → Text → Text → ℕ → Bool → Option ℕ
found_after state include h linenum entered =
    first_of_two (find_header state h) (if entered && same include h then some linenum else none)

not_entered :
    (state : IncludeState) (include h : Text) (linenum : ℕ)
    → find_header state h ≡ found_after state include h linenum false
not_entered state include h linenum = sym (first_of_two-none (find_header state h))

find_header-new_include :
    (settings : Settings) (filename : Text) (clean_lines : CleansedLines) (linenum : ℕ)
    (state : IncludeState) (include h : Text) (is_system : Bool) (foreign : Option Text)
    → state.include_list ≢ []
    → find_header
        (new_include settings filename clean_lines linenum state include is_system foreign).0
        h
      ≡ found_after state include h linenum (
          not (is_some foreign)
          && (is_own_header settings filename include || not (third_party include)))
unfolding new_include
find_header-new_include settings filename clean_lines linenum state include h is_system (some ext)
      ne =
    not_entered state include h linenum
find_header-new_include settings filename clean_lines linenum state include h is_system none ne =
    by_test (is_own_header settings filename include || not (third_party include))
      (classify_include settings filename include is_system)
  where
    by_test :
        (b : Bool) (ty : HeaderType)
        → find_header
            (if b
              then enter_include settings filename clean_lines linenum state include ty
              else (state, [])).0
            h
          ≡ found_after state include h linenum b
    by_test true ty =
        find_header-enter_include settings filename clean_lines linenum state include h ty ne
    by_test false ty = not_entered state include h linenum

find_header-taken :
    (settings : Settings) (filename : Text) (clean_lines : CleansedLines) (linenum : ℕ)
    (state : IncludeState) (include h : Text) (is_system : Bool) (known : Option ℕ)
    → state.include_list ≢ []
    → find_header
        (take_include settings filename clean_lines linenum state include is_system known).0
        h
      ≡ found_after state include h linenum (
          not (is_some known)
          && not (
              is_some
                (foreign_source settings filename include (get_non_header_extensions settings)))
          && (is_own_header settings filename include || not (third_party include)))
unfolding take_include
find_header-taken settings filename clean_lines linenum state include h is_system (some k) ne =
    not_entered state include h linenum
find_header-taken settings filename clean_lines linenum state include h is_system none ne =
    find_header-new_include settings filename clean_lines linenum state include h is_system _ ne

-- In a state with one list of includes at least, the search for a header after a line `#include` finds
-- what it found before, and else that line, if it is for the header and the header is one that is
-- entered.
pub find_header-take_include :
    (settings : Settings) (filename : Text) (clean_lines : CleansedLines) (linenum : ℕ)
    (state : IncludeState) (include h : Text) (is_system : Bool)
    → state.include_list ≢ []
    → find_header
        (take_include settings filename clean_lines linenum state include is_system
          (find_header state include)).0
        h
      ≡ first_of_two (find_header state h) (
          if is_entered settings filename state include && same include h
          then some linenum
          else none)
unfolding is_entered
find_header-take_include settings filename clean_lines linenum state include h is_system ne =
    find_header-taken settings filename clean_lines linenum state include h is_system
      (find_header state include) ne
