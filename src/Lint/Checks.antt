-- ===== src/Lint/Checks.antt =====
-- cpplint.py, the checks of a file as a whole: `CheckForCopyright`, `CheckForBadCharacters` and
-- `CheckForNewlineAtEOF`. The children have the checks of single lines.
pub mod Threading
pub mod FunctionCall
pub mod FunctionLengths
pub mod CommentStyle
pub mod Sections
pub mod Spacing
pub mod Braces
pub mod Semicolons
pub mod Operators
pub mod EmptyBody
pub mod CheckMacros
pub mod AltTokens
pub mod Style
pub mod Virtual
pub mod Namespaces
pub mod BlankLines
pub mod BraceSpacing
pub mod Constructs
pub mod Dialect
pub mod Endings
use netproject_c.Prelude.{
  ℕ, zero, suc, ◌+◌, ◌-◌, Bool, true, false, not, ◌||◌, List, [], ◌∷◌, ◌++◌, Text, text, ltb, ◌==◌,
  if◌then◌else◌, length, take, drop, get_or, any, lower,
}
use netproject_c.Lint.Patterns.{contains}
use netproject_c.Lint.Report.{Report, report}

-- `re.I` is the search of the lower-case text.
has_copyright : Text → Bool
unfolding contains lower
has_copyright line = contains "copyright" (lower line)

-- The lines from number 1 to number 10.
pub check_for_copyright : List Text → List Report
unfolding has_copyright
check_for_copyright lines =
    if any has_copyright (take 10 (drop 1 lines))
    then []
    else report 0 "legal/copyright" 5 (
        text "No copyright message found.  "
        ++ text "You should have a line: \"Copyright [year] <Copyright Owner>\"")
      ∷ []

abbrev replacement_character : ℕ
replacement_character = 65533

abbrev bad_characters_of_line : ℕ → Text → List Report
bad_characters_of_line linenum line =
    (if any (λ c. c == replacement_character) line
      then report linenum "readability/utf8" 5
          (text "Line contains invalid UTF-8 (or Unicode replacement character).")
        ∷ []
      else [])
    ++ (if any (λ c. c == 0) line
        then report linenum "readability/nul" 5 (text "Line contains NUL byte.") ∷ []
        else [])

pub bad_characters_from : ℕ → List Text → List Report
bad_characters_from linenum [] = []
bad_characters_from linenum (line ∷ lines) =
    bad_characters_of_line linenum line ++ bad_characters_from (linenum + 1) lines

pub check_for_bad_characters : List Text → List Report
unfolding bad_characters_from
check_for_bad_characters lines = bad_characters_from 0 lines

abbrev pub is_empty : Text → Bool
is_empty [] = true
is_empty (c ∷ s) = false

-- A file has a marker line on either side, so it never has fewer than three lines: the number that is
-- reported, `len(lines) - 2`, is then not negative.
unfoldable pub check_for_newline_at_eof : List Text → List Report
check_for_newline_at_eof lines =
    if ltb (length lines) 3 || not (is_empty (get_or lines (length lines - 2) []))
    then report (length lines - 2) "whitespace/ending_newline" 5
        (text "Could not find a newline character at the end of the file.")
      ∷ []
    else []
