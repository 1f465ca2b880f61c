-- ===== src/Lint/Comments.antt =====
-- cpplint.py, the removal of comments: `RemoveMultiLineComments` on the lines of a file, and
-- `CleanseComments` on one line. A search through the lines works on those that are left, and returns
-- how many of them it has passed.
pub mod MultiLine
use netproject_c.Prelude.{
  ℕ, zero, suc, ◌+◌, ◌%◌, Bool, true, false, not, ◌&&◌, ◌||◌, Option, none, some, List, [], ◌∷◌,
  ◌++◌, Text, text, leb, ◌==◌, if◌then◌else◌, length, take, drop, starts_with, ends_with, find,
  strip, rstrip, replace, count,
}
use netproject_c.Lint.Patterns.{replace_all}
use netproject_c.Lint.Report.{Report, report}

abbrev is_none : Option ℕ → Bool
is_none none = true
is_none (some n) = false

-- A line that opens a comment and does not close it.
pub opens_comment : Text → Bool
unfolding strip starts_with find
opens_comment line =
    starts_with (strip line) (text "/*") && is_none (find (text "*/") (drop 2 (strip line)))

pub closes_comment : Text → Bool
unfolding strip ends_with
closes_comment line = ends_with (strip line) (text "*/")

pub find_next_multi_line_comment_start : List Text → ℕ
unfolding opens_comment
find_next_multi_line_comment_start [] = 0
find_next_multi_line_comment_start (line ∷ lines) =
    if opens_comment line then 0 else suc (find_next_multi_line_comment_start lines)

pub find_next_multi_line_comment_end : List Text → ℕ
unfolding closes_comment
find_next_multi_line_comment_end [] = 0
find_next_multi_line_comment_end (line ∷ lines) =
    if closes_comment line then 0 else suc (find_next_multi_line_comment_end lines)

abbrev pub dummy : Text
dummy = text "/**/"

-- `lines[i] = '/**/'` for each `i` from `begin` on, as many as `size`
pub remove_multi_line_comments_from_range : ℕ → ℕ → List Text → List Text
remove_multi_line_comments_from_range begin size [] = []
remove_multi_line_comments_from_range (suc begin) size (line ∷ lines) =
    line ∷ remove_multi_line_comments_from_range begin size lines
remove_multi_line_comments_from_range zero (suc size) (line ∷ lines) =
    dummy ∷ remove_multi_line_comments_from_range zero size lines
remove_multi_line_comments_from_range zero zero (line ∷ lines) = line ∷ lines

-- The rounds of the loop, on the lines from number `lineix` on. Each round passes a line at least, so
-- one round more than there are lines is enough.
pub remove_from : ℕ → ℕ → List Text → List Text × List Report
unfolding find_next_multi_line_comment_start find_next_multi_line_comment_end
    remove_multi_line_comments_from_range
remove_from zero lineix lines = (lines, [])
remove_from (suc fuel) lineix lines =
    let begin = find_next_multi_line_comment_start lines in
    let size = suc (find_next_multi_line_comment_end (drop begin lines)) in
    let later = remove_from fuel (lineix + begin + size) (drop (begin + size) lines) in
    let cleared = take (begin + size) (remove_multi_line_comments_from_range begin size lines) in
    let inside =
      if leb (suc (length lines)) (begin + size)
      then (
        lines,
        report (lineix + begin + 1) "readability/multiline_comment" 5
              (text "Could not find end of multi-line comment")
            ∷ [],
      )
      else (cleared ++ later.0, later.1) in
    if leb (length lines) begin then (lines, []) else inside

pub remove_multi_line_comments : List Text → List Text × List Report
unfolding remove_from
remove_multi_line_comments lines = remove_from (suc (length lines)) 0 lines

-- The difference of the counts is odd exactly when their sum is.
unfoldable pub is_cpp_string : Text → Bool
unfolding replace count
is_cpp_string line =
    let l = replace (text "\\\\") (text "XX") line in
    (count (text "\"") l + count (text "\\\"") l + count (text "'\"'") l) % 2 == 1

-- `_RE_PATTERN_CLEANSE_LINE_C_COMMENTS`
abbrev without_c_comments : Text → Text
without_c_comments =
    replace_all
      "(\\s*/\\*(?:[^*]|\\*(?!/))*\\*/\\s*$|/\\*(?:[^*]|\\*(?!/))*\\*/\\s+|\\s+/\\*(?:[^*]|\\*(?!/))*\\*/(?=\\W)|/\\*(?:[^*]|\\*(?!/))*\\*/)"
      []

abbrev without_line_comment : Text → Option ℕ → Text
without_line_comment line none = line
without_line_comment line (some commentpos) =
    if not (is_cpp_string (take commentpos line)) then rstrip (take commentpos line) else line

unfoldable pub cleanse_comments : Text → Text
unfolding replace_all is_cpp_string find rstrip
cleanse_comments line = without_c_comments (without_line_comment line (find (text "//") line))
