-- ===== src/Lint/Checks/BlankLines.antt =====
-- cpplint.py, `CheckSpacing`: blank lines, comments, and blanks before brackets.
use netproject_c.Prelude.{
  ℕ, zero, suc, ◌+◌, ◌-◌, Bool, false, not, ◌&&◌, ◌||◌, Option, none, some, List, [], ◌∷◌, ◌++◌,
  Text, text, ltb, if◌then◌else◌, get_or, length, take, drop, same, lstrip, is_empty, rfind, occurs,
  line_before,
}
use netproject_c.Regex.{Found, group_text}
use netproject_c.Lint.Patterns.{contains, matches, match_text}
use netproject_c.Lint.Lines.{is_blank_line}
use netproject_c.Lint.Cleansed.{CleansedLines}
use netproject_c.Lint.Nesting.{in_namespace_body, in_extern_c}
use netproject_c.Lint.Nesting.Blocks.{BlockInfo}
use netproject_c.Lint.Checks.CommentStyle.{check_comment}
use netproject_c.Lint.Report.{Report, report, when}

abbrev blank_line : ℕ → ℕ → Text → Report
blank_line linenum confidence message = report linenum "whitespace/blank_line" confidence message

-- The loop for the column of an initializer list, over the lines before number `n`.
initializer_above : List Text → ℕ → Bool
unfolding matches same
initializer_above elided zero = false
initializer_above elided (suc n) =
    let line = get_or elided n [] in
    let above = initializer_above elided n in
    if matches " {6}\\w" line then above else same (take 5 line) (text "    :")

-- The exceptions for a blank line at the start of a block; `linenum - 2` is the line to start from.
start_exception : List Text → ℕ → Text → Bool
unfolding matches initializer_above
start_exception elided linenum prev_line =
    if matches " {6}\\w" prev_line
    then initializer_above elided (linenum - 1)
    else matches " {4}\\w[^\\(]*\\)\\s*(const\\s*)?(\\{\\s*$|:)" prev_line
      || matches " {4}:" prev_line

block_start : List Text → ℕ → Text → Option ℕ → List Report
unfolding start_exception occurs
block_start elided linenum prev_line none = []
block_start elided linenum prev_line (some prevbrace) =
    when
      (not (occurs (text "}") (drop prevbrace prev_line))
        && not (start_exception elided linenum prev_line))
      (blank_line linenum 2
        (text "Redundant blank line at the start of a code block should be deleted."))

block_end : CleansedLines → ℕ → List Report
unfolding matches occurs
block_end clean_lines linenum =
    let next_line = get_or clean_lines.lines_without_raw_strings (linenum + 1) [] in
    when
      (ltb (linenum + 1) clean_lines.num_lines
        && not (is_empty next_line)
        && matches "\\s*}" next_line
        && not (occurs (text "} else ") next_line))
      (blank_line linenum 3
        (text "Redundant blank line at the end of a code block should be deleted."))

after_access : ℕ → Option Found → List Report
unfolding group_text
after_access linenum none = []
after_access linenum (some matched) =
    blank_line linenum 3
      (text "Do not leave a blank line after \"" ++ group_text matched 1 ++ text ":\"")
    ∷ []

blank_reports : CleansedLines → ℕ → List Report
unfolding block_start block_end after_access rfind line_before match_text
blank_reports clean_lines linenum =
    let prev_line = line_before clean_lines.elided linenum in
    block_start clean_lines.elided linenum prev_line (rfind (text "{") prev_line)
    ++ block_end clean_lines linenum
    ++ after_access linenum (match_text "\\s*(public|protected|private):" prev_line)

next_line_start : CleansedLines → ℕ → ℕ
unfolding lstrip
next_line_start clean_lines linenum =
    let next_line = get_or clean_lines.lines_without_raw_strings (linenum + 1) [] in
    if ltb (linenum + 1) clean_lines.num_lines
    then length next_line - length (lstrip next_line)
    else 0

bracket_reports : ℕ → Text → List Report
unfolding contains
bracket_reports linenum line =
    when (contains "\\w\\s+\\[" line && not (contains "(?:auto&?|delete|return)\\s+\\[" line))
      (report linenum "whitespace/braces" 5 (text "Extra space before ["))
    ++ when (contains "for *\\(.*[^:]:[^: ]" line || contains "for *\\(.*[^: ]:[^:]" line) (
        report linenum "whitespace/forcolon" 2
          (text "Missing space around colon in range-based for loop"))

unfoldable pub check_spacing : CleansedLines → ℕ → List BlockInfo → List Report
unfolding blank_reports next_line_start bracket_reports is_blank_line check_comment
check_spacing clean_lines linenum stack =
    let line = get_or clean_lines.lines_without_raw_strings linenum [] in
    (if is_blank_line line && not (in_namespace_body stack) && not (in_extern_c stack)
      then blank_reports clean_lines linenum
      else [])
    ++ check_comment line linenum (next_line_start clean_lines linenum)
    ++ bracket_reports linenum (get_or clean_lines.elided linenum [])
