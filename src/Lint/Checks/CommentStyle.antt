-- ===== src/Lint/Checks/CommentStyle.antt =====
-- cpplint.py, `CheckComment`: the style of a `//` comment.
use netproject_c.Prelude.{
  ℕ, ◌-◌, ◌%◌, Bool, false, not, ◌&&◌, ◌||◌, Option, none, some, List, [], ◌∷◌, ◌++◌, Text, text,
  ltb, leb, ◌==◌, if◌then◌else◌, get_or, length, take, drop, count, find, same,
}
use netproject_c.Regex.{Found, group_text, group_of}
use netproject_c.Lint.Patterns.{matches, match_text, replace_all}
use netproject_c.Lint.Report.{Report, report}

-- `string.whitespace`
abbrev in_whitespace : ℕ → Bool
in_whitespace c = c == 32 || (leb 9 c && leb c 13)

-- `commentpos >= k and line[commentpos - k] not in string.whitespace`
abbrev code_before : Text → ℕ → ℕ → Bool
code_before line commentpos k =
    leb k commentpos && not (in_whitespace (get_or line (commentpos - k) 32))

two_spaces : ℕ → Text → ℕ → ℕ → List Report
unfolding matches
two_spaces linenum line commentpos next_line_start =
    if not (matches "^.*{ *//" line && next_line_start == commentpos)
      && (code_before line commentpos 1 || code_before line commentpos 2)
    then report linenum "whitespace/comments" 2
        (text "At least two spaces is best between code and comments")
      ∷ []
    else []

abbrev spaced : Option Text → Bool
spaced none = false
spaced (some s) = same s (text " ") || same s []

todo : ℕ → Option Found → List Report
unfolding group_text group_of same
todo linenum none = []
todo linenum (some m) =
    (if ltb 1 (length (group_text m 1))
      then report linenum "whitespace/todo" 2 (text "Too many spaces before TODO") ∷ []
      else [])
    ++ (if length (group_text m 2) == 0
        then report linenum "readability/todo" 2 (
            text "Missing username in TODO; it should look like "
            ++ text "\"// TODO(my_username): Stuff.\"")
          ∷ []
        else [])
    ++ (if spaced (group_of m 3)
        then []
        else report linenum "whitespace/todo" 2
            (text "TODO(my_username) should be followed by a space")
          ∷ [])

space_after : ℕ → Text → List Report
unfolding matches
space_after linenum comment =
    if matches "//[^ ]*\\w" comment && not (matches "(///|//\\!)(\\s+|$)" comment)
    then report linenum "whitespace/comments" 4 (text "Should have a space between // and comment")
      ∷ []
    else []

-- An even number of quotes before the comment, those behind a backslash left out.
outside_quotes : Text → Bool
unfolding count replace_all
outside_quotes before = count (text "\"") (replace_all "\\\\." [] before) % 2 == 0

comment_at : Text → ℕ → ℕ → Option ℕ → List Report
unfolding outside_quotes two_spaces todo space_after match_text
comment_at line linenum next_line_start none = []
comment_at line linenum next_line_start (some commentpos) =
    let comment = drop commentpos line in
    if outside_quotes (take commentpos line)
    then two_spaces linenum line commentpos next_line_start
      ++ todo linenum (match_text "^//(\\s*)TODO(\\(.+?\\))?:?(\\s|$)?" comment)
      ++ space_after linenum comment
    else []

unfoldable pub check_comment : Text → ℕ → ℕ → List Report
unfolding comment_at find
check_comment line linenum next_line_start =
    comment_at line linenum next_line_start (find (text "//") line)
