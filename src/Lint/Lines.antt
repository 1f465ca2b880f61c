-- ===== src/Lint/Lines.antt =====
-- cpplint.py, small functions on one line.
use netproject_c.Prelude.{ℕ, Bool, Option, none, some, Text, length, is_space, all}
use netproject_c.Regex.{Found, group_text}
use netproject_c.Lint.Patterns.{match_text}

abbrev group_length : Option Found → ℕ
group_length none = 0
group_length (some m) = length (group_text m 1)

unfoldable pub get_indent_level : Text → ℕ
unfolding match_text group_text
get_indent_level line = group_length (match_text "^( *)\\S" line)

-- `not line or line.isspace()`
unfoldable pub is_blank_line : Text → Bool
unfolding is_space
is_blank_line line = all is_space line
