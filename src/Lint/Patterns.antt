-- ===== src/Lint/Patterns.antt =====
-- cpplint.py, `Match`, `Search` and `ReplaceAll`. The cache of compiled patterns only spares time: a
-- compiled pattern is a function of its text, so it is left out.
use netproject_c.Prelude.{
  Bool, true, false, Option, none, some, String, Text, text, List, [], ◌∷◌, if◌then◌else◌,
}
use netproject_c.Regex.{Found, match_re, search_re, sub_re, find_all_re, split_re}
use netproject_c.Regex.Syntax.{compile, is_word}

unfoldable pub match_text : String → Text → Option Found
unfolding match_re compile
match_text pattern s = match_re (compile (text pattern)) s

unfoldable pub search_text : String → Text → Option Found
unfolding search_re compile
search_text pattern s = search_re (compile (text pattern)) s

unfoldable pub replace_all : String → Text → Text → Text
unfolding sub_re compile
replace_all pattern rep s = sub_re (compile (text pattern)) rep s

abbrev pub is_found : Option Found → Bool
is_found none = false
is_found (some m) = true

-- A pattern as the condition of an `if`.
unfoldable pub matches : String → Text → Bool
unfolding match_text
matches pattern s = is_found (match_text pattern s)

unfoldable pub contains : String → Text → Bool
unfolding search_text
contains pattern s = is_found (search_text pattern s)

-- A pattern that is put together at run time, and `re.escape`.
unfoldable pub search_pattern : Text → Text → Option Found
unfolding search_re compile
search_pattern pattern s = search_re (compile pattern) s

unfoldable pub matches_pattern : Text → Text → Bool
unfolding match_re compile
matches_pattern pattern s = is_found (match_re (compile pattern) s)

unfoldable pub escape : Text → Text
unfolding is_word
escape [] = []
escape (c ∷ s) = if is_word c then c ∷ escape s else b'\\' ∷ c ∷ escape s

unfoldable pub match_pattern : Text → Text → Option Found
unfolding match_re compile
match_pattern pattern s = match_re (compile pattern) s

unfoldable pub find_all : String → Text → List Found
unfolding find_all_re compile
find_all pattern s = find_all_re (compile (text pattern)) s

unfoldable pub split_pattern : String → Text → List Text
unfolding split_re compile
split_pattern pattern s = split_re (compile (text pattern)) s
