-- ===== src/Lint/Cleansed.antt =====
-- cpplint.py, `CleansedLines`: the four versions of a file's lines.
use netproject_c.Prelude.{
  ℕ, zero, suc, ◌+◌, Bool, false, Option, none, some, List, [], ◌∷◌, ◌++◌, Text, text, map, ◌==◌,
  if◌then◌else◌, length, drop, find, replace, ◌≡◌, refl, ap, ◌∙◌,
}
use netproject_c.Regex.{Found, group_text}
use netproject_c.Lint.Patterns.{match_text, matches, contains, replace_all}
use netproject_c.Lint.Comments.{cleanse_comments}
use netproject_c.Lint.RawStrings.{cleanse_raw_strings, length-cleanse_raw_strings}

-- `_RE_PATTERN_INCLUDE`
abbrev pub include_pattern : Text → Bool
include_pattern = matches "^\\s*#\\s*include\\s*([<\"])([^>\"]*)[>\"].*$"

-- The text that the loop has collapsed, and the text that is left, if the loop goes on.
abbrev Collapse : Type 0
Collapse = Text × Option Text

collapse_double : Text → Text → Text → Option ℕ → Collapse
collapse_double elided head tail none = (elided, none)
collapse_double elided head tail (some q) = (head ++ text "\"\"", some (drop (q + 1) tail))

collapse_single : Text → Text → Text → Option ℕ → Collapse
collapse_single elided head tail none = (elided, none)
collapse_single elided head tail (some q) = (head ++ text "''", some (drop (q + 1) tail))

-- A digit separator: the pattern matches any text, so the match is there.
collapse_digits : Text → Option Found → Collapse
unfolding group_text replace
collapse_digits head none = (head, none)
collapse_digits head (some m) =
    (head ++ replace (text "'") [] (group_text m 1), some (group_text m 2))

abbrev quote_is_double : Text → Bool
quote_is_double [] = false
quote_is_double (c ∷ s) = c == b'"'

collapse_quote : Text → Text → Text → Text → Collapse
unfolding collapse_double collapse_single collapse_digits find contains match_text
collapse_quote elided head quote tail =
    if quote_is_double quote
    then collapse_double elided head tail (find (text "\"") tail)
    else if contains "\\b(?:0[bBxX]?|[1-9])[0-9a-fA-F]*$" head
    then collapse_digits head (match_text "^((?:'?[0-9a-zA-Z_])*)(.*)$" (b'\'' ∷ tail))
    else collapse_single elided head tail (find (text "'") tail)

-- One round of the loop, on what is left of the line.
collapse_round : Text → Option Found → Collapse
unfolding collapse_quote group_text
collapse_round elided none = (elided, none)
collapse_round elided (some m) =
    collapse_quote elided (group_text m 1) (group_text m 2) (group_text m 3)

-- Each round but the last takes a quote away.
collapse_loop : ℕ → Text → Text
unfolding collapse_round match_text
collapse_loop zero elided = elided
collapse_loop (suc fuel) elided =
    let (done, rest) = collapse_round elided (match_text "^([^'\"]*)(['\"])(.*)$" elided) in
    elim rest [ none ↦ done | some left ↦ done ++ collapse_loop fuel left ]

unfoldable pub collapse_strings : Text → Text
unfolding collapse_loop replace_all matches
collapse_strings elided =
    let bare = replace_all "\\\\([abfnrtv?\"\\\\']|\\d+|x[0-9a-fA-F]+)" [] elided in
    if include_pattern elided then elided else collapse_loop (suc (length bare)) bare

pub record CleansedLines : Type 0 where
  pub elided : List Text
  pub lines : List Text
  pub raw_lines : List Text
  pub num_lines : ℕ
  pub lines_without_raw_strings : List Text

unfoldable pub init : List Text → CleansedLines
unfolding cleanse_raw_strings cleanse_comments collapse_strings
init lines =
    let bare = cleanse_raw_strings lines in
    record {
      elided = map (λ line. cleanse_comments (collapse_strings line)) bare;
      lines = map cleanse_comments bare;
      raw_lines = lines;
      num_lines = length lines;
      lines_without_raw_strings = bare;
    }

length-map : (f : Text → Text) (lines : List Text) → length (map f lines) ≡ length lines
length-map f [] = refl
length-map f (line ∷ lines) = ap suc (length-map f lines)

-- The four versions of a file have the same number of lines, which is the number that is recorded, so
-- a line number is an index into each of them.
pub init-SameLength :
    (lines : List Text)
    → (length (init lines).elided ≡ (init lines).num_lines)
      × (length (init lines).lines ≡ (init lines).num_lines)
      × (length (init lines).lines_without_raw_strings ≡ (init lines).num_lines)
      × (length (init lines).raw_lines ≡ (init lines).num_lines)
      × ((init lines).num_lines ≡ length lines)
unfolding init
init-SameLength lines = (
  length-map _ (cleanse_raw_strings lines) ∙ length-cleanse_raw_strings lines,
  length-map _ (cleanse_raw_strings lines) ∙ length-cleanse_raw_strings lines,
  length-cleanse_raw_strings lines,
  refl,
  refl,
)
