-- ===== src/Lint/RawStrings.antt =====
-- cpplint.py, `CleanseRawStrings`: C++11 raw strings are replaced by empty strings.
use netproject_c.Prelude.{
  ℕ, zero, suc, ◌+◌, Bool, not, Option, none, some, List, [], ◌∷◌, ◌++◌, Text, text, if◌then◌else◌,
  length, drop, find, ◌≡◌, refl, ap,
}
use netproject_c.Regex.{Found, group_text}
use netproject_c.Lint.Patterns.{match_text, matches}

-- Where a raw string begins: the text in front of it, its delimiter, and the text behind its `(`.
abbrev Opening : Type 0
Opening = Text × Text × Text

abbrev in_line_comment : Text → Bool
in_line_comment prefix = matches "^([^'\"]|'(\\\\.|[^'])*'|\"(\\\\.|[^\"])*\")*//" prefix

abbrev opening_of : Option Found → Option Opening
opening_of none = none
opening_of (some m) =
    if not (in_line_comment (group_text m 1))
    then some (group_text m 1, text ")" ++ group_text m 2 ++ text "\"", group_text m 3)
    else none

find_opening : Text → Option Opening
unfolding match_text matches group_text
find_opening line =
    opening_of (match_text "^(.*?)\\b(?:R|u8R|uR|UR|LR)\"([^\\s\\\\()]*)\\((.*)$" line)

-- The line, and the delimiter that is looked for at its end, if any.
abbrev Cleansing : Type 0
Cleansing = Text × Option Text

-- The inner loop. Each round replaces a raw string of five characters or more by two.
replace_openings : ℕ → Text → Cleansing
unfolding find_opening find
replace_openings zero line = (line, none)
replace_openings (suc fuel) line = elim (find_opening line) [
  | none ↦ (line, none)
  | some (before, delimiter, after) ↦ elim (find delimiter after) [
    | some end ↦
        replace_openings fuel (before ++ text "\"\"" ++ drop (end + length delimiter) after)
    | none ↦ (before ++ text "\"\"", some delimiter)
  ]
]

abbrev leading_space : Option Found → Text
leading_space none = []
leading_space (some m) = group_text m 1

-- One line, with the delimiter of a raw string that is open at its beginning.
cleanse_line : Option Text → Text → Cleansing
unfolding replace_openings match_text group_text find
cleanse_line none line = replace_openings (length line) line
cleanse_line (some delimiter) line = elim (find delimiter line) [
  | some end ↦
      let rest =
        leading_space (match_text "^(\\s*)\\S" line)
        ++ text "\"\""
        ++ drop (end + length delimiter) line in
      replace_openings (length rest) rest
  | none ↦ (text "\"\"", some delimiter)
]

cleanse_lines : Option Text → List Text → List Text
unfolding cleanse_line
cleanse_lines delimiter [] = []
cleanse_lines delimiter (line ∷ lines) =
    let (line', delimiter') = cleanse_line delimiter line in line' ∷ cleanse_lines delimiter' lines

unfoldable pub cleanse_raw_strings : List Text → List Text
unfolding cleanse_lines
cleanse_raw_strings raw_lines = cleanse_lines none raw_lines

length-cleanse_lines :
    (lines : List Text) (delimiter : Option Text)
    → length (cleanse_lines delimiter lines) ≡ length lines
unfolding cleanse_lines
length-cleanse_lines [] delimiter = refl
length-cleanse_lines (line ∷ lines) delimiter =
    ap suc (length-cleanse_lines lines (cleanse_line delimiter line).1)

pub length-cleanse_raw_strings :
    (lines : List Text) → length (cleanse_raw_strings lines) ≡ length lines
unfolding cleanse_raw_strings
length-cleanse_raw_strings lines = length-cleanse_lines lines none
