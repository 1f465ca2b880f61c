-- ===== src/Lint/Checks/Sections.antt =====
-- cpplint.py, `CheckSectionSpacing` and `GetPreviousNonBlankLine`: the blank lines of a class and of a
-- file.
use netproject_c.Prelude.{
  ℕ, zero, suc, ◌+◌, ◌-◌, ◌<◌, true, false, not, ◌&&◌, ◌||◌, Option, none, some, List, [], ◌∷◌,
  ◌++◌, Text, text, ltb, leb, if◌then◌else◌, get_or, take, drop, ◌≡◌, arith, subst, sym, ◌==◌,
  ==_iff, Bool-cases, inl, inr,
}
use netproject_c.Regex.{Found, group_text}
use netproject_c.Lint.Patterns.{contains, match_text}
use netproject_c.Lint.Lines.{is_blank_line}
use netproject_c.Lint.Cleansed.{CleansedLines}
use netproject_c.Lint.Report.{Report, report}

-- The loop for `end_class_head`, over the lines from number `i` on.
end_of_class_head : ℕ → ℕ → List Text → ℕ
unfolding contains
end_of_class_head start i [] = start
end_of_class_head start i (line ∷ lines) =
    let later = end_of_class_head start (i + 1) lines in
    if contains "\\{\\s*$" line then i else later

section : List Text → ℕ → ℕ → Option Found → List Report
unfolding is_blank_line contains end_of_class_head group_text
section lines starting_linenum linenum none = []
section lines starting_linenum linenum (some matched) =
    let prev_line = get_or lines (linenum - 1) [] in
    let range = take (linenum - starting_linenum) (drop starting_linenum lines) in
    if not (is_blank_line prev_line)
      && not (contains "\\b(class|struct)\\b" prev_line)
      && not (contains "\\\\$" prev_line)
      && ltb (end_of_class_head starting_linenum starting_linenum range) (linenum - 1)
    then report linenum "whitespace/blank_line" 3
        (text "\"" ++ group_text matched 1 ++ text ":\" should be preceded by a blank line")
      ∷ []
    else []

-- `starting_linenum` and `last_line` are the fields of the class.
pub check_section_spacing : CleansedLines → ℕ → ℕ → ℕ → List Report
unfolding section match_text
check_section_spacing clean_lines starting_linenum last_line linenum =
    if leb last_line (starting_linenum + 24) || leb linenum starting_linenum
    then []
    else section clean_lines.lines starting_linenum linenum
        (match_text "\\s*(public|protected|private):" (get_or clean_lines.lines linenum []))

-- `none` is the line number -1.
unfoldable pub get_previous_non_blank_line : CleansedLines → ℕ → Text × Option ℕ
unfolding is_blank_line
get_previous_non_blank_line clean_lines zero = ([], none)
get_previous_non_blank_line clean_lines (suc prevlinenum) =
    let prevline = get_or clean_lines.elided prevlinenum [] in
    let earlier = get_previous_non_blank_line clean_lines prevlinenum in
    if not (is_blank_line prevline) then (prevline, some prevlinenum) else earlier

-- The last line before number `n` that is not blank.
pub data Previous (lines : List Text) (n : ℕ) : Text × Option ℕ → Type 0 where
  found :
      (p : ℕ)
      → p < n
      → is_blank_line (get_or lines p []) ≡ false
      → ((k : ℕ) → p < k → k < n → is_blank_line (get_or lines k []) ≡ true)
      → Previous lines n (get_or lines p [], some p)
  absent :
      ((k : ℕ) → k < n → is_blank_line (get_or lines k []) ≡ true) → Previous lines n ([], none)

Previous-step :
    {lines : List Text} {n : ℕ} {r : Text × Option ℕ}
    → is_blank_line (get_or lines n []) ≡ true
    → Previous lines n r
    → Previous lines (suc n) r
Previous-step {lines} {n} blank (found p h line between) = found p (omega arith) line (λ k lo hi.
    elim (Bool-cases (k == n)) [
      | inl e ↦ subst (λ j. is_blank_line (get_or lines j []) ≡ true) (sym ((==_iff k n).0 e)) blank
      | inr e ↦ between k lo (ground arith)
    ])
Previous-step {lines} {n} blank (absent all_blank) = absent (λ k hi. elim (Bool-cases (k == n)) [
  | inl e ↦ subst (λ j. is_blank_line (get_or lines j []) ≡ true) (sym ((==_iff k n).0 e)) blank
  | inr e ↦ all_blank k (ground arith)
])

-- The line that is returned is the last line before the given one that is not blank, with its number;
-- nothing is returned only if every line before the given one is blank.
pub get_previous_non_blank_line-Previous :
    (clean_lines : CleansedLines) (linenum : ℕ)
    → Previous clean_lines.elided linenum (get_previous_non_blank_line clean_lines linenum)
unfolding get_previous_non_blank_line
get_previous_non_blank_line-Previous clean_lines zero = absent (λ k h. absurd (omega arith))
get_previous_non_blank_line-Previous clean_lines (suc n) =
    elim (Bool-cases (is_blank_line (get_or clean_lines.elided n []))) [
      | inl blank ↦
          rw blank (Previous-step blank (get_previous_non_blank_line-Previous clean_lines n))
      | inr line ↦ rw line (found n (omega arith) line (λ k lo hi. absurd (omega arith)))
    ]
