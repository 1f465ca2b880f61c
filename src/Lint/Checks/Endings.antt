-- ===== src/Lint/Checks/Endings.antt =====
-- cpplint.py, how `ProcessFile` and `ProcessFileData` make the lines of a file, and the reports on the
-- ends of lines.
use netproject_c.Prelude.{
  ℕ, suc, ◌+◌, ◌-◌, Bool, true, false, not, ◌||◌, List, [], ◌∷◌, ◌++◌, Text, text, map, ltb, ◌==◌,
  if◌then◌else◌, length, get_or, reverse, ends_with, split_char, ◌≡◌, ◌≢◌, ◌↔◌, sym, subst, refl,
  arith, Bool-cases, inl, inr, ◌∙◌, ap, ◌<◌, length-append,
}
use netproject_c.Lint.Report.{Report, report}
use netproject_c.Lint.Checks.{is_empty, check_for_newline_at_eof}

drop_returns : Text → Text
drop_returns [] = []
drop_returns (c ∷ s) = let rest = drop_returns s in if c == 13 then rest else c ∷ s

-- `line.rstrip('\r')`
rstrip_returns : Text → Text
unfolding drop_returns
rstrip_returns line = reverse (drop_returns (reverse line))

-- The lines, and the numbers of those that ended in CR LF and in LF.
pub record Lines : Type 0 where
  pub lines : List Text
  pub crlf_lines : List ℕ
  pub lf_lines : List ℕ

-- The loop over all lines but the last; `linenum` is the number of the first line that is left.
pub remove_returns : ℕ → List Text → Lines
unfolding rstrip_returns ends_with
remove_returns linenum [] = record { lines = []; crlf_lines = []; lf_lines = [] }
remove_returns linenum (line ∷ []) = record { lines = line ∷ []; crlf_lines = []; lf_lines = [] }
remove_returns linenum (line ∷ next ∷ rest) =
    let later = remove_returns (linenum + 1) (next ∷ rest) in
    if ends_with line (13 ∷ [])
    then record {
      lines = rstrip_returns line ∷ later.lines;
      crlf_lines = linenum ∷ later.crlf_lines;
      lf_lines = later.lf_lines;
    }
    else record {
      lines = line ∷ later.lines;
      crlf_lines = later.crlf_lines;
      lf_lines = linenum ∷ later.lf_lines;
    }

-- The lines of the contents of a file.
pub read_lines : Text → Lines
unfolding remove_returns split_char
read_lines contents = remove_returns 1 (split_char 10 contents)

pub with_markers : List Text → List Text
with_markers lines =
    text "// marker so line numbers and indices both start at 1"
    ∷ (lines ++ (text "// marker so line numbers end in a known way" ∷ []))

abbrev is_nil : List ℕ → Bool
is_nil [] = true
is_nil (n ∷ ns) = false

-- The lines with CR LF are reported if there are lines of both kinds.
pub mixed_endings : Lines → List Report
mixed_endings r =
    if is_nil r.lf_lines || is_nil r.crlf_lines
    then []
    else map
        (λ linenum.
          report linenum "whitespace/newline" 1
            (text "Unexpected \\r (^M) found; better to use only \\n"))
        r.crlf_lines

abbrev last : List Text → Text
last [] = []
last (line ∷ []) = line
last (line ∷ next ∷ rest) = last (next ∷ rest)

-- A text with no characters, or whose last character is a newline.
abbrev pub is_complete : Text → Bool
is_complete [] = true
is_complete (c ∷ []) = c == 10
is_complete (c ∷ d ∷ s) = is_complete (d ∷ s)

before_marker :
    (line : Text) (lines : List Text) (marker : Text)
    → get_or ((line ∷ lines) ++ marker ∷ []) (length lines) [] ≡ last (line ∷ lines)
before_marker line [] marker = refl
before_marker line (next ∷ rest) marker = before_marker next rest marker

abbrev attach : ℕ → List Text → List Text
attach c lines = elim lines [ [] ↦ (c ∷ []) ∷ [] | p ∷ ps ↦ (c ∷ p) ∷ ps ]

split_char-cons :
    (c : ℕ) (s : Text)
    → split_char 10 (c ∷ s) ≡ (if c == 10 then [] ∷ split_char 10 s else attach c (split_char 10 s))
unfolding split_char
split_char-cons c s = refl

-- A text has a first line, which has the first character unless that is a newline.
split_char_first : (s : Text) → (p : Text) × (ps : List Text) × (split_char 10 s ≡ p ∷ ps)
unfolding split_char
split_char_first [] = ([], [], refl)
split_char_first (c ∷ s) =
    let (p, ps, e) = split_char_first s in
    elim (Bool-cases (c == 10)) [
      | inl h ↦ ([], split_char 10 s, rw h refl)
      | inr h ↦ (c ∷ p, ps, rw (h, e) refl)
    ]

first_line : {a b : Text} {r t : List Text} → a ∷ r ≡ b ∷ t → a ≡ b
first_line h = cc

two_lines : {q p : Text} {qs : List Text} → [] ∷ q ∷ qs ≢ p ∷ []
two_lines h = cc

starts_line : {c : ℕ} {q p : Text} {qs : List Text} → (c ∷ q) ∷ qs ≡ p ∷ [] → is_empty p ≡ false
starts_line {c} {q} h = ap is_empty (sym (first_line h))

single_line : (c : ℕ) (s p : Text) → split_char 10 (c ∷ s) ≡ p ∷ [] → is_empty p ≡ false
single_line c s p h =
    let (q, qs, e) = split_char_first s in
    elim (Bool-cases (c == 10)) [
      | inl newline ↦ absurd (two_lines (rw (split_char-cons c s, newline, e) at h))
      | inr other ↦ starts_line (rw (split_char-cons c s, other, e) at h)
    ]

attached :
    (c : ℕ) (q : Text) (qs : List Text) (b : Bool)
    → is_empty (last (q ∷ qs)) ≡ b
    → (qs ≡ [] → is_empty q ≡ false)
    → is_empty (last ((c ∷ q) ∷ qs)) ≡ b
attached c q [] b h single = sym (single refl) ∙ h
attached c q (x ∷ qs) b h single = h

split_char_nil : split_char 10 [] ≡ [] ∷ []
unfolding split_char
split_char_nil = refl

last-split_char : (s : Text) → is_empty (last (split_char 10 s)) ≡ is_complete s
last-split_char [] = rw split_char_nil refl
last-split_char (c ∷ []) = elim (Bool-cases (c == 10)) [
  | inl h ↦ rw (split_char-cons c [], h, split_char_nil) refl
  | inr h ↦ rw (split_char-cons c [], h, split_char_nil) refl
]
last-split_char (c ∷ d ∷ s) =
    let ih = last-split_char (d ∷ s) in
    let (q, qs, e) = split_char_first (d ∷ s) in
    elim (Bool-cases (c == 10)) [
      | inl h ↦ rw (split_char-cons c (d ∷ s), h, e) (rw e at ih)
      | inr h ↦
          rw (split_char-cons c (d ∷ s), h, e)
            (attached c q qs (is_complete (d ∷ s)) (rw e at ih)
              (λ z. single_line d s q (e ∙ ap (λ r. q ∷ r) z)))
    ]

-- The lines that are left end with the same line.
remove_returns-last :
    (n : ℕ) (line : Text) (rest : List Text)
    → (l : Text) × (ls : List Text) × ((remove_returns n (line ∷ rest)).lines ≡ l ∷ ls)
      × (last (l ∷ ls) ≡ last (line ∷ rest))
unfolding remove_returns
remove_returns-last n line [] = (line, [], refl, refl)
remove_returns-last n line (next ∷ rest) =
    let (l, ls, e, k) = remove_returns-last (n + 1) next rest in
    elim (Bool-cases (ends_with line (13 ∷ []))) [
      | inl h ↦ (rstrip_returns line, l ∷ ls, rw (h, e) refl, k)
      | inr h ↦ (line, l ∷ ls, rw (h, e) refl, k)
    ]

line_index :
    (ls : List Text) (marker : Text) → suc (length ls) ≡ suc (suc (length (ls ++ marker ∷ []))) - 2
line_index ls marker = omega (arith, length-append ls (marker ∷ []))

line_at_end :
    (l : Text) (ls : List Text) (first marker : Text)
    → get_or (first ∷ ((l ∷ ls) ++ marker ∷ [])) (suc (suc (length (ls ++ marker ∷ []))) - 2) []
      ≡ last (l ∷ ls)
line_at_end l ls first marker =
    subst (λ i. get_or (first ∷ (l ∷ ls) ++ marker ∷ []) i [] ≡ last (l ∷ ls))
      (line_index ls marker) (before_marker l ls marker)

decided :
    (t : Text) (r : Report) → ((if not (is_empty t) then r ∷ [] else []) ≡ []) ↔ (is_empty t ≡ true)
decided [] r = (λ _. refl, λ _. refl)
decided (c ∷ t) r = (λ h. cc, λ h. cc)

few : (n : ℕ) → 0 < n → ltb (suc (suc n)) 3 ≡ false
few n h = ground arith

some_left : (ls : List Text) (marker : Text) → 0 < length (ls ++ marker ∷ [])
some_left ls marker = omega (arith, length-append ls (marker ∷ []))

newline_check :
    (l : Text) (ls : List Text)
    → (check_for_newline_at_eof (with_markers (l ∷ ls)) ≡ []) ↔ (is_empty (last (l ∷ ls)) ≡ true)
unfolding check_for_newline_at_eof with_markers
newline_check l ls =
    let first = text "// marker so line numbers and indices both start at 1" in
    let marker = text "// marker so line numbers end in a known way" in
    let at = line_at_end l ls first marker in
    rw (few _ (some_left ls marker), at) (decided (last (l ∷ ls)) _)

-- Nothing is reported for the end of a file, read and given its markers, exactly when the file has no
-- characters or its last character is a newline.
pub check_for_newline_at_eof-is_complete :
    (contents : Text)
    → (check_for_newline_at_eof (with_markers (read_lines contents).lines) ≡ [])
      ↔ (is_complete contents ≡ true)
unfolding read_lines
check_for_newline_at_eof-is_complete contents =
    let (p, ps, e) = split_char_first contents in
    let (l, ls, f, k) = remove_returns-last 1 p ps in
    rw (e, f, ← last-split_char contents, e, ← k) (newline_check l ls)
