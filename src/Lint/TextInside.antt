-- ===== src/Lint/TextInside.antt =====
-- cpplint.py, `_GetTextInside`: the text between a punctuation mark and the one that closes it.
pub mod Nested
pub mod Grammar
use netproject_c.Prelude.{
  ℕ, ◌-◌, Bool, ◌||◌, Option, none, some, List, [], ◌∷◌, Text, ◌==◌, if◌then◌else◌, drop, get_or,
}
use netproject_c.Regex.{Found}

abbrev pub is_open_mark : ℕ → Bool
is_open_mark c = c == b'(' || c == b'{' || c == b'['

abbrev pub is_close_mark : ℕ → Bool
is_close_mark c = c == b')' || c == b'}' || c == b']'

-- `matching_punctuation[c]`
abbrev pub closing_of : ℕ → ℕ
closing_of c = if c == b'(' then b')' else if c == b'{' then b'}' else b']'

abbrev pub grow : ℕ → Option Text → Option Text
grow c none = none
grow c (some t) = some (c ∷ t)

-- The loop: the top of the stack of expected marks and what is below it, and the text from the position
-- on. The result is the text up to the mark with which the stack gets empty.
unfoldable pub scan_inside : ℕ → List ℕ → Text → Option Text
scan_inside top below [] = none
scan_inside top below (c ∷ s) =
    let pop : Option Text = elim below [ [] ↦ some [] | d ∷ ds ↦ grow c (scan_inside d ds s) ] in
    let push = grow c (scan_inside (closing_of c) (top ∷ below) s) in
    let pass = grow c (scan_inside top below s) in
    if c == top
    then pop
    else if is_close_mark c
    then none
    else if is_open_mark c
    then push
    else pass

-- `none` is a failed assertion, and `some none` is `None`. The match is that of `re.search` with
-- `re.M` on the start pattern.
unfoldable pub get_text_inside : Text → Option Found → Option (Option Text)
unfolding scan_inside
get_text_inside text none = some none
get_text_inside text (some m) =
    let mark = get_or text (m.finish - 1) 0 in
    let inside = some (scan_inside (closing_of mark) [] (drop m.finish text)) in
    if m.finish == 0 then none else if is_open_mark mark then inside else none
