-- ===== src/Lint/Expression.antt =====
-- cpplint.py, `FindEndOfExpressionInLine`, `CloseExpression` and their mirror images. The stack of
-- open brackets has its top first, where the source's list has it last.
pub mod Bounds
pub mod Range
pub mod Balanced
pub mod Mirror
use netproject_c.Prelude.{
  ℕ, zero, suc, ◌+◌, ◌-◌, Bool, true, false, not, ◌&&◌, ◌||◌, Option, none, some, List, [], ◌∷◌,
  ◌++◌, Text, ltb, ◌==◌, if◌then◌else◌, length, take, drop, get_or, reverse,
}
use netproject_c.Lint.Patterns.{matches, contains}

-- The three kinds of result: `(p, None)`, `(-1, None)`, `(-1, stack)`.
pub data LineResult : Type 0 where
  at_pos : ℕ → LineResult
  unclosed : LineResult
  still_open : List ℕ → LineResult

-- One round of a loop: go on with a stack, or return.
pub data Outcome : Type 0 where
  go : List ℕ → Outcome
  stop : LineResult → Outcome

abbrev pub is_opening : ℕ → Bool
is_opening c = c == b'(' || c == b'[' || c == b'{'

abbrev pub is_closing : ℕ → Bool
is_closing c = c == b')' || c == b']' || c == b'}'

abbrev pub pairs : ℕ → ℕ → Bool
pairs o c = (o == b'(' && c == b')') || (o == b'[' && c == b']') || (o == b'{' && c == b'}')

-- `while stack and stack[-1] == mark: stack.pop()`
unfoldable pub pop_while : ℕ → List ℕ → List ℕ
pop_while mark [] = []
pop_while mark (t ∷ s) = let rest = pop_while mark s in if t == mark then rest else t ∷ s

-- Behind a `stack.pop()`: return the position if nothing is left.
abbrev pub popped : ℕ → List ℕ → Outcome
popped pos [] = stop (at_pos pos)
popped pos (t ∷ s) = go (t ∷ s)

abbrev pub or_unclosed : List ℕ → Outcome
or_unclosed [] = stop unclosed
or_unclosed (t ∷ s) = go (t ∷ s)

-- `<<`: a pending `<` is popped.
pub left_shift : List ℕ → Outcome
left_shift [] = go []
left_shift (t ∷ s) = if t == b'<' then or_unclosed s else go (t ∷ s)

unfoldable pub end_bracket : ℕ → ℕ → List ℕ → Outcome
end_bracket pos c [] = stop unclosed
end_bracket pos c (t ∷ s) = if pairs t c then popped pos s else stop unclosed

pub end_angle : ℕ → List ℕ → Outcome
end_angle pos [] = go []
end_angle pos (t ∷ s) = if t == b'<' then popped pos s else go (t ∷ s)

-- The body of the loop of `FindEndOfExpressionInLine`, at the character `c` of position `i`.
unfoldable pub end_step : Text → ℕ → ℕ → List ℕ → Outcome
unfolding left_shift end_bracket end_angle pop_while
end_step line i c stack =
    let before = get_or line (i - 1) 0 in
    if is_opening c
    then go (c ∷ stack)
    else if c == b'<'
    then (if ltb 0 i && before == b'<'
        then left_shift stack
        else if ltb 0 i && contains "\\boperator\\s*$" (take i line)
        then go stack
        else go (b'<' ∷ stack))
    else if is_closing c
    then end_bracket (i + 1) c (pop_while b'<' stack)
    else if c == b'>'
    then (if ltb 0 i && (before == b'-' || contains "\\boperator\\s*$" (take (i - 1) line))
        then go stack
        else end_angle (i + 1) stack)
    else if c == b';'
    then or_unclosed (pop_while b'<' stack)
    else go stack

-- The rounds from position `i` on, over the rest of the line.
unfoldable pub end_scan : Text → ℕ → Text → List ℕ → LineResult
unfolding end_step
end_scan line i [] stack = still_open stack
end_scan line i (c ∷ s) stack = elim (end_step line i c stack) [
  | go stack' ↦ end_scan line (i + 1) s stack'
  | stop r ↦ r
]

unfoldable pub find_end_of_expression_in_line : Text → ℕ → List ℕ → LineResult
unfolding end_scan
find_end_of_expression_in_line line startpos stack =
    end_scan line startpos (drop startpos line) stack

-- The result `(line, linenum, pos)`, with `none` for the position -1.
pub record Place : Type 0 where
  pub line : Text
  pub linenum : ℕ
  pub pos : Option ℕ

-- The scan over the lines behind `linenum`. The last argument is the stack; none is the source's
-- `None`, and an empty one ends the loop too.
pub close_lines : ℕ → Text → ℕ → List Text → List ℕ → Place
unfolding find_end_of_expression_in_line
close_lines total line linenum below [] = record { line = line; linenum = total; pos = none }
close_lines total line linenum [] (t ∷ s) = record { line = line; linenum = total; pos = none }
close_lines total line linenum (l ∷ below) (t ∷ s) =
    elim (find_end_of_expression_in_line l 0 (t ∷ s)) [
      | at_pos p ↦ record { line = l; linenum = linenum + 1; pos = some p }
      | unclosed ↦ record { line = l; linenum = total; pos = none }
      | still_open stack ↦ close_lines total l (linenum + 1) below stack
    ]

-- What the result for the first line leads to.
pub placed : ℕ → Text → ℕ → List Text → LineResult → Place
unfolding close_lines
placed total line linenum below (at_pos p) = record { line = line; linenum = linenum; pos = some p }
placed total line linenum below unclosed = record { line = line; linenum = total; pos = none }
placed total line linenum below (still_open stack) = close_lines total line linenum below stack

-- `elided` holds the cleansed lines; a position outside the line, where the source would raise
-- `IndexError`, reads as 0.
unfoldable pub close_expression : List Text → ℕ → ℕ → Place
unfolding placed
close_expression elided linenum pos =
    let line = get_or elided linenum [] in
    let c = get_or line pos 0 in
    let total = length elided in
    if not (is_opening c || c == b'<') || matches "<[<=]" (drop pos line)
    then record { line = line; linenum = total; pos = none }
    else placed total line linenum (drop (linenum + 1) elided)
        (find_end_of_expression_in_line line pos [])

-- One round backwards may skip the next character too.
pub data BackOutcome : Type 0 where
  back : Bool → List ℕ → BackOutcome
  stop : LineResult → BackOutcome

abbrev pub found_start : ℕ → List ℕ → BackOutcome
found_start pos [] = stop (at_pos pos)
found_start pos (t ∷ s) = back false (t ∷ s)

pub start_bracket : ℕ → ℕ → List ℕ → BackOutcome
start_bracket pos c [] = stop unclosed
start_bracket pos c (t ∷ s) = if pairs c t then found_start pos s else stop unclosed

pub start_angle : ℕ → List ℕ → BackOutcome
start_angle pos [] = back false []
start_angle pos (t ∷ s) = if t == b'>' then found_start pos s else back false (t ∷ s)

abbrev pub or_unclosed_back : List ℕ → BackOutcome
or_unclosed_back [] = stop unclosed
or_unclosed_back (t ∷ s) = back false (t ∷ s)

abbrev pub head_is : ℕ → Text → Bool
head_is c [] = false
head_is c (x ∷ s) = x == c

-- The body of the loop of `FindStartOfExpressionInLine`, at `c`; `before` holds the characters in
-- front of it, the nearest first, so the position is its length.
pub start_step : Text → Text → ℕ → List ℕ → BackOutcome
unfolding start_bracket start_angle pop_while
start_step line before c stack =
    let i = length before in
    if is_closing c
    then back false (c ∷ stack)
    else if c == b'>'
    then (if ltb 0 i
          && (head_is b'-' before
              || matches "\\s>=\\s" (drop (i - 1) line)
              || contains "\\boperator\\s*$" (reverse before))
        then back true stack
        else back false (b'>' ∷ stack))
    else if c == b'<'
    then (if ltb 0 i && head_is b'<' before then back true stack else start_angle i stack)
    else if is_opening c
    then start_bracket i c (pop_while b'>' stack)
    else if c == b';'
    then or_unclosed_back (pop_while b'>' stack)
    else back false stack

-- The rounds backwards over the characters that are left, the nearest first.
pub start_scan : Text → Text → Bool → List ℕ → LineResult
unfolding start_step
start_scan line [] skip stack = still_open stack
start_scan line (c ∷ before) skip stack =
    let skipped = start_scan line before false stack in
    let here : LineResult = elim (start_step line before c stack) [
      | back skip' stack' ↦ start_scan line before skip' stack'
      | stop r ↦ r
    ] in
    if skip then skipped else here

pub find_start_of_expression_in_line : Text → ℕ → List ℕ → LineResult
unfolding start_scan
find_start_of_expression_in_line line endpos stack =
    start_scan line (reverse (take (endpos + 1) line)) false stack

-- The scan over the lines in front, the nearest first.
pub open_lines : Text → ℕ → List Text → List ℕ → Place
unfolding start_scan
open_lines line linenum above [] = record { line = line; linenum = 0; pos = none }
open_lines line linenum [] (t ∷ s) = record { line = line; linenum = 0; pos = none }
open_lines line linenum (l ∷ above) (t ∷ s) = elim (start_scan l (reverse l) false (t ∷ s)) [
  | at_pos p ↦ record { line = l; linenum = linenum - 1; pos = some p }
  | unclosed ↦ record { line = l; linenum = 0; pos = none }
  | still_open stack ↦ open_lines l (linenum - 1) above stack
]

pub placed_back : Text → ℕ → List Text → LineResult → Place
unfolding open_lines
placed_back line linenum above (at_pos p) = record { line = line; linenum = linenum; pos = some p }
placed_back line linenum above unclosed = record { line = line; linenum = 0; pos = none }
placed_back line linenum above (still_open stack) = open_lines line linenum above stack

unfoldable pub reverse_close_expression : List Text → ℕ → ℕ → Place
unfolding placed_back find_start_of_expression_in_line
reverse_close_expression elided linenum pos =
    let line = get_or elided linenum [] in
    let c = get_or line pos 0 in
    if not (is_closing c || c == b'>')
    then record { line = line; linenum = 0; pos = none }
    else placed_back line linenum (reverse (take linenum elided))
        (find_start_of_expression_in_line line pos [])
