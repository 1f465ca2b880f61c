-- ===== src/Lint/Expression/Range.antt =====
-- Where in a file the end of an expression may lie.
use netproject_c.Prelude.{
  ℕ, zero, suc, ◌+◌, ◌-◌, ◌≤◌, ◌<◌, Bool, true, false, ◌&&◌, ◌||◌, not, none, some, List, [], ◌∷◌,
  Text, ◌≡◌, refl, arith, ltb, ◌==◌, length, take, drop, get_or, ap, subst, ◌≢◌, if◌then◌else◌,
  ==_iff, Bool-cases, inl, inr, sym, ◌∙◌, length-drop,
}
use netproject_c.Lint.Patterns.{contains, matches}
use netproject_c.Lint.Expression.{
  LineResult, at_pos, unclosed, still_open, Outcome, go, stop, is_opening, is_closing, pairs,
  pop_while, popped, or_unclosed, left_shift, end_bracket, end_angle, end_step, end_scan,
  find_end_of_expression_in_line, Place, close_lines, placed, close_expression,
}
use netproject_c.Lint.Expression.Bounds.{resume, end_scan-cons}
use native.Mathlib.Nat.{suc-add}

-- What a round at position `i` may do: go on, give up, or end just behind the position.
abbrev is_next : ℕ → Outcome → Bool
is_next i (go s) = true
is_next i (stop (at_pos p)) = p == i + 1
is_next i (stop unclosed) = true
is_next i (stop (still_open s)) = false

is_next-popped : (i : ℕ) (s : List ℕ) → is_next i (popped (i + 1) s) ≡ true
is_next-popped i [] = ground arith
is_next-popped i (t ∷ s) = refl

is_next-or_unclosed : (i : ℕ) (s : List ℕ) → is_next i (or_unclosed s) ≡ true
is_next-or_unclosed i [] = refl
is_next-or_unclosed i (t ∷ s) = refl

is_next-left_shift : (i : ℕ) (s : List ℕ) → is_next i (left_shift s) ≡ true
unfolding left_shift
is_next-left_shift i [] = refl
is_next-left_shift i (t ∷ s) = elim (Bool-cases (t == b'<')) [
  | inl h ↦ rw h (is_next-or_unclosed i s)
  | inr h ↦ rw h refl
]

is_next-choice :
    (i : ℕ) (b : Bool) (x y : Outcome)
    → is_next i x ≡ true
    → is_next i y ≡ true
    → is_next i (if b then x else y) ≡ true
is_next-choice i true x y h k = h
is_next-choice i false x y h k = k

is_next-end_bracket : (i c : ℕ) (s : List ℕ) → is_next i (end_bracket (i + 1) c s) ≡ true
unfolding end_bracket
is_next-end_bracket i c [] = refl
is_next-end_bracket i c (t ∷ s) =
    is_next-choice i (pairs t c) (popped (i + 1) s) (stop unclosed) (is_next-popped i s) refl

is_next-end_angle : (i : ℕ) (s : List ℕ) → is_next i (end_angle (i + 1) s) ≡ true
unfolding end_angle
is_next-end_angle i [] = refl
is_next-end_angle i (t ∷ s) =
    is_next-choice i (t == b'<') (popped (i + 1) s) (go (t ∷ s)) (is_next-popped i s) refl

is_next-end_step :
    (line : Text) (i c : ℕ) (stack : List ℕ) → is_next i (end_step line i c stack) ≡ true
unfolding end_step
is_next-end_step line i c stack = is_next-choice i (is_opening c) _ _ refl (
    is_next-choice i (c == b'<') _ _
      (is_next-choice i (ltb 0 i && get_or line (i - 1) 0 == b'<') _ _ (is_next-left_shift i stack)
        (is_next-choice i (ltb 0 i && contains "\\boperator\\s*$" (take i line)) _ _ refl refl))
      (is_next-choice i (is_closing c) _ _ (is_next-end_bracket i c (pop_while b'<' stack)) (
        is_next-choice i (c == b'>') _ _
          (is_next-choice i
            (ltb 0 i
              && (get_or line (i - 1) 0 == b'-' || contains "\\boperator\\s*$" (take (i - 1) line)))
            _ _ refl (is_next-end_angle i stack))
          (is_next-choice i (c == b';') _ _ (is_next-or_unclosed i (pop_while b'<' stack)) refl))))

-- A scan that ends returns a position behind the one where it starts, and not behind the end.
abbrev Between : ℕ → ℕ → Text → Type 0
Between i p s = (i < p) × (p ≤ i + length s)

resume-Between :
    (line : Text) (i c p : ℕ) (s : Text) (o : Outcome)
    → is_next i o ≡ true
    → ((stack : List ℕ) → end_scan line (i + 1) s stack ≡ at_pos p → Between (i + 1) p s)
    → resume line i s o ≡ at_pos p
    → Between i p (c ∷ s)
resume-Between line i c p s (go stack) h later e =
    let onward = later stack e in (omega (arith, onward), omega (arith, onward))
resume-Between line i c p s (stop (at_pos q)) h later e =
    let same_pos : q ≡ p = cc in
    let next = (==_iff q (i + 1)).0 h in
    (omega (arith, same_pos, next), omega (arith, same_pos, next))
resume-Between line i c p s (stop unclosed) h later e = cc
resume-Between line i c p s (stop (still_open stack)) h later e = cc

end_scan-Between :
    (line : Text) (i p : ℕ) (s : Text) (stack : List ℕ)
    → end_scan line i s stack ≡ at_pos p
    → Between i p s
unfolding end_scan
end_scan-Between line i p [] stack e = cc
end_scan-Between line i p (c ∷ s) stack e =
    resume-Between line i c p s (end_step line i c stack) (is_next-end_step line i c stack)
      (λ t e'. end_scan-Between line (i + 1) p s t e') (sym (end_scan-cons line i c s stack) ∙ e)

-- A place in the file: its line is the line of that number, and its position is in the line.
pub record InFile (elided : List Text) (first : ℕ) (place : Place) (p : ℕ) : Type 0 where
  pub not_before : first ≤ place.linenum
  pub inside : place.linenum < length elided
  pub its_line : place.line ≡ get_or elided place.linenum []
  pub not_at_start : 0 < p
  pub in_line : p ≤ length place.line

drop-cons :
    (n : ℕ) (lines : List Text) (l : Text) (below : List Text)
    → drop n lines ≡ l ∷ below
    → (get_or lines n [] ≡ l) × (n < length lines) × (drop (n + 1) lines ≡ below)
drop-cons zero [] l below e = cc
drop-cons zero (x ∷ lines) l below e = (cc, omega arith, cc)
drop-cons (suc n) [] l below e = cc
drop-cons (suc n) (x ∷ lines) l below e =
    let (a, b, c) = drop-cons n lines l below e in (a, omega (arith, b), rw suc-add c)

none≢some : {p : ℕ} → none ≢ some p
none≢some h = cc

close_lines-cons :
    (total : ℕ) (line : Text) (linenum : ℕ) (l : Text) (below : List Text) (t : ℕ) (s : List ℕ)
    → close_lines total line linenum (l ∷ below) (t ∷ s)
      ≡ placed total l (linenum + 1) below (find_end_of_expression_in_line l 0 (t ∷ s))
unfolding close_lines placed
close_lines-cons total line linenum l below t s =
    by_result (find_end_of_expression_in_line l 0 (t ∷ s))
  where
    by_result :
        (r : LineResult)
        → (elim r as (λ _. Place) [
          | at_pos p ↦ record { line = l; linenum = linenum + 1; pos = some p }
          | unclosed ↦ record { line = l; linenum = total; pos = none }
          | still_open stack ↦ close_lines total l (linenum + 1) below stack
        ])
          ≡ placed total l (linenum + 1) below r
    by_result (at_pos p) = refl
    by_result unclosed = refl
    by_result (still_open stack) = refl

-- The result for a line of the file, if the scan of the lines below it does what it should.
placed-InFile :
    (elided : List Text) (line : Text) (first linenum p : ℕ) (below : List Text) (r : LineResult)
    → first ≤ linenum
    → line ≡ get_or elided linenum []
    → ((q : ℕ) → r ≡ at_pos q → (linenum < length elided) × ((0 < q) × (q ≤ length line)))
    → ((stack : List ℕ)
        → (close_lines (length elided) line linenum below stack).pos ≡ some p
        → InFile elided first (close_lines (length elided) line linenum below stack) p)
    → (placed (length elided) line linenum below r).pos ≡ some p
    → InFile elided first (placed (length elided) line linenum below r) p
unfolding placed
placed-InFile elided line first linenum p below (at_pos q) h own range later e =
    let same_pos : q ≡ p = cc in
    record {
      not_before = h;
      inside = (range q refl).0;
      its_line = own;
      not_at_start = subst (λ x. 0 < x) same_pos (range q refl).1.0;
      in_line = subst (λ x. x ≤ length line) same_pos (range q refl).1.1;
    }
placed-InFile elided line first linenum p below unclosed h own range later e = absurd (none≢some e)
placed-InFile elided line first linenum p below (still_open stack) h own range later e =
    later stack e

close_lines-InFile :
    (elided : List Text) (line : Text) (first linenum p : ℕ) (below : List Text) (stack : List ℕ)
    → first ≤ linenum
    → drop (linenum + 1) elided ≡ below
    → (close_lines (length elided) line linenum below stack).pos ≡ some p
    → InFile elided first (close_lines (length elided) line linenum below stack) p
unfolding close_lines find_end_of_expression_in_line
close_lines-InFile elided line first linenum p [] [] h at e = absurd (none≢some e)
close_lines-InFile elided line first linenum p [] (t ∷ s) h at e = absurd (none≢some e)
close_lines-InFile elided line first linenum p (l ∷ below) [] h at e = absurd (none≢some e)
close_lines-InFile elided line first linenum p (l ∷ below) (t ∷ s) h at e =
    let (own, inside, next) = drop-cons (linenum + 1) elided l below at in
    let split = close_lines-cons (length elided) line linenum l below t s in
    subst (λ place. InFile elided first place p) (sym split)
      (placed-InFile elided l first (linenum + 1) p below
        (find_end_of_expression_in_line l 0 (t ∷ s)) (omega (arith, h)) (sym own)
        (λ q f. let b = end_scan-Between l 0 q l (t ∷ s) f in (inside, (b.0, omega (arith, b.1))))
        (λ stack.
          close_lines-InFile elided l first (linenum + 1) p below stack (omega (arith, h)) next)
        (sym (ap (λ place. place.pos) split) ∙ e))

get_or-inside : (lines : List Text) (n : ℕ) → 0 < length (get_or lines n []) → n < length lines
get_or-inside [] n h = absurd (omega (arith, h))
get_or-inside (x ∷ lines) zero h = omega arith
get_or-inside (x ∷ lines) (suc n) h = omega (arith, get_or-inside lines n h)

first_line :
    (elided : List Text) (linenum pos q : ℕ)
    → Between pos q (drop pos (get_or elided linenum []))
    → (linenum < length elided) × ((0 < q) × (q ≤ length (get_or elided linenum [])))
first_line elided linenum pos q b =
    let n = length-drop pos (get_or elided linenum []) in
    (get_or-inside elided linenum (omega (arith, b, n)), (omega (arith, b), omega (arith, b, n)))

-- Where `CloseExpression` returns a position, it lies in the file: the line it returns is the line of
-- the number it returns, which is not before the line of the start, and the position is not 0 and not
-- behind the end of that line.
pub close_expression-InFile :
    (elided : List Text) (linenum pos p : ℕ)
    → (close_expression elided linenum pos).pos ≡ some p
    → InFile elided linenum (close_expression elided linenum pos) p
unfolding close_expression find_end_of_expression_in_line
close_expression-InFile elided linenum pos p =
    let line = get_or elided linenum [] in
    let c = get_or line pos 0 in
    elim (Bool-cases (not (is_opening c || c == b'<') || matches "<[<=]" (drop pos line))) [
      | inl h ↦ rw h (λ e. absurd (none≢some e))
      | inr h ↦ rw h (
          placed-InFile elided line linenum linenum p (drop (linenum + 1) elided)
            (find_end_of_expression_in_line line pos []) (omega arith) refl
            (λ q f.
              first_line elided linenum pos q (end_scan-Between line pos q (drop pos line) [] f))
            (λ stack.
              close_lines-InFile elided line linenum linenum p (drop (linenum + 1) elided) stack
                (omega arith) refl))
    ]
