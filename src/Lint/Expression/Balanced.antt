-- ===== src/Lint/Expression/Balanced.antt =====
-- Text with balanced brackets, and the scan for the end of an expression over it.
use netproject_c.Prelude.{
  ◌⊎◌, ℕ, zero, suc, ◌+◌, Bool, true, false, not, ◌||◌, some, List, [], ◌∷◌, ◌++◌, Text, ◌≡◌, arith,
  ◌==◌, length, length-append, drop, take, get_or, ap, inl, inr, ◌∙◌, refl, ltb, ◌-◌, ◌&&◌,
  Bool-cases,
}
use mathlib.Core.List.{append_assoc}
use netproject_c.Lint.Patterns.{matches, contains}
use netproject_c.Lint.Expression.{
  LineResult, at_pos, go, stop, popped, left_shift, end_angle, is_opening, is_closing, pairs,
  pop_while, end_bracket, end_step, end_scan, find_end_of_expression_in_line, close_expression,
  placed,
}

-- No bracket: < > and ; among them.
abbrev pub is_free : ℕ → Bool
is_free c = not (is_opening c || is_closing c)

-- Text in which ( ) [ ] { } are balanced, whatever else stands in it.
pub data Balanced : Text → Type 0 where
  nothing : Balanced []
  plain : (c : ℕ) {v : Text} → is_free c ≡ true → Balanced v → Balanced (c ∷ v)
  wrapped :
      (o c : ℕ) {w v : Text}
      → pairs o c ≡ true
      → Balanced w
      → Balanced v
      → Balanced (o ∷ (w ++ (c ∷ v)))

-- A stack with `n` signs < that are still open on top.
angles : ℕ → List ℕ → List ℕ
angles zero s = s
angles (suc n) s = b'<' ∷ angles n s

pop_while-angles :
    (n t : ℕ) (s : List ℕ) → (t == b'<') ≡ false → pop_while b'<' (angles n (t ∷ s)) ≡ t ∷ s
unfolding pop_while angles
pop_while-angles zero t s h = rw h refl
pop_while-angles (suc n) t s h = pop_while-angles n t s h

-- The bracket under the signs < keeps the stack from getting empty.
popped-angles : (pos n t : ℕ) (s : List ℕ) → popped pos (angles n (t ∷ s)) ≡ go (angles n (t ∷ s))
unfolding angles
popped-angles pos zero t s = refl
popped-angles pos (suc n) t s = refl

left_shift-angles :
    (n t : ℕ) (s : List ℕ)
    → (t == b'<') ≡ false
    → (m : ℕ) × (left_shift (angles n (t ∷ s)) ≡ go (angles m (t ∷ s)))
unfolding left_shift angles
left_shift-angles zero t s h = (0, rw h refl)
left_shift-angles (suc zero) t s h = (0, refl)
left_shift-angles (suc (suc n)) t s h = (suc n, refl)

end_angle-angles :
    (pos n t : ℕ) (s : List ℕ)
    → (t == b'<') ≡ false
    → (m : ℕ) × (end_angle pos (angles n (t ∷ s)) ≡ go (angles m (t ∷ s)))
unfolding end_angle angles
end_angle-angles pos zero t s h = (0, rw h refl)
end_angle-angles pos (suc n) t s h = (n, popped-angles pos n t s)

free_split : (c : ℕ) → is_free c ≡ true → (is_opening c ≡ false) × (is_closing c ≡ false)
free_split c h = ground arith

-- A character that is no bracket leaves all but the signs < on top.
end_step-free :
    (line : Text) (i c n t : ℕ) (s : List ℕ)
    → is_free c ≡ true
    → (t == b'<') ≡ false
    → (m : ℕ) × (end_step line i c (angles n (t ∷ s)) ≡ go (angles m (t ∷ s)))
unfolding end_step
end_step-free line i c n t s h k =
    let facts = free_split c h in
    let before = get_or line (i - 1) 0 in
    elim (Bool-cases (c == b'<')) [
      | inl lt ↦ elim (Bool-cases (ltb 0 i && before == b'<')) [
        | inl shift ↦ let (m, e) = left_shift-angles n t s k in (m, rw (facts.0, lt, shift) e)
        | inr single ↦ elim (Bool-cases (ltb 0 i && contains "\\boperator\\s*$" (take i line))) [
          | inl op ↦ (n, rw (facts.0, lt, single, op) refl)
          | inr template ↦ (suc n, rw (facts.0, lt, single, template) (unfold angles in refl))
        ]
      ]
      | inr not_lt ↦ elim (Bool-cases (c == b'>')) [
        | inl gt ↦
            elim (Bool-cases
              (ltb 0 i && (before == b'-' || contains "\\boperator\\s*$" (take (i - 1) line)))) [
                | inl op ↦ (n, rw (facts.0, not_lt, facts.1, gt, op) refl)
                | inr template ↦
                    let (m, e) = end_angle-angles (i + 1) n t s k in
                    (m, rw (facts.0, not_lt, facts.1, gt, template) e)
              ]
        | inr not_gt ↦ elim (Bool-cases (c == b';')) [
          | inl semi ↦ (
            0,
            rw (facts.0, not_lt, facts.1, not_gt, semi)
                (rw (pop_while-angles n t s k) (unfold angles in refl)),
          )
          | inr other ↦ (n, rw (facts.0, not_lt, facts.1, not_gt, other) refl)
        ]
      ]
    ]

pub opening_of_pairs : (o c : ℕ) → pairs o c ≡ true → (is_opening o ≡ true) × ((o == b'<') ≡ false)
opening_of_pairs o c h = ground arith

pub closing_of_pairs :
    (o c : ℕ)
    → pairs o c ≡ true
    → (is_opening c ≡ false) × ((c == b'<') ≡ false) × (is_closing c ≡ true)
closing_of_pairs o c h = ground arith

end_step-open :
    (line : Text) (i o c : ℕ) (stack : List ℕ)
    → pairs o c ≡ true
    → end_step line i o stack ≡ go (o ∷ stack)
unfolding end_step
end_step-open line i o c stack h = rw (opening_of_pairs o c h).0

-- The closing bracket pops the signs < above its match, and the match.
end_step-match :
    (line : Text) (i o c n : ℕ) (stack : List ℕ)
    → pairs o c ≡ true
    → end_step line i c (angles n (o ∷ stack)) ≡ popped (i + 1) stack
unfolding end_step end_bracket
end_step-match line i o c n stack h =
    let closing = closing_of_pairs o c h in
    rw
      (
        closing.0,
        closing.1,
        closing.2,
        pop_while-angles n o stack (opening_of_pairs o c h).1,
        end_bracket,
        h,
      )
      refl

end_scan-step :
    (line : Text) (i c : ℕ) (s : Text) (stack stack' : List ℕ)
    → end_step line i c stack ≡ go stack'
    → end_scan line i (c ∷ s) stack ≡ end_scan line (i + 1) s stack'
unfolding end_scan
end_scan-step line i c s stack stack' e = rw (e, end_scan)

end_scan-stop :
    (line : Text) (i c : ℕ) (s : Text) (stack : List ℕ) (r : LineResult)
    → end_step line i c stack ≡ stop r
    → end_scan line i (c ∷ s) stack ≡ r
unfolding end_scan
end_scan-stop line i c s stack r e = rw (e, end_scan)

-- What a scan over `w` leaves, inside the bracket `t`.
abbrev Crosses : Text → ℕ → Text → ℕ → ℕ → List ℕ → Type 0
Crosses line i w n t s =
    (v : Text)
    → (m : ℕ) × (end_scan line i (w ++ v) (angles n (t ∷ s))
        ≡ end_scan line (i + length w) v (angles m (t ∷ s)))

end_scan-Balanced :
    (line : Text) {w : Text} (i n t : ℕ) (s : List ℕ)
    → (t == b'<') ≡ false
    → Balanced w
    → Crosses line i w n t s
unfolding angles end_scan
end_scan-Balanced line i n t s k nothing v =
    (n, ap (λ j. end_scan line j v (angles n (t ∷ s))) (omega arith))
end_scan-Balanced line i n t s k (plain c {v = u} h b) v =
    let (m, here) = end_step-free line i c n t s h k in
    let (l, later) = end_scan-Balanced line (i + 1) m t s k b v in
    (
      l,
      end_scan-step line i c (u ++ v) _ _ here
          ∙ later
          ∙ ap (λ j. end_scan line j v (angles l (t ∷ s))) (omega arith),
    )
end_scan-Balanced line i n t s k (wrapped o c {w} {v = u} h b b') v =
    let below = angles n (t ∷ s) in
    let (m, inner) =
      end_scan-Balanced line (i + 1) 0 o below (opening_of_pairs o c h).1 b (c ∷ (u ++ v)) in
    let (l, later) = end_scan-Balanced line (i + 1 + length w + 1) n t s k b' v in
    (
      l,
      rw append_assoc (
          end_scan-step line i o (w ++ (c ∷ (u ++ v))) below _ (end_step-open line i o c below h)
          ∙ inner
          ∙ end_scan-step line (i + 1 + length w) c (u ++ v) _ below
              (end_step-match line (i + 1 + length w) o c m below h ∙ popped-angles _ n t s)
          ∙ later
          ∙ ap (λ j. end_scan line j v (angles l (t ∷ s)))
              (omega (arith, length-append {0} w (c ∷ u)))),
    )

-- From the bracket at `pos` to the one that matches it, with balanced text between.
scan_between :
    (line : Text) (pos o c : ℕ) (w v : Text)
    → drop pos line ≡ o ∷ (w ++ (c ∷ v))
    → pairs o c ≡ true
    → Balanced w
    → find_end_of_expression_in_line line pos [] ≡ at_pos (pos + length w + 2)
unfolding find_end_of_expression_in_line angles
scan_between line pos o c w v at h b =
    let (m, inner) = end_scan-Balanced line (pos + 1) 0 o [] (opening_of_pairs o c h).1 b (c ∷ v) in
    rw at (
      end_scan-step line pos o (w ++ (c ∷ v)) [] (o ∷ []) (end_step-open line pos o c [] h)
      ∙ inner
      ∙ end_scan-stop line (pos + 1 + length w) c v _ _
          (end_step-match line (pos + 1 + length w) o c m [] h)
      ∙ ap at_pos (omega arith))

bracket_cases : (o c : ℕ) → pairs o c ≡ true → (o ≡ b'(') ⊎ ((o ≡ b'[') ⊎ (o ≡ b'{'))
bracket_cases o c h = ground arith

pub not_angle : (o c : ℕ) (s : Text) → pairs o c ≡ true → matches "<[<=]" (o ∷ s) ≡ false
unfolding matches
not_angle o c s h = elim (bracket_cases o c h) [
  | inl e ↦ rw e
  | inr (inl e) ↦ rw e
  | inr (inr e) ↦ rw e
]

pub get_or-drop :
    (line : Text) (pos o : ℕ) (s : Text) → drop pos line ≡ o ∷ s → get_or line pos 0 ≡ o
get_or-drop [] zero o s h = cc
get_or-drop [] (suc pos) o s h = cc
get_or-drop (c ∷ line) zero o s h = cc
get_or-drop (c ∷ line) (suc pos) o s h = get_or-drop line pos o s h

-- On a line that holds, from position `pos` on, one of ( [ {, text in which ( ) [ ] { } are balanced,
-- with < > and ; anywhere in it, and the bracket that matches, `CloseExpression` returns the line
-- itself, its number, and the position behind the match.
pub close_expression-Balanced :
    (elided : List Text) (linenum pos o c : ℕ) (w v : Text)
    → drop pos (get_or elided linenum []) ≡ o ∷ (w ++ (c ∷ v))
    → pairs o c ≡ true
    → Balanced w
    → close_expression elided linenum pos ≡ record {
      line = get_or elided linenum [];
      linenum = linenum;
      pos = some (pos + length w + 2);
    }
unfolding close_expression
close_expression-Balanced elided linenum pos o c w v at h b =
    let line = get_or elided linenum [] in
    rw (get_or-drop line pos o (w ++ (c ∷ v)) at, (opening_of_pairs o c h).0)
      (rw (ap (λ t. matches "<[<=]" t) at ∙ not_angle o c (w ++ (c ∷ v)) h) (
        ap (placed (length elided) line linenum (drop (linenum + 1) elided))
          (scan_between line pos o c w v at h b)))
