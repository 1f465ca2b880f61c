-- ===== src/Lint/Expression/Bounds.antt =====
-- Where a closed expression ends, and what closes it.
use netproject_c.Prelude.{
  ℕ, ◌+◌, ◌-◌, Bool, true, ◌&&◌, ◌||◌, Option, none, some, List, [], ◌∷◌, ◌++◌, Text, ◌≡◌, refl,
  arith, ltb, ◌==◌, length, take, drop, get_or, ap, subst, ==_iff, Bool-cases, inl, inr, sym, ◌∙◌,
}
use netproject_c.Lint.Patterns.{contains}
use netproject_c.Lint.Expression.{
  LineResult, at_pos, unclosed, Outcome, go, stop, is_opening, is_closing, pairs, pop_while, popped,
  or_unclosed, left_shift, end_bracket, end_angle, end_step, end_scan,
  find_end_of_expression_in_line,
}

-- The bracket that closes `o`.
abbrev pub closes : ℕ → ℕ → Bool
closes o c = pairs o c || (o == b'<' && c == b'>')

abbrev pub bottom : List ℕ → Option ℕ
bottom [] = none
bottom (t ∷ []) = some t
bottom (t ∷ u ∷ s) = bottom (u ∷ s)

-- What a round may do to a stack with the bracket `b` at its bottom: keep `b` there, give up, or
-- find at `c` what closes `b`.
data Guarded (b c pos : ℕ) : Outcome → Type 0 where
  keeps : {stack : List ℕ} → bottom stack ≡ some b → Guarded b c pos (go stack)
  gives_up : Guarded b c pos (stop unclosed)
  finds : closes b c ≡ true → Guarded b c pos (stop (at_pos pos))

popped-Guarded :
    (b c pos t : ℕ) (s : List ℕ)
    → bottom (t ∷ s) ≡ some b
    → closes t c ≡ true
    → Guarded b c pos (popped pos s)
popped-Guarded b c pos t [] e h =
    finds (let same_one : t ≡ b = cc in subst (λ x. closes x c ≡ true) same_one h)
popped-Guarded b c pos t (u ∷ s) e h = keeps e

or_unclosed-Guarded :
    (b c pos t : ℕ) (s : List ℕ) → bottom (t ∷ s) ≡ some b → Guarded b c pos (or_unclosed s)
or_unclosed-Guarded b c pos t [] e = gives_up
or_unclosed-Guarded b c pos t (u ∷ s) e = keeps e

left_shift-Guarded : (b c pos : ℕ) (s : List ℕ) → bottom s ≡ some b → Guarded b c pos (left_shift s)
unfolding left_shift
left_shift-Guarded b c pos [] e = keeps e
left_shift-Guarded b c pos (t ∷ s) e = elim (Bool-cases (t == b'<')) [
  | inl h ↦ rw h (or_unclosed-Guarded b c pos t s e)
  | inr h ↦ rw h (keeps e)
]

-- Popping leaves the bottom, or nothing.
abbrev Kept : ℕ → List ℕ → Type 0
Kept b [] = Unit
Kept b (t ∷ s) = bottom (t ∷ s) ≡ some b

pop_while-Kept : (b mark : ℕ) (s : List ℕ) → Kept b s → Kept b (pop_while mark s)
unfolding pop_while
pop_while-Kept b mark [] h = tt
pop_while-Kept b mark (t ∷ []) h = ground arith
pop_while-Kept b mark (t ∷ u ∷ s) h = elim (Bool-cases (t == mark)) [
  | inl e ↦ rw e (pop_while-Kept b mark (u ∷ s) h)
  | inr e ↦ rw e h
]

end_bracket-Guarded : (b c pos : ℕ) (s : List ℕ) → Kept b s → Guarded b c pos (end_bracket pos c s)
unfolding end_bracket
end_bracket-Guarded b c pos [] h = gives_up
end_bracket-Guarded b c pos (t ∷ s) h = elim (Bool-cases (pairs t c)) [
  | inl e ↦ rw e (popped-Guarded b c pos t s h (rw e refl))
  | inr e ↦ rw e gives_up
]

end_angle-Guarded :
    (b pos : ℕ) (s : List ℕ) → bottom s ≡ some b → Guarded b b'>' pos (end_angle pos s)
unfolding end_angle
end_angle-Guarded b pos [] h = keeps h
end_angle-Guarded b pos (t ∷ s) h = elim (Bool-cases (t == b'<')) [
  | inl e ↦ rw e (popped-Guarded b b'>' pos t s h (ground arith))
  | inr e ↦ rw e (keeps h)
]

or_unclosed-Kept : (b c pos : ℕ) (s : List ℕ) → Kept b s → Guarded b c pos (or_unclosed s)
or_unclosed-Kept b c pos [] h = gives_up
or_unclosed-Kept b c pos (t ∷ s) h = keeps h

Kept-of_bottom : (b : ℕ) (s : List ℕ) → bottom s ≡ some b → Kept b s
Kept-of_bottom b [] h = tt
Kept-of_bottom b (t ∷ s) h = h

push-bottom : (b c : ℕ) (s : List ℕ) → bottom s ≡ some b → bottom (c ∷ s) ≡ some b
push-bottom b c [] h = cc
push-bottom b c (t ∷ s) h = h

end_step-Guarded :
    (line : Text) (i b c : ℕ) (s : List ℕ)
    → bottom s ≡ some b
    → Guarded b c (i + 1) (end_step line i c s)
unfolding end_step
end_step-Guarded line i b c s h =
    let kept = pop_while-Kept b b'<' s (Kept-of_bottom b s h) in
    let before = get_or line (i - 1) 0 in
    let shift = ltb 0 i && before == b'<' in
    let operator = ltb 0 i && contains "\\boperator\\s*$" (take i line) in
    let arrow = ltb 0 i && (before == b'-' || contains "\\boperator\\s*$" (take (i - 1) line)) in
    elim (Bool-cases (is_opening c)) [
      | inl e ↦ rw e (keeps (push-bottom b c s h))
      | inr e₁ ↦ elim (Bool-cases (c == b'<')) [
        | inl e ↦ elim (Bool-cases shift) [
          | inl f ↦ rw (e₁, e, f) (left_shift-Guarded b c (i + 1) s h)
          | inr f ↦ elim (Bool-cases operator) [
            | inl g ↦ rw (e₁, e, f, g) (keeps h)
            | inr g ↦ rw (e₁, e, f, g) (keeps (push-bottom b b'<' s h))
          ]
        ]
        | inr e₂ ↦ elim (Bool-cases (is_closing c)) [
          | inl e ↦ rw (e₁, e₂, e) (end_bracket-Guarded b c (i + 1) _ kept)
          | inr e₃ ↦ elim (Bool-cases (c == b'>')) [
            | inl e ↦ elim (Bool-cases arrow) [
              | inl f ↦ rw (e₁, e₂, e₃, e, f) (keeps h)
              | inr f ↦
                  rw (e₁, e₂, e₃, e, f)
                    (subst (λ d. Guarded b d (i + 1) (end_angle (i + 1) s))
                      (sym ((==_iff c b'>').0 e)) (end_angle-Guarded b (i + 1) s h))
            ]
            | inr e₄ ↦ elim (Bool-cases (c == b';')) [
              | inl e ↦ rw (e₁, e₂, e₃, e₄, e) (or_unclosed-Kept b c (i + 1) _ kept)
              | inr e ↦ rw (e₁, e₂, e₃, e₄, e) (keeps h)
            ]
          ]
        ]
      ]
    ]

-- The text splits at the character that closes the bracket `b`, just in front of position `p`.
pub record ClosedBy (b i : ℕ) (s : Text) (p : ℕ) : Type 0 where
  pub inside : Text
  pub closer : ℕ
  pub beyond : Text
  pub splits : s ≡ inside ++ closer ∷ beyond
  pub position : p ≡ i + length inside + 1
  pub fits : closes b closer ≡ true

ClosedBy-cons : {b i p : ℕ} {s : Text} (c : ℕ) → ClosedBy b (i + 1) s p → ClosedBy b i (c ∷ s) p
ClosedBy-cons c r = record {
  inside = c ∷ r.inside;
  closer = r.closer;
  beyond = r.beyond;
  splits = ap (◌∷◌ c) r.splits;
  position = omega (arith, r.position);
  fits = r.fits;
}

-- What the loop does with the outcome of a round.
abbrev pub resume : Text → ℕ → Text → Outcome → LineResult
resume line i s (go stack) = end_scan line (i + 1) s stack
resume line i s (stop r) = r

pub end_scan-cons :
    (line : Text) (i c : ℕ) (s : Text) (stack : List ℕ)
    → end_scan line i (c ∷ s) stack ≡ resume line i s (end_step line i c stack)
unfolding end_scan
end_scan-cons line i c s stack = by_outcome (end_step line i c stack)
  where
    by_outcome :
        (o : Outcome)
        → (elim o as (λ _. LineResult) [ go t ↦ end_scan line (i + 1) s t | stop r ↦ r ])
          ≡ resume line i s o
    by_outcome (go t) = refl
    by_outcome (stop r) = refl

resume-ClosedBy :
    {b c i : ℕ} {o : Outcome} (line s : Text) (p : ℕ)
    → Guarded b c (i + 1) o
    → ((stack : List ℕ)
        → bottom stack ≡ some b
        → end_scan line (i + 1) s stack ≡ at_pos p
        → ClosedBy b (i + 1) s p)
    → resume line i s o ≡ at_pos p
    → ClosedBy b i (c ∷ s) p
resume-ClosedBy {c} line s p (keeps {stack} h) later e = ClosedBy-cons c (later stack h e)
resume-ClosedBy line s p gives_up later e = cc
resume-ClosedBy {c} line s p (finds h) later e = record {
  inside = [];
  closer = c;
  beyond = s;
  splits = refl;
  position = ground arith;
  fits = h;
}

end_scan-ClosedBy :
    (line s : Text) (i b p : ℕ) (stack : List ℕ)
    → bottom stack ≡ some b
    → end_scan line i s stack ≡ at_pos p
    → ClosedBy b i s p
unfolding end_scan
end_scan-ClosedBy line [] i b p stack h e = cc
end_scan-ClosedBy line (c ∷ s) i b p stack h e =
    resume-ClosedBy line s p (end_step-Guarded line i b c stack h)
      (λ t h' e'. end_scan-ClosedBy line s (i + 1) b p t h' e')
      (sym (end_scan-cons line i c s stack) ∙ e)

end_step-is_opening :
    (line : Text) (i o : ℕ) (stack : List ℕ)
    → is_opening o ≡ true
    → end_step line i o stack ≡ go (o ∷ stack)
unfolding end_step
end_step-is_opening line i o stack h = rw h

-- Whatever else the line holds, the position returned for an expression that opens with one of the
-- brackets ( [ { lies just behind a character that closes that very bracket.
pub find_end_of_expression_in_line-ClosedBy :
    (line : Text) (pos o p : ℕ) (s : Text)
    → drop pos line ≡ o ∷ s
    → is_opening o ≡ true
    → find_end_of_expression_in_line line pos [] ≡ at_pos p
    → ClosedBy o (pos + 1) s p
unfolding find_end_of_expression_in_line
find_end_of_expression_in_line-ClosedBy line pos o p s at opening e =
    end_scan-ClosedBy line s (pos + 1) o p (o ∷ []) refl (
      sym (ap (resume line pos s) (end_step-is_opening line pos o [] opening))
      ∙ sym (end_scan-cons line pos o s [])
      ∙ ap (λ t. end_scan line pos t []) (sym at)
      ∙ e)
