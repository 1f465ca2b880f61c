-- ===== src/Lint/Expression/Mirror.antt =====
-- The scan backwards over balanced text, and the way there and back.
use mathlib.Core.Path.{ap₂}
use mathlib.Core.List.{append_assoc, reverse-append, reverse-cons}
use netproject_c.Prelude.{
  ℕ, suc, ◌+◌, true, false, some, List, [], ◌∷◌, ◌++◌, Text, ◌≡◌, refl, arith, ◌==◌, length, take,
  drop, get_or, ap, sym, ◌∙◌, reverse, take-append-drop, take-append, get_or-append,
  length-take-drop, length-reverse, Bool-cases, inl, inr, Bool, not, ◌&&◌, ◌||◌, zero, ltb, ◌-◌,
  and_parts,
}
use netproject_c.Lint.Patterns.{matches, contains}
use netproject_c.Lint.Expression.{
  LineResult, at_pos, back, stop, BackOutcome, found_start, start_angle, head_is, is_opening,
  is_closing, pairs, pop_while, start_bracket, start_step, start_scan,
  find_start_of_expression_in_line, reverse_close_expression, placed_back,
}
use netproject_c.Lint.Expression.Balanced.{
  is_free, Balanced, nothing, plain, wrapped, closing_of_pairs,
}

abbrev is_bracket : ℕ → Bool
is_bracket c = is_opening c || is_closing c

-- In the text that follows the character `c`, no > stands directly behind a bracket.
abbrev pub apart : ℕ → Text → Bool
apart c [] = true
apart c (d ∷ s) = not (d == b'>' && is_bracket c) && apart d s

apart-append :
    (p c : ℕ) (w v : Text) → apart p (w ++ (c ∷ v)) ≡ true → (apart p w ≡ true) × (apart c v ≡ true)
apart-append p c [] v h = (refl, (and_parts _ (apart c v) h).1)
apart-append p c (d ∷ w) v h =
    let (here, later) = and_parts (not (d == b'>' && is_bracket p)) _ h in
    let (front, rest) = apart-append d c w v later in (rw (here, front) refl, rest)

-- A stack with `n` signs > that are still open on top.
greater : ℕ → List ℕ → List ℕ
greater zero s = s
greater (suc n) s = b'>' ∷ greater n s

pop_while-greater :
    (n t : ℕ) (s : List ℕ) → (t == b'>') ≡ false → pop_while b'>' (greater n (t ∷ s)) ≡ t ∷ s
unfolding pop_while greater
pop_while-greater zero t s h = rw h refl
pop_while-greater (suc n) t s h = pop_while-greater n t s h

found_start-greater :
    (pos n t : ℕ) (s : List ℕ)
    → found_start pos (greater n (t ∷ s)) ≡ back false (greater n (t ∷ s))
unfolding greater
found_start-greater pos zero t s = refl
found_start-greater pos (suc n) t s = refl

start_angle-greater :
    (pos n t : ℕ) (s : List ℕ)
    → (t == b'>') ≡ false
    → (m : ℕ) × (start_angle pos (greater n (t ∷ s)) ≡ back false (greater m (t ∷ s)))
unfolding start_angle greater
start_angle-greater pos zero t s h = (0, rw h refl)
start_angle-greater pos (suc n) t s h = (n, found_start-greater pos n t s)

-- Where the scan may skip the character in front of `w`.
abbrev may_skip : Text → Text → Bool
may_skip w before = head_is b'>' w || (head_is b'<' w && head_is b'<' before)

-- Where a scan goes on, from `r`.
record Passes (r : BackOutcome) (w before : Text) (t : ℕ) (s : List ℕ) : Type 0 where
  skip : Bool
  left : ℕ
  goes : r ≡ back skip (greater left (t ∷ s))
  reason : skip ≡ true → may_skip w before ≡ true

stays :
    (r : BackOutcome) (w before : Text) (t : ℕ) (s : List ℕ) (n : ℕ)
    → r ≡ back false (greater n (t ∷ s))
    → Passes r w before t s
stays r w before t s n e = record { skip = false; left = n; goes = e; reason = λ h. cc }

free_split : (c : ℕ) → is_free c ≡ true → (is_closing c ≡ false) × (is_opening c ≡ false)
free_split c h = ground arith

less_not_greater : (c : ℕ) → (c == b'<') ≡ true → (c == b'>') ≡ false
less_not_greater c h = ground arith

start_step-free :
    (line before u : Text) (c n t : ℕ) (s : List ℕ)
    → is_free c ≡ true
    → (t == b'>') ≡ false
    → Passes (start_step line before c (greater n (t ∷ s))) (c ∷ u) before t s
unfolding start_step
start_step-free line before u c n t s h k =
    let facts = free_split c h in
    let i = length before in
    elim (Bool-cases (c == b'>')) [
      | inl gt ↦
          elim (Bool-cases (
            ltb 0 i
            && (head_is b'-' before
                || matches "\\s>=\\s" (drop (i - 1) line)
                || contains "\\boperator\\s*$" (reverse before)))) [
                  | inl op ↦ record {
                    skip = true;
                    left = n;
                    goes = rw (facts.0, gt, op) refl;
                    reason = λ _. rw gt refl;
                  }
                  | inr template ↦
                      stays _ _ _ t s (suc n) (rw (facts.0, gt, template) (unfold greater in refl))
                ]
      | inr not_gt ↦ elim (Bool-cases (c == b'<')) [
        | inl lt ↦ elim (Bool-cases (ltb 0 i && head_is b'<' before)) [
          | inl shift ↦ record {
            skip = true;
            left = n;
            goes = rw (facts.0, not_gt, lt, shift) refl;
            reason = λ _. rw (not_gt, lt) (and_parts (ltb 0 i) _ shift).1;
          }
          | inr single ↦
              let (m, e) = start_angle-greater i n t s k in
              stays _ _ _ t s m (rw (facts.0, not_gt, lt, single) e)
        ]
        | inr not_lt ↦ elim (Bool-cases (c == b';')) [
          | inl semi ↦ stays _ _ _ t s 0 (
              rw (facts.0, not_gt, not_lt, facts.1, semi)
                (rw (pop_while-greater n t s k) (unfold greater in refl)))
          | inr other ↦ stays _ _ _ t s n (rw (facts.0, not_gt, not_lt, facts.1, other) refl)
        ]
      ]
    ]

not_opening :
    (o c : ℕ)
    → pairs o c ≡ true
    → (is_closing o ≡ false)
      × ((o == b'>') ≡ false)
      × ((o == b'<') ≡ false)
      × (is_opening o ≡ true)
      × (is_closing c ≡ true)
      × ((c == b'>') ≡ false)
not_opening o c h = ground arith

closed_by : (o c : ℕ) → pairs o c ≡ true → (c == b'>') ≡ false
closed_by o c h = ground arith

start_step-close :
    (line before : Text) (o c : ℕ) (stack : List ℕ)
    → pairs o c ≡ true
    → start_step line before c stack ≡ back false (c ∷ stack)
unfolding start_step
start_step-close line before o c stack h = rw (closing_of_pairs o c h).2

-- The opening bracket pops the signs > above its match, and the match.
start_step-open :
    (line before : Text) (o c n : ℕ) (stack : List ℕ)
    → pairs o c ≡ true
    → start_step line before o (greater n (c ∷ stack)) ≡ found_start (length before) stack
unfolding start_step start_bracket
start_step-open line before o c n stack h =
    let facts = not_opening o c h in
    rw (facts.0, facts.1, facts.2, facts.3, pop_while-greater n c stack facts.5, start_bracket, h)
      refl

start_scan-step :
    (line before : Text) (c : ℕ) (stack stack' : List ℕ) (skip : Bool)
    → start_step line before c stack ≡ back skip stack'
    → start_scan line (c ∷ before) false stack ≡ start_scan line before skip stack'
unfolding start_scan
start_scan-step line before c stack stack' skip e = rw (e, start_scan)

start_scan-skip :
    (line before : Text) (c : ℕ) (stack : List ℕ)
    → start_scan line (c ∷ before) true stack ≡ start_scan line before false stack
unfolding start_scan
start_scan-skip line before c stack = refl

start_scan-stop :
    (line before : Text) (c : ℕ) (stack : List ℕ) (r : LineResult)
    → start_step line before c stack ≡ stop r
    → start_scan line (c ∷ before) false stack ≡ r
unfolding start_scan
start_scan-stop line before c stack r e = rw (e, start_scan)

reverse-wrapped :
    (o c : ℕ) (w u before : Text)
    → reverse (o ∷ (w ++ (c ∷ u))) ++ before ≡ reverse u ++ (c ∷ (reverse w ++ (o ∷ before)))
reverse-wrapped o c w u before = simp (reverse-cons, reverse-append, append_assoc)

reverse-plain : (c : ℕ) (u before : Text) → reverse (c ∷ u) ++ before ≡ reverse u ++ (c ∷ before)
reverse-plain c u before = simp (reverse-cons, append_assoc)

-- Backwards over balanced text, behind at least one closing bracket: only signs > may come on top.
record Crosses (line w before : Text) (n t : ℕ) (s : List ℕ) : Type 0 where
  skip : Bool
  left : ℕ
  goes :
      start_scan line (reverse w ++ before) false (greater n (t ∷ s))
      ≡ start_scan line before skip (greater left (t ∷ s))
  reason : skip ≡ true → may_skip w before ≡ true

bracket_kept :
    (c : ℕ) (v before : Text)
    → is_bracket c ≡ true
    → apart c v ≡ true
    → may_skip v (c ∷ before) ≡ false
bracket_kept c [] before h a = refl
bracket_kept c (d ∷ v) before h a = ground arith

brackets_of_pairs : (o c : ℕ) → pairs o c ≡ true → (is_bracket o ≡ true) × (is_bracket c ≡ true)
brackets_of_pairs o c h = ground arith

not_skipped : (b : Bool) {m : Bool} → (b ≡ true → m ≡ true) → m ≡ false → b ≡ false
not_skipped false f h = refl
not_skipped true f h = let e : ◌≡◌ {A = Bool} true false = sym (f refl) ∙ h in cc

-- Over what a pair of brackets holds, to the opening one.
start_scan-wrapped :
    (line before : Text) (o c : ℕ) (w : Text) (below : List ℕ)
    → pairs o c ≡ true
    → (r : Crosses line w (o ∷ before) 0 c below) → apart o w ≡ true
    → start_scan line (reverse w ++ (o ∷ before)) false (c ∷ below)
      ≡ start_scan line (o ∷ before) false (greater r.left (c ∷ below))
unfolding greater
start_scan-wrapped line before o c w below h r aw =
    r.goes
    ∙ ap (λ skip. start_scan line (o ∷ before) skip (greater r.left (c ∷ below)))
        (not_skipped r.skip r.reason (bracket_kept o w before (brackets_of_pairs o c h).0 aw))

-- One character more in front, which is no bracket.
start_scan-plain :
    (line before u : Text) (c n t : ℕ) (s : List ℕ)
    → (t == b'>') ≡ false
    → is_free c ≡ true
    → Crosses line u (c ∷ before) n t s
    → Crosses line (c ∷ u) before n t s
start_scan-plain line before u c n t s k h r =
    let from = (λ (skip : Bool). start_scan line (c ∷ before) skip (greater r.left (t ∷ s))) in
    elim (Bool-cases r.skip) [
      | inl over ↦ record {
        skip = false;
        left = r.left;
        goes =
            rw (reverse-plain c u before)
              (r.goes ∙ ap from over ∙ start_scan-skip line before c (greater r.left (t ∷ s)));
        reason = λ e. cc;
      }
      | inr here ↦
          let one = start_step-free line before u c r.left t s h k in
          record {
            skip = one.skip;
            left = one.left;
            goes =
                rw (reverse-plain c u before)
                  (r.goes ∙ ap from here ∙ start_scan-step line before c _ _ one.skip one.goes);
            reason = one.reason;
          }
    ]

start_scan-Balanced :
    (line : Text) {w : Text} (before : Text) (p n t : ℕ) (s : List ℕ)
    → (t == b'>') ≡ false
    → apart p w ≡ true
    → Balanced w
    → Crosses line w before n t s
start_scan-Balanced line before p n t s k a nothing = record {
  skip = false;
  left = n;
  goes = refl;
  reason = λ h. cc;
}
start_scan-Balanced line before p n t s k a (plain c {v = u} h b) =
    start_scan-plain line before u c n t s k h
      (start_scan-Balanced line (c ∷ before) c n t s k (and_parts _ (apart c u) a).1 b)
start_scan-Balanced line before p n t s k a (wrapped o c {w} {v = u} h b b') =
    let (aw, au) = apart-append o c w u (and_parts _ (apart o (w ++ (c ∷ u))) a).1 in
    let (bo, bc) = brackets_of_pairs o c h in
    let front = reverse w ++ (o ∷ before) in
    let r = start_scan-Balanced line (c ∷ front) c n t s k au b' in
    let below = greater r.left (t ∷ s) in
    record {
      skip = false;
      left = r.left;
      goes = rw (reverse-wrapped o c w u before) (
          r.goes
          ∙ ap (λ skip. start_scan line (c ∷ front) skip below)
              (not_skipped r.skip r.reason (bracket_kept c u front bc au))
          ∙ start_scan-step line front c below (c ∷ below) false
              (start_step-close line front o c below h)
          ∙ start_scan-wrapped line before o c w below h
              (start_scan-Balanced line (o ∷ before) o 0 c below (closed_by o c h) aw b) aw
          ∙ start_scan-step line before o _ below false
              (start_step-open line before o c _ below h ∙ found_start-greater _ r.left t s));
      reason = λ e. cc;
    }

-- The line, split at the opening bracket.
split_line : (line : Text) (pos : ℕ) (s : Text) → drop pos line ≡ s → line ≡ take pos line ++ s
split_line line pos s at = rw (← at) (sym (take-append-drop pos line))

take-bracketed :
    (front w v : Text) (o c : ℕ)
    → take (length front + (length w + 2)) (front ++ (o ∷ (w ++ (c ∷ v))))
      ≡ front ++ (o ∷ (w ++ (c ∷ [])))
take-bracketed front w v o c =
    let two : length w + 2 ≡ suc (length w + 1) = omega arith in
    take-append front (o ∷ (w ++ (c ∷ v))) (length w + 2)
    ∙ ap (λ k. front ++ take k (o ∷ (w ++ (c ∷ v)))) two
    ∙ ap (λ t. front ++ (o ∷ t)) (take-append w (c ∷ v) 1)

reverse-bracketed :
    (front w : Text) (o c : ℕ)
    → reverse (front ++ (o ∷ (w ++ (c ∷ [])))) ≡ c ∷ (reverse w ++ (o ∷ reverse front))
reverse-bracketed front w o c = simp (reverse-append, reverse-cons, append_assoc)

-- The characters up to the closing bracket, the nearest first.
take_through :
    (line : Text) (pos o c : ℕ) (w v : Text)
    → drop pos line ≡ o ∷ (w ++ (c ∷ v))
    → reverse (take (pos + length w + 1 + 1) line)
      ≡ c ∷ (reverse w ++ (o ∷ reverse (take pos line)))
take_through line pos o c w v at =
    let front = take pos line in
    let size : pos + length w + 1 + 1 ≡ length front + (length w + 2) =
      omega (arith, length-take-drop {0} line pos o (w ++ (c ∷ v)) at) in
    ap reverse (ap₂ take size (split_line line pos _ at) ∙ take-bracketed front w v o c)
    ∙ reverse-bracketed front w o c

get_or_through :
    (line : Text) (pos o c : ℕ) (w v : Text)
    → drop pos line ≡ o ∷ (w ++ (c ∷ v))
    → get_or line (pos + length w + 1) 0 ≡ c
get_or_through line pos o c w v at =
    let front = take pos line in
    let size : pos + length w + 1 ≡ length front + suc (length w + 0) =
      omega (arith, length-take-drop {0} line pos o (w ++ (c ∷ v)) at) in
    ap₂ (λ t k. get_or t k 0) (split_line line pos _ at) size
    ∙ get_or-append front (o ∷ (w ++ (c ∷ v))) 0 (suc (length w + 0))
    ∙ get_or-append w (c ∷ v) 0 0

length-reverse-take :
    (line : Text) (pos o : ℕ) (s : Text)
    → drop pos line ≡ o ∷ s
    → length (reverse (take pos line)) ≡ pos
length-reverse-take line pos o s at =
    length-reverse (take pos line) ∙ length-take-drop line pos o s at

scan_back :
    (line : Text) (pos o c : ℕ) (w v : Text)
    → drop pos line ≡ o ∷ (w ++ (c ∷ v))
    → pairs o c ≡ true
    → apart o w ≡ true
    → Balanced w
    → find_start_of_expression_in_line line (pos + length w + 1) [] ≡ at_pos pos
unfolding find_start_of_expression_in_line
scan_back line pos o c w v at h a b =
    let front = reverse (take pos line) in
    let r = start_scan-Balanced line (o ∷ front) o 0 c [] (closed_by o c h) a b in
    ap (λ t. start_scan line t false []) (take_through line pos o c w v at)
    ∙ start_scan-step line (reverse w ++ (o ∷ front)) c [] (c ∷ []) false
        (start_step-close line (reverse w ++ (o ∷ front)) o c [] h)
    ∙ start_scan-wrapped line front o c w [] h r a
    ∙ start_scan-stop line front o _ _ (start_step-open line front o c r.left [] h)
    ∙ ap at_pos (length-reverse-take line pos o (w ++ (c ∷ v)) at)

-- On a line that holds, from position `pos` on, one of ( [ {, text in which ( ) [ ] { } are balanced
-- and no > stands directly behind a bracket, with < > and ; anywhere else in it, and the bracket that
-- matches, `ReverseCloseExpression` leads from the second bracket back to the first: it returns the
-- line itself, its number, and `pos`.
pub reverse_close_expression-Balanced :
    (elided : List Text) (linenum pos o c : ℕ) (w v : Text)
    → drop pos (get_or elided linenum []) ≡ o ∷ (w ++ (c ∷ v))
    → pairs o c ≡ true
    → apart o w ≡ true
    → Balanced w
    → reverse_close_expression elided linenum (pos + length w + 1)
      ≡ record { line = get_or elided linenum []; linenum = linenum; pos = some pos }
unfolding reverse_close_expression find_start_of_expression_in_line
reverse_close_expression-Balanced elided linenum pos o c w v at h a b =
    let line = get_or elided linenum [] in
    rw (get_or_through line pos o c w v at, (closing_of_pairs o c h).2)
      (ap (placed_back line linenum (reverse (take linenum elided)))
        (scan_back line pos o c w v at h a b))
