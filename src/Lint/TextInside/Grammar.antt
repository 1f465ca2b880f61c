-- ===== src/Lint/TextInside/Grammar.antt =====
-- The text that `_GetTextInside` finds, by the grammar of balanced punctuation.
use netproject_c.Prelude.{
  ℕ, ◌-◌, true, false, Option, none, some, List, [], ◌∷◌, ◌++◌, Text, ◌==◌, drop, get_or, all, ◌≡◌,
  ◌≢◌, ◌↔◌, refl, sym, ap, ◌∙◌, subst, arith, Bool-cases, and_parts, ==_iff, inl, inr,
}
use mathlib.Core.List.{append_assoc, append-nil}
use netproject_c.Regex.{Found}
use netproject_c.Lint.TextInside.{
  is_open_mark, is_close_mark, closing_of, grow, scan_inside, get_text_inside,
}
use netproject_c.Lint.TextInside.Nested.{
  is_mark, Nested, nothing, plain, wrapped, grow_all, scan_inside-plain, scan_inside-open,
  scan_inside-next, scan_inside-last, grow_all-some, closing_of-IsClosing, scan_inside-Nested,
}

-- The text that a scan with these marks expected has run over.
Closes : ℕ → List ℕ → Text → Text → Type 0
Closes top [] s t = Nested t × (rest : Text) × (s ≡ t ++ (top ∷ rest))
Closes top (d ∷ below) s t =
    (a : Text) × (s' : Text) × (t' : Text) × Nested a
    × (s ≡ a ++ (top ∷ s'))
    × (t ≡ a ++ (top ∷ t'))
    × Closes d below s' t'

some_inj : {a b : Text} → ◌≡◌ {A = Option Text} (some a) (some b) → a ≡ b
some_inj h = cc

option_inj : {a b : Option Text} → ◌≡◌ {A = Option (Option Text)} (some a) (some b) → a ≡ b
option_inj h = cc

grow-inv :
    (c : ℕ) (o : Option Text) (t : Text)
    → grow c o ≡ some t
    → (u : Text) × (o ≡ some u) × (t ≡ c ∷ u)
grow-inv c none t h = cc
grow-inv c (some u) t h = (u, refl, sym (some_inj h))

Closes-plain :
    (top c : ℕ) (below : List ℕ) (s t : Text)
    → is_mark c ≡ false
    → Closes top below s t
    → Closes top below (c ∷ s) (c ∷ t)
unfolding Closes
Closes-plain top c [] s t k (n, rest, e) = (plain c k n, rest, ap (λ v. c ∷ v) e)
Closes-plain top c (d ∷ below) s t k (a, s', t', n, e, f, r) =
    (c ∷ a, s', t', plain c k n, ap (λ v. c ∷ v) e, ap (λ v. c ∷ v) f, r)

Closes-open :
    (top c : ℕ) (below : List ℕ) (s t : Text)
    → is_open_mark c ≡ true
    → Closes (closing_of c) (top ∷ below) s t
    → Closes top below (c ∷ s) (c ∷ t)
unfolding Closes
Closes-open top c [] s t k (a, s', t', n, e, f, (m, rest, g)) =
    (subst (λ v. Nested (c ∷ v)) (sym f) (wrapped c k n m), rest, rw (e, f, g) (simp append_assoc))
Closes-open top c (d ∷ below) s t k (a, s', t', n, e, f, (b, s2, t2, m, e2, f2, r)) = (
  c ∷ (a ++ (closing_of c ∷ b)),
  s2,
  t2,
  wrapped c k n m,
  rw (e, e2) (simp append_assoc),
  rw (f, f2) (simp append_assoc),
  r,
)

-- What a round makes of a mark that does not close the top.
scan_inside-stray :
    (top c : ℕ) (below : List ℕ) (s : Text)
    → (c == top) ≡ false
    → is_close_mark c ≡ true
    → scan_inside top below (c ∷ s) ≡ none
unfolding scan_inside
scan_inside-stray top c below s p q = ground arith

unmarked : (c : ℕ) → is_close_mark c ≡ false → is_open_mark c ≡ false → is_mark c ≡ false
unmarked c p q = ground arith

none≢some : {a : Text} → none ≢ some a
none≢some h = cc

-- Every text that the scan of `s` returns is one that the marks close.
abbrev Sound : Text → Type 0
Sound s =
    (top : ℕ) (below : List ℕ) (t : Text)
    → is_close_mark top ≡ true
    → all is_close_mark below ≡ true
    → scan_inside top below s ≡ some t
    → Closes top below s t

over_top :
    (top : ℕ) (below : List ℕ) (s t : Text)
    → Sound s
    → all is_close_mark below ≡ true
    → scan_inside top below (top ∷ s) ≡ some t
    → Closes top below (top ∷ s) t
unfolding Closes
over_top top [] s t ih hb e =
    let empty = some_inj (sym (scan_inside-last top s) ∙ e) in
    (subst Nested empty nothing, s, ap (λ v. v ++ (top ∷ s)) empty)
over_top top (d ∷ below) s t ih hb e =
    let (u, f, g) =
      grow-inv top (scan_inside d below s) t (sym (scan_inside-next top d below s) ∙ e) in
    let (hd, hs) = and_parts (is_close_mark d) (all is_close_mark below) hb in
    ([], s, u, nothing, refl, g, ih d below u hd hs f)

over_opening :
    (top c : ℕ) (below : List ℕ) (s t : Text)
    → Sound s
    → is_close_mark top ≡ true
    → all is_close_mark below ≡ true
    → is_open_mark c ≡ true
    → scan_inside top below (c ∷ s) ≡ some t
    → Closes top below (c ∷ s) t
over_opening top c below s t ih h hb k e =
    let (u, f, g) =
      grow-inv c (scan_inside (closing_of c) (top ∷ below) s) t
        (sym (scan_inside-open top c below s h k) ∙ e) in
    subst (Closes top below (c ∷ s)) (sym g) (
      Closes-open top c below s u k
        (ih (closing_of c) (top ∷ below) u (closing_of-IsClosing c) (rw h hb) f))

over_plain :
    (top c : ℕ) (below : List ℕ) (s t : Text)
    → Sound s
    → is_close_mark top ≡ true
    → all is_close_mark below ≡ true
    → is_mark c ≡ false
    → scan_inside top below (c ∷ s) ≡ some t
    → Closes top below (c ∷ s) t
over_plain top c below s t ih h hb k e =
    let (u, f, g) =
      grow-inv c (scan_inside top below s) t (sym (scan_inside-plain top c below s h k) ∙ e) in
    subst (Closes top below (c ∷ s)) (sym g)
      (Closes-plain top c below s u k (ih top below u h hb f))

sound : (s : Text) → Sound s
unfolding scan_inside
sound [] top below t h hb e = cc
sound (c ∷ s) top below t h hb e =
    let ih = sound s in
    elim (Bool-cases (c == top)) [
      | inl p ↦
          (let at_top = (==_iff c top).0 p in
            subst (λ x. Closes top below (x ∷ s) t) (sym at_top)
              (over_top top below s t ih hb
                (subst (λ x. scan_inside top below (x ∷ s) ≡ some t) at_top e)))
      | inr p ↦ elim (Bool-cases (is_close_mark c)) [
        | inl q ↦ elim (none≢some (sym (scan_inside-stray top c below s p q) ∙ e)) [ ]
        | inr q ↦ elim (Bool-cases (is_open_mark c)) [
          | inl k ↦ over_opening top c below s t ih h hb k e
          | inr k ↦ over_plain top c below s t ih h hb (unmarked c q k) e
        ]
      ]
    ]

scan_inside-Nested_iff :
    (top : ℕ) (s t : Text)
    → is_close_mark top ≡ true
    → (scan_inside top [] s ≡ some t) ↔ (Nested t × (rest : Text) × (s ≡ t ++ (top ∷ rest)))
unfolding Closes
scan_inside-Nested_iff top s t h = (
  (λ e. sound s top [] t h refl e),
  λ r. rw r.2 (
      scan_inside-Nested top [] (top ∷ r.1) h r.0
      ∙ ap (grow_all t) (scan_inside-last top r.1)
      ∙ grow_all-some t []
      ∙ ap some (append-nil t)),
)

-- Behind an opening mark, `_GetTextInside` returns a text exactly if marks are nested in that text and
-- the mark that closes the opening one follows it.
pub get_text_inside-Nested :
    (text t : Text) (m : Found)
    → (m.finish == 0) ≡ false
    → is_open_mark (get_or text (m.finish - 1) 0) ≡ true
    → (get_text_inside text (some m) ≡ some (some t)) ↔ (
        Nested t
        × (rest : Text) × (drop m.finish text
            ≡ t ++ (closing_of (get_or text (m.finish - 1) 0) ∷ rest)))
unfolding get_text_inside
get_text_inside-Nested text t m h k =
    let mark = get_or text (m.finish - 1) 0 in
    let spec =
      scan_inside-Nested_iff (closing_of mark) (drop m.finish text) t (closing_of-IsClosing mark) in
    rw (h, k) ((λ e. spec.0 (option_inj e)), λ r. ap some (spec.1 r))
