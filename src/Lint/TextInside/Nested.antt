-- ===== src/Lint/TextInside/Nested.antt =====
-- Text with nested marks, and that the scan of `_GetTextInside` runs over it.
use netproject_c.Prelude.{
  ℕ, Bool, true, false, ◌||◌, Option, some, List, [], ◌∷◌, ◌++◌, Text, ◌≡◌, refl, sym, ap, ◌∙◌,
  arith,
}
use mathlib.Core.List.{append_assoc}
use netproject_c.Lint.TextInside.{is_open_mark, is_close_mark, closing_of, grow, scan_inside}

abbrev pub is_mark : ℕ → Bool
is_mark c = is_open_mark c || is_close_mark c

-- Text in which every opening mark is closed by its own closing mark.
pub data Nested : Text → Type 0 where
  nothing : Nested []
  plain : (c : ℕ) {t : Text} → is_mark c ≡ false → Nested t → Nested (c ∷ t)
  wrapped :
      (c : ℕ) {t u : Text}
      → is_open_mark c ≡ true
      → Nested t
      → Nested u
      → Nested (c ∷ (t ++ (closing_of c ∷ u)))

unfoldable pub grow_all : Text → Option Text → Option Text
grow_all [] o = o
grow_all (c ∷ t) o = grow c (grow_all t o)

pub scan_inside-plain :
    (top c : ℕ) (below : List ℕ) (s : Text)
    → is_close_mark top ≡ true
    → is_mark c ≡ false
    → scan_inside top below (c ∷ s) ≡ grow c (scan_inside top below s)
unfolding scan_inside
scan_inside-plain top c below s h k = ground arith

pub scan_inside-open :
    (top c : ℕ) (below : List ℕ) (s : Text)
    → is_close_mark top ≡ true
    → is_open_mark c ≡ true
    → scan_inside top below (c ∷ s) ≡ grow c (scan_inside (closing_of c) (top ∷ below) s)
unfolding scan_inside
scan_inside-open top c below s h k = ground arith

pub scan_inside-next :
    (top d : ℕ) (below : List ℕ) (s : Text)
    → scan_inside top (d ∷ below) (top ∷ s) ≡ grow top (scan_inside d below s)
unfolding scan_inside
scan_inside-next top d below s = ground arith

pub scan_inside-last : (top : ℕ) (s : Text) → scan_inside top [] (top ∷ s) ≡ some []
unfolding scan_inside
scan_inside-last top s = ground arith

grow_all-append : (t u : Text) (o : Option Text) → grow_all (t ++ u) o ≡ grow_all t (grow_all u o)
unfolding grow_all
grow_all-append [] u o = refl
grow_all-append (c ∷ t) u o = ap (grow c) (grow_all-append t u o)

pub grow_all-some : (t u : Text) → grow_all t (some u) ≡ some (t ++ u)
unfolding grow_all
grow_all-some [] u = refl
grow_all-some (c ∷ t) u = ap (grow c) (grow_all-some t u)

pub closing_of-IsClosing : (c : ℕ) → is_close_mark (closing_of c) ≡ true
closing_of-IsClosing c = ground arith

-- The scan runs over nested text with the stack as it was.
pub scan_inside-Nested :
    (top : ℕ) (below : List ℕ) (s : Text) {t : Text}
    → is_close_mark top ≡ true
    → Nested t
    → scan_inside top below (t ++ s) ≡ grow_all t (scan_inside top below s)
unfolding grow_all
scan_inside-Nested top below s h nothing = refl
scan_inside-Nested top below s h (plain c {t} k n) =
    scan_inside-plain top c below (t ++ s) h k ∙ ap (grow c) (scan_inside-Nested top below s h n)
scan_inside-Nested top below s h (wrapped c {t} {u} k n m) =
    let d = closing_of c in
    rw append_assoc (
      scan_inside-open top c below (t ++ (d ∷ (u ++ s))) h k
      ∙ ap (grow c) (
          scan_inside-Nested d (top ∷ below) (d ∷ (u ++ s)) (closing_of-IsClosing c) n
          ∙ ap (grow_all t) (
              scan_inside-next d top below (u ++ s)
              ∙ ap (grow d) (scan_inside-Nested top below s h m))
          ∙ sym (grow_all-append t (d ∷ u) (scan_inside top below s))))
