-- ===== src/Lint/IncludeState/Alphabet.antt =====
-- The canonical path for the alphabetical order.
use netproject_c.Prelude.{
  ℕ, zero, suc, ◌<◌, Bool, true, not, [], ◌∷◌, Text, text, ◌≡◌, refl, arith, ◌==◌, all, replace,
  replace_go, lower, starts_with, ap, ◌∙◌,
}
use netproject_c.Lint.IncludeState.{canonicalize_alphabetical_order}

abbrev no_dash : ℕ → Bool
no_dash c = not (c == b'-')

-- replacing each "-" leaves none
replace_go-no_dash :
    (skip : ℕ) (s : Text) → skip < 1 → all no_dash (replace_go (text "-") (text "_") skip s) ≡ true
unfolding replace_go starts_with
replace_go-no_dash skip [] h = refl
replace_go-no_dash zero (c ∷ s) h = ground (arith, replace_go-no_dash zero s)
replace_go-no_dash (suc skip) (c ∷ s) h = absurd (omega arith)

lower-no_dash : (s : Text) → all no_dash s ≡ true → all no_dash (lower s) ≡ true
unfolding lower
lower-no_dash [] h = refl
lower-no_dash (c ∷ s) h = ground (arith, lower-no_dash s)

lower-lower : (s : Text) → lower (lower s) ≡ lower s
unfolding lower
lower-lower [] = refl
lower-lower (c ∷ s) = ground (arith, lower-lower s)

-- a pattern that begins with "-" has no match in a text without one
replace_go-absent : (old new s : Text) → all no_dash s ≡ true → replace_go (b'-' ∷ old) new 0 s ≡ s
unfolding replace_go starts_with
replace_go-absent old new [] h = refl
replace_go-absent old new (c ∷ s) h = ground (arith, replace_go-absent old new s)

canonicalize_clean :
    (s : Text)
    → all no_dash (lower s) ≡ true
    → canonicalize_alphabetical_order (lower s) ≡ lower (lower s)
unfolding canonicalize_alphabetical_order replace
canonicalize_clean s clean =
    let no_inl = replace_go-absent (text "inl.h") (text ".h") (lower s) clean in
    let no_mark = replace_go-absent [] (text "_") (lower s) clean in
    ap (λ t. lower (replace_go (text "-") (text "_") 0 t)) no_inl ∙ ap lower no_mark

-- A canonical path is its own canonical path.
canonicalize_idem :
    (path : Text)
    → canonicalize_alphabetical_order (canonicalize_alphabetical_order path)
      ≡ canonicalize_alphabetical_order path
unfolding canonicalize_alphabetical_order replace
canonicalize_idem path =
    let dotted = replace (text "-inl.h") (text ".h") path in
    let swapped = replace_go (text "-") (text "_") 0 dotted in
    canonicalize_clean swapped (lower-no_dash swapped (replace_go-no_dash 0 dotted (omega arith)))
    ∙ lower-lower swapped
