-- ===== src/Lint/Required/Inside.antt =====
-- The lines of the headers that are needed are lines of the file.
use netproject_c.Prelude.{
  ℕ, ◌+◌, ◌≤◌, Bool, true, false, not, ◌||◌, Option, none, some, List, [], ◌∷◌, Text, if◌then◌else◌,
  suc, take, is_empty, occurs, text, same, ltb, all, length, ◌≡◌, refl, arith, Bool-cases, inl, inr,
  and_parts,
}
use netproject_c.Regex.{Found}
use netproject_c.Lint.Patterns.{search_pattern, search_text, is_found}
use netproject_c.Lint.Required.{
  begins_with_hash, Need, require, need_string, need_maybe, need_templates, needs_of_line,
  needs_from, need_of, in_std,
}
use netproject_c.Lint.Required.Tables.{
  Pattern, re_pattern_headers_maybe_templates, re_pattern_templates,
}

-- All needs are for lines under number `n`.
abbrev pub below : ℕ → List Need → Bool
below n = all (λ need. ltb need.linenum n)

below-require :
    (n : ℕ) (need : Need) (needs : List Need)
    → ltb need.linenum n ≡ true
    → below n needs ≡ true
    → below n (require need needs) ≡ true
unfolding require
below-require n need [] h k = rw h refl
below-require n need (m ∷ ms) h k =
    let (hm, hs) = and_parts (ltb m.linenum n) (below n ms) k in
    elim (Bool-cases (same m.header need.header)) [
      | inl e ↦ rw e (rw h hs)
      | inr e ↦ rw e (rw hm (below-require n need ms h hs))
    ]

below-choice :
    (n : ℕ) (b : Bool) (need : Need) (needs : List Need)
    → ltb need.linenum n ≡ true
    → below n needs ≡ true
    → below n (if b then require need needs else needs) ≡ true
below-choice n true need needs h k = below-require n need needs h k
below-choice n false need needs h k = k

before_next : (linenum : ℕ) → ltb linenum (linenum + 1) ≡ true
before_next linenum = ground arith

below-need_string :
    (linenum : ℕ) (line : Text) (m : Option Found) (needs : List Need)
    → below (linenum + 1) needs ≡ true
    → below (linenum + 1) (need_string linenum line m needs) ≡ true
unfolding need_string
below-need_string linenum line none needs k = k
below-need_string linenum line (some m) needs k =
    below-choice (linenum + 1) _ _ needs (before_next linenum) k

below-need_maybe :
    (linenum : ℕ) (line : Text) (ps : List Pattern) (needs : List Need)
    → below (linenum + 1) needs ≡ true
    → below (linenum + 1) (need_maybe linenum line ps needs) ≡ true
unfolding need_maybe need_of
below-need_maybe linenum line [] needs k = k
below-need_maybe linenum line (p ∷ ps) needs k = below-need_maybe linenum line ps _ (
    below-choice (linenum + 1) (is_found (search_pattern p.pattern line)) (need_of linenum p) needs
      (before_next linenum) k)

below-need_templates :
    (linenum : ℕ) (line : Text) (ps : List Pattern) (needs : List Need)
    → below (linenum + 1) needs ≡ true
    → below (linenum + 1) (need_templates linenum line ps needs) ≡ true
unfolding need_templates need_of
below-need_templates linenum line [] needs k = k
below-need_templates linenum line (p ∷ ps) needs k =
    below-need_templates linenum line ps _ (by_match (search_pattern p.pattern line))
  where
    by_match :
        (m : Option Found)
        → below (linenum + 1) (elim m as (λ _. List Need) [
          | none ↦ needs
          | some m ↦ if in_std (take m.start line) then require (need_of linenum p) needs else needs
        ])
          ≡ true
    by_match none = k
    by_match (some m) =
        below-choice (linenum + 1) (in_std (take m.start line)) (need_of linenum p) needs
          (before_next linenum) k

pub below-weaken :
    (n m : ℕ) (needs : List Need) → n ≤ m → below n needs ≡ true → below m needs ≡ true
below-weaken n m [] h k = refl
below-weaken n m (need ∷ needs) h k =
    let (kn, ks) = and_parts (ltb need.linenum n) (below n needs) k in
    let first : ltb need.linenum m ≡ true = ground (arith, h, kn) in
    rw first (below-weaken n m needs h ks)

below-if :
    (n : ℕ) (b : Bool) (xs ys : List Need)
    → below n xs ≡ true
    → below n ys ≡ true
    → below n (if b then xs else ys) ≡ true
below-if n true xs ys h k = h
below-if n false xs ys h k = k

below-needs_of_line :
    (linenum : ℕ) (line : Text) (needs : List Need)
    → below linenum needs ≡ true
    → below (linenum + 1) (needs_of_line linenum line needs) ≡ true
unfolding needs_of_line
below-needs_of_line linenum line needs k =
    let old = below-weaken linenum (linenum + 1) needs (omega arith) k in
    let named =
      below-need_maybe linenum line re_pattern_headers_maybe_templates _
        (below-need_string linenum line (search_text "\\bstring\\b" line) needs old) in
    below-if (linenum + 1) (is_empty line || begins_with_hash line) needs _ old (
      below-if (linenum + 1) (not (occurs (text "<") line)) _ _ named
        (below-need_templates linenum line re_pattern_templates _ named))

pub below-needs_from :
    (linenum : ℕ) (lines : List Text) (needs : List Need)
    → below linenum needs ≡ true
    → below (linenum + length lines) (needs_from linenum lines needs) ≡ true
unfolding needs_from
below-needs_from linenum [] needs k = below-weaken linenum (linenum + 0) needs (omega arith) k
below-needs_from linenum (line ∷ lines) needs k =
    let ih = below-needs_from (linenum + 1) lines _ (below-needs_of_line linenum line needs k) in
    below-weaken (linenum + 1 + length lines) (linenum + suc (length lines)) _ (omega arith) ih
