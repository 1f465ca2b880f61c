-- ===== src/Lint/Required/Order.antt =====
-- The lines for which a missing header is reported.
use netproject_c.Prelude.{
  ℕ, ◌+◌, Bool, true, false, not, ◌&&◌, Option, List, [], ◌∷◌, ◌++◌, Text, if◌then◌else◌, ltb,
  length, leb, ◌≡◌, refl, arith, Bool-cases, inl, inr, and_parts,
}
use netproject_c.Lint.Settings.{Settings}
use netproject_c.Lint.Cleansed.{CleansedLines}
use netproject_c.Lint.IncludeState.{IncludeState}
use netproject_c.Lint.Required.{
  report_missing, is_source_name, check_for_include_what_you_use, Need, needs_from, need_lt,
  insert_need, sort_needs, missing_includes,
}
use netproject_c.Lint.IncludeState.{Include}
use netproject_c.Lint.Report.{Report, when}
use netproject_c.Lint.Required.Inside.{below, below-weaken, below-needs_from}

-- In the order of their lines, from number `n` on.
abbrev is_sorted : ℕ → List Need → Bool
is_sorted n [] = true
is_sorted n (need ∷ needs) = leb n need.linenum && is_sorted need.linenum needs

line_of_need_lt : (a b : Need) → need_lt a b ≡ true → leb a.linenum b.linenum ≡ true
unfolding need_lt
line_of_need_lt a b h = ground arith

line_of_need_ge : (a b : Need) → need_lt a b ≡ false → leb b.linenum a.linenum ≡ true
unfolding need_lt
line_of_need_ge a b h = ground arith

is_sorted-insert_need :
    (k : ℕ) (n : Need) (needs : List Need)
    → leb k n.linenum ≡ true
    → is_sorted k needs ≡ true
    → is_sorted k (insert_need n needs) ≡ true
unfolding insert_need
is_sorted-insert_need k n [] h s = rw h refl
is_sorted-insert_need k n (m ∷ ms) h s =
    let (hm, hs) = and_parts (leb k m.linenum) (is_sorted m.linenum ms) s in
    elim (Bool-cases (need_lt m n)) [
      | inl e ↦ rw e (rw hm (is_sorted-insert_need m.linenum n ms (line_of_need_lt m n e) hs))
      | inr e ↦ rw e (rw h (rw (line_of_need_ge m n e) hs))
    ]

below-insert_need :
    (k : ℕ) (n : Need) (needs : List Need)
    → ltb n.linenum k ≡ true
    → below k needs ≡ true
    → below k (insert_need n needs) ≡ true
unfolding insert_need
below-insert_need k n [] h s = rw h refl
below-insert_need k n (m ∷ ms) h s =
    let (hm, hs) = and_parts (ltb m.linenum k) (below k ms) s in
    elim (Bool-cases (need_lt m n)) [
      | inl e ↦ rw e (rw hm (below-insert_need k n ms h hs))
      | inr e ↦ rw e (rw h (rw hm hs))
    ]

is_sorted-sort_needs : (needs : List Need) → is_sorted 0 (sort_needs needs) ≡ true
unfolding sort_needs
is_sorted-sort_needs [] = refl
is_sorted-sort_needs (n ∷ ns) =
    is_sorted-insert_need 0 n (sort_needs ns) (ground arith) (is_sorted-sort_needs ns)

below-sort_needs :
    (k : ℕ) (needs : List Need) → below k needs ≡ true → below k (sort_needs needs) ≡ true
unfolding sort_needs
below-sort_needs k [] h = refl
below-sort_needs k (n ∷ ns) h =
    let (hn, hs) = and_parts (ltb n.linenum k) (below k ns) h in
    below-insert_need k n (sort_needs ns) hn (below-sort_needs k ns hs)

-- Reports in the order of their lines, from number `n` on, with all lines under number `k`.
abbrev pub in_order : ℕ → ℕ → List Report → Bool
in_order n k [] = true
in_order n k (r ∷ rs) = leb n r.linenum && ltb r.linenum k && in_order r.linenum k rs

in_order-weaken :
    (m n k : ℕ) (rs : List Report)
    → leb m n ≡ true
    → in_order n k rs ≡ true
    → in_order m k rs ≡ true
in_order-weaken m n k [] h s = refl
in_order-weaken m n k (r ∷ rs) h s = ground (arith, h, s)

in_order-when :
    (b : Bool) (m n k : ℕ) (r : Report) (rs : List Report)
    → r.linenum ≡ n
    → leb m n ≡ true
    → ltb n k ≡ true
    → in_order n k rs ≡ true
    → in_order m k (when b r ++ rs) ≡ true
in_order-when true m n k r rs e h l s = rw e (rw h (rw l s))
in_order-when false m n k r rs e h l s = in_order-weaken m n k rs h s

in_order-missing_includes :
    (dict : List Include) (m k : ℕ) (needs : List Need)
    → is_sorted m needs ≡ true
    → below k needs ≡ true
    → in_order m k (missing_includes dict needs) ≡ true
unfolding missing_includes
in_order-missing_includes dict m k [] h l = refl
in_order-missing_includes dict m k (n ∷ ns) h l =
    let (hn, hs) = and_parts (leb m n.linenum) (is_sorted n.linenum ns) h in
    let (ln, ls) = and_parts (ltb n.linenum k) (below k ns) l in
    in_order-when _ m n.linenum k _ (missing_includes dict ns) refl hn ln
      (in_order-missing_includes dict n.linenum k ns hs ls)

in_order-choice :
    (b : Bool) (m k : ℕ) (rs : List Report)
    → in_order m k rs ≡ true
    → in_order m k (if b then [] else rs) ≡ true
in_order-choice true m k rs h = refl
in_order-choice false m k rs h = h

in_order-report_missing :
    (settings : Settings) (filename : Text) (k : ℕ) (required : List Need)
    (found : List Include × Bool)
    → below k required ≡ true
    → in_order 0 k (report_missing settings filename required found) ≡ true
unfolding report_missing
in_order-report_missing settings filename k required (dict, header_found) h =
    in_order-choice (not header_found && is_source_name settings filename) 0 k
      (missing_includes dict (sort_needs required))
      (in_order-missing_includes dict 0 k (sort_needs required) (is_sorted-sort_needs required)
        (below-sort_needs k required h))

-- Each report of a missing header is for a line of the file, and the reports are in the order of their
-- lines.
pub check_for_include_what_you_use-in_order :
    (open_file : Text → Option (List Text)) (settings : Settings) (filename : Text)
    (clean_lines : CleansedLines) (include_state : IncludeState)
    → in_order 0
        (length clean_lines.elided)
        (check_for_include_what_you_use open_file settings filename clean_lines include_state)
      ≡ true
unfolding check_for_include_what_you_use
check_for_include_what_you_use-in_order open_file settings filename clean_lines include_state =
    let required = needs_from 0 clean_lines.elided [] in
    in_order-report_missing settings filename (length clean_lines.elided) required _ (
      below-weaken (0 + length clean_lines.elided) (length clean_lines.elided) required
        (omega arith) (below-needs_from 0 clean_lines.elided [] refl))
