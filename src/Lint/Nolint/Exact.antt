-- ===== src/Lint/Nolint/Exact.antt =====
-- What a `NOLINT` comment suppresses, exactly.
use netproject_c.Prelude.{
  ℕ, ◌+◌, Bool, true, ◌&&◌, ◌||◌, Option, none, some, List, [], ◌∷◌, Text, text, ◌≡◌, ◌↔◌, refl,
  arith, ◌==◌, same, same_iff, one_of, starts_with, ends_with,
}
use netproject_c.Lint.Categories.{error_categories}
use netproject_c.Lint.Nolint.{
  Suppressions, same_key, contains_line, add_line, lines_of, inner, apply_nolint, suppress,
  is_error_suppressed_by_nolint,
}

same_key_iff : (a b : Option Text) → (same_key a b ≡ true) ↔ (a ≡ b)
same_key_iff none none = (λ _. refl, λ _. refl)
same_key_iff (some a) (some b) = ground (arith, same_iff a b)
same_key_iff none (some b) = (λ e. cc, λ e. cc)
same_key_iff (some a) none = (λ e. cc, λ e. cc)

contains-add_line :
    (key j : Option Text) (line n : ℕ) (d : List (Option Text × List ℕ))
    → contains_line n (lines_of j (add_line key line d))
      ≡ ((same_key key j && line == n) || contains_line n (lines_of j d))
unfolding contains_line lines_of add_line
contains-add_line key j line n [] = ground arith
contains-add_line key j line n ((k, lines) ∷ d) = ground (
  arith,
  contains-add_line key j line n d,
  same_key_iff k key,
  same_key_iff k j,
  same_key_iff key j,
)

suppressed-suppress :
    (s : Suppressions) (key : Option Text) (line : ℕ) (c : Text) (n : ℕ)
    → is_error_suppressed_by_nolint (suppress s key line) c n ≡ (
        is_error_suppressed_by_nolint s c n
        || ((same_key key (some c) || same_key key none) && line == n))
unfolding is_error_suppressed_by_nolint
suppressed-suppress s key line c n =
    rw
      (contains-add_line key (some c) line n s.by_line, contains-add_line key none line n s.by_line)
      (ground arith)

-- The line of the comment or, for NOLINTNEXTLINE, the next one.
abbrev pub target : ℕ → Option Text → ℕ
target linenum (some _) = linenum + 1
target linenum none = linenum

-- The categories that the second group of the match names: all of them, or one that is known.
abbrev pub covers : Option Text → Text → Bool
covers none c = true
covers (some g) c =
    same g (text "(*)")
    || (starts_with g (text "(")
        && ends_with g (text ")")
        && one_of (inner g) error_categories
        && same (inner g) c)

-- A NOLINT comment adds its own categories on its target line to what is suppressed, and nothing
-- else: every other category and every other line is as it was.
pub apply_nolint_exact :
    (s : Suppressions) (linenum : ℕ) (nextline category : Option Text) (c : Text) (n : ℕ)
    → is_error_suppressed_by_nolint (apply_nolint s linenum nextline category).0 c n
      ≡ (is_error_suppressed_by_nolint s c n || (covers category c && target linenum nextline == n))
unfolding apply_nolint
apply_nolint_exact s linenum nextline none c n = suppressed-suppress s none _ c n
apply_nolint_exact s linenum nextline (some g) c n = ground (
  arith,
  suppressed-suppress s none (target linenum nextline) c n,
  suppressed-suppress s (some (inner g)) (target linenum nextline) c n,
)
