-- ===== src/Lint/Comments/MultiLine.antt =====
-- What `RemoveMultiLineComments` makes of a file.
use netproject_c.Prelude.{
  ℕ, ◌+◌, Bool, true, false, not, ◌&&◌, List, [], ◌∷◌, ◌++◌, Text, text, ◌≡◌, length, drop, strip,
  starts_with, ends_with, occurs, find,
}
use netproject_c.Lint.Report.{Report, report}

-- The line starts with a comment that is not closed on it, white space in front set aside.
abbrev pub starts_open : Text → Bool
unfolding strip starts_with occurs find
starts_open line =
    starts_with (strip line) (text "/*") && not (occurs (text "*/") (drop 2 (strip line)))

abbrev pub ends_closed : Text → Bool
unfolding strip ends_with
ends_closed line = ends_with (strip line) (text "*/")

-- The last line is the only one that ends with the end of a comment.
pub data UntilClosed : List Text → Type 0 where
  last : (line : Text) → ends_closed line ≡ true → UntilClosed (line ∷ [])
  later :
      (line : Text) {lines : List Text}
      → ends_closed line ≡ false
      → UntilClosed lines
      → UntilClosed (line ∷ lines)

pub data NeverClosed : List Text → Type 0 where
  end : NeverClosed []
  unclosed :
      (line : Text) {lines : List Text}
      → ends_closed line ≡ false
      → NeverClosed lines
      → NeverClosed (line ∷ lines)

pub blanks : List Text → List Text
blanks [] = []
blanks (line ∷ lines) = text "/**/" ∷ blanks lines

-- The lines behind the first `n` of a file, what is left of them, and what is reported: each comment
-- from a line that starts it to the next line that ends one is made blank, up to the first comment
-- that no line ends.
pub data Cleared : ℕ → List Text → List Text → List Report → Type 0 where
  done : (n : ℕ) → Cleared n [] [] []
  code :
      {n : ℕ} (line : Text) {a b : List Text} {r : List Report}
      → starts_open line ≡ false
      → Cleared (n + 1) a b r
      → Cleared n (line ∷ a) (line ∷ b) r
  comment :
      {n : ℕ} (line : Text) (lines : List Text) {a b : List Text} {r : List Report}
      → starts_open line ≡ true
      → UntilClosed (line ∷ lines)
      → Cleared (n + length (line ∷ lines)) a b r
      → Cleared n (line ∷ (lines ++ a)) (blanks (line ∷ lines) ++ b) r
  unended :
      {n : ℕ} (line : Text) {lines : List Text}
      → starts_open line ≡ true
      → NeverClosed (line ∷ lines)
      → Cleared n (line ∷ lines) (line ∷ lines) (
          report
            (n + 1)
            "readability/multiline_comment"
            5
            (text "Could not find end of multi-line comment")
          ∷ [])
