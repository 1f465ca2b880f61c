-- ===== src/Prelude/Slices.antt =====
-- Slices, searches and splits of Python's `str` that need more than one position.
use Prim.Native.Nat.{ℕ, zero, suc, ◌+◌, ◌-◌}
use mathlib.Core.Bool.{Bool, true, false}
use mathlib.Core.List.{List, [], ◌∷◌}
use mathlib.Core.Option.{Option, none, some}
use netproject_c.Prelude.Tests.{if◌then◌else◌}
use netproject_c.Prelude.Lists.{length, drop, get_or}
use netproject_c.Prelude.Strings.{Text, starts_with, find, is_space}

abbrev pub is_some {ℓ} : {A : Type ℓ} → Option A → Bool
is_some none = false
is_some (some x) = true

abbrev pub or_zero : Option ℕ → ℕ
or_zero none = 0
or_zero (some n) = n

abbrev pub is_empty {ℓ} : {A : Type ℓ} → List A → Bool
is_empty [] = true
is_empty (x ∷ xs) = false

-- `s.rfind(p)`: the last position, `none` for -1
unfoldable pub rfind : Text → Text → Option ℕ
unfolding starts_with
rfind p [] = if starts_with [] p then some 0 else none
rfind p (c ∷ s) = elim (rfind p s) [
  | some i ↦ some (suc i)
  | none ↦ if starts_with (c ∷ s) p then some 0 else none
]

-- `s.find(p, i)`
unfoldable pub find_from : Text → ℕ → Text → Option ℕ
unfolding find
find_from p i s = elim (find p (drop i s)) [ none ↦ none | some k ↦ some (i + k) ]

-- `p in s`
unfoldable pub occurs : Text → Text → Bool
unfolding find
occurs p s = is_some (find p s)

-- `s[i:]`, where `none` is -1
unfoldable pub slice_from : Option ℕ → Text → Text
slice_from (some i) s = drop i s
slice_from none s = drop (length s - 1) s

-- `lines[n - 1]`: at 0 the last line
unfoldable pub line_before : List Text → ℕ → Text
line_before lines zero = get_or lines (length lines - 1) []
line_before lines (suc n) = get_or lines n []

-- `s.split(sep)` for a non-empty `sep`; the count is what is left of a separator to skip
split_go : Text → ℕ → Text → List Text
unfolding starts_with
split_go sep skip [] = [] ∷ []
split_go sep (suc skip) (c ∷ s) = split_go sep skip s
split_go sep zero (c ∷ s) =
    let cut = [] ∷ split_go sep (length sep - 1) s in
    let onward = elim (split_go sep 0 s) as (λ _. List Text) [
      | [] ↦ (c ∷ []) ∷ []
      | p ∷ ps ↦ (c ∷ p) ∷ ps
    ] in
    if starts_with (c ∷ s) sep then cut else onward

unfoldable pub split_text : Text → Text → List Text
unfolding split_go
split_text sep s = split_go sep 0 s

abbrev add_word : Text → List Text → List Text
add_word [] ws = ws
add_word (c ∷ w) ws = (c ∷ w) ∷ ws

-- The word at the head of the text, and the words behind it.
word_list : Text → Text × List Text
unfolding is_space
word_list [] = ([], [])
word_list (c ∷ s) =
    let rest = word_list s in
    if is_space c then ([], add_word rest.0 rest.1) else (c ∷ rest.0, rest.1)

-- `s.split()`
unfoldable pub words : Text → List Text
unfolding word_list
words s = let r = word_list s in add_word r.0 r.1

-- `xs[-1]`, or the default
abbrev pub last_or {ℓ} : {A : Type ℓ} → List A → A → A
last_or [] d = d
last_or (x ∷ []) d = x
last_or (x ∷ y ∷ r) d = last_or (y ∷ r) d

-- `c * n`
abbrev pub replicate {ℓ} : {A : Type ℓ} → ℕ → A → List A
replicate zero c = []
replicate (suc n) c = c ∷ replicate n c
