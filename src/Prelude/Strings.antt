-- ===== src/Prelude/Strings.antt =====
-- Python's `str` as its list of code points, and the methods of `str` that the tools call.
use Prim.Native.Nat.{ℕ, zero, suc, ◌+◌, ◌-◌, ◌/◌, ◌%◌}
use Prim.Native.Char.{code}
use Prim.Native.String.{String}
use mathlib.Core.Path.{◌≡◌}
use mathlib.Core.Logic.{◌↔◌}
use mathlib.Core.Bool.{Bool, true, false, ◌&&◌, ◌||◌}
use mathlib.Core.List.{List, [], ◌∷◌, ◌++◌, reverse, map}
use mathlib.Core.Option.{Option, none, some}
use native.Mathlib.Omega.{arith}
use netproject_c.Prelude.Tests.{ltb, leb, ◌==◌, if◌then◌else◌}
use netproject_c.Prelude.Lists.{length}

abbrev pub Text : Type 0
Text = List ℕ

abbrev pub text : String → Text
text String.[] = []
text (String.◌∷◌ c s) = code c ∷ text s

-- `a == b`
unfoldable pub same : Text → Text → Bool
same [] [] = true
same (x ∷ xs) (y ∷ ys) = x == y && same xs ys
same _ _ = false

pub same_iff : (a b : Text) → (same a b ≡ true) ↔ (a ≡ b)
unfolding same
same_iff (x ∷ a) (y ∷ b) = ground (arith, same_iff a b)
same_iff _ _ = ground arith

-- `x in (a, b, ...)` on texts
unfoldable pub one_of : Text → List Text → Bool
unfolding same
one_of x [] = false
one_of x (y ∷ ys) = same x y || one_of x ys

-- `a > b`, by code points
unfoldable pub text_lt : Text → Text → Bool
text_lt [] [] = false
text_lt [] (y ∷ ys) = true
text_lt (x ∷ xs) [] = false
text_lt (x ∷ xs) (y ∷ ys) = ltb x y || (x == y && text_lt xs ys)

unfoldable pub starts_with : Text → Text → Bool
starts_with s [] = true
starts_with [] (p ∷ ps) = false
starts_with (c ∷ s) (p ∷ ps) = c == p && starts_with s ps

unfoldable pub ends_with : Text → Text → Bool
unfolding starts_with
ends_with s p = starts_with (reverse s) (reverse p)

abbrev shift : Option ℕ → Option ℕ
shift none = none
shift (some i) = some (suc i)

-- `s.find(p)`: the first position, `none` for -1
unfoldable pub find : Text → Text → Option ℕ
unfolding starts_with
find p [] = if starts_with [] p then some 0 else none
find p (c ∷ s) = let rest = shift (find p s) in if starts_with (c ∷ s) p then some 0 else rest

-- white space in the ASCII range, as `str.strip` and `\s` have it
unfoldable pub is_space : ℕ → Bool
is_space c = c == 32 || (leb 9 c && leb c 13) || (leb 28 c && leb c 31)

unfoldable pub lstrip : Text → Text
unfolding is_space
lstrip [] = []
lstrip (c ∷ s) = let rest = lstrip s in if is_space c then rest else c ∷ s

unfoldable pub rstrip : Text → Text
unfolding lstrip
rstrip s = reverse (lstrip (reverse s))

unfoldable pub strip : Text → Text
unfolding rstrip lstrip
strip s = rstrip (lstrip s)

unfoldable pub to_lower : ℕ → ℕ
to_lower c = if leb b'A' c && leb c b'Z' then c + 32 else c

unfoldable pub to_upper : ℕ → ℕ
to_upper c = if leb b'a' c && leb c b'z' then c - 32 else c

unfoldable pub lower : Text → Text
unfolding to_lower
lower = map to_lower

-- `s.split(c)` for one character
unfoldable pub split_char : ℕ → Text → List Text
split_char c [] = [] ∷ []
split_char c (x ∷ s) =
    if x == c
    then [] ∷ split_char c s
    else elim (split_char c s) [ [] ↦ (x ∷ []) ∷ [] | p ∷ ps ↦ (x ∷ p) ∷ ps ]

-- `s.replace(old, new)` for a non-empty `old`; the count is what is left of a match to skip
unfoldable pub replace_go : Text → Text → ℕ → Text → Text
unfolding starts_with
replace_go old new skip [] = []
replace_go old new (suc skip) (c ∷ s) = replace_go old new skip s
replace_go old new zero (c ∷ s) =
    let hit = new ++ replace_go old new (length old - 1) s in
    let miss = c ∷ replace_go old new zero s in if starts_with (c ∷ s) old then hit else miss

unfoldable pub replace : Text → Text → Text → Text
unfolding replace_go
replace old new = replace_go old new 0

-- `s.count(p)` for a non-empty `p`: occurrences that do not overlap
count_go : Text → ℕ → Text → ℕ
unfolding starts_with
count_go p skip [] = 0
count_go p (suc skip) (c ∷ s) = count_go p skip s
count_go p zero (c ∷ s) =
    let hit = suc (count_go p (length p - 1) s) in
    let miss = count_go p zero s in if starts_with (c ∷ s) p then hit else miss

unfoldable pub count : Text → Text → ℕ
unfolding count_go
count p = count_go p 0

unfoldable pub join : Text → List Text → Text
join sep [] = []
join sep (x ∷ []) = x
join sep (x ∷ y ∷ r) = x ++ sep ++ join sep (y ∷ r)

-- `'%d' % n`, digit by digit; `suc n` rounds are always enough
digits_go : ℕ → ℕ → Text → Text
digits_go zero n acc = acc
digits_go (suc f) n acc =
    let acc' = (48 + n % 10) ∷ acc in
    let rest = digits_go f (n / 10) acc' in if ltb n 10 then acc' else rest

unfoldable pub show : ℕ → Text
unfolding digits_go
show n = digits_go (suc n) n []
