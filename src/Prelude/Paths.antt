-- ===== src/Prelude/Paths.antt =====
-- Python's `os.path` on POSIX, as far as the tools use it, on texts.
use Prim.Native.Nat.{ℕ, ◌+◌, ◌≤◌, ◌<◌}
use mathlib.Core.Path.{◌≡◌}
use mathlib.Core.Logic.{inl, inr}
use native.Mathlib.Omega.{arith}
use mathlib.Core.Bool.{Bool, false, not, ◌&&◌, ◌||◌}
use mathlib.Core.List.{List, [], ◌∷◌, ◌++◌, reverse}
use mathlib.Core.Option.{Option, none, some}
use netproject_c.Prelude.Tests.{if◌then◌else◌, ◌==◌, Bool-cases}
use netproject_c.Prelude.Lists.{length, take, drop, all, length-take, length-drop, length-reverse}
use netproject_c.Prelude.Strings.{Text, text, starts_with, ends_with, split_char, join, same}
use netproject_c.Prelude.Slices.{rfind, is_empty}

abbrev is_slash : ℕ → Bool
is_slash c = c == b'/'

drop_slashes : Text → Text
drop_slashes [] = []
drop_slashes (c ∷ s) = let rest = drop_slashes s in if is_slash c then rest else c ∷ s

abbrev trimmed : Text → Text
unfolding drop_slashes
trimmed head = if all is_slash head then head else reverse (drop_slashes (reverse head))

-- `os.path.split`
unfoldable pub split_path : Text → Text × Text
unfolding rfind drop_slashes trimmed
split_path p = elim (rfind (text "/") p) [
  | none ↦ ([], p)
  | some i ↦ (trimmed (take (i + 1) p), drop (i + 1) p)
]

unfoldable pub dirname : Text → Text
unfolding split_path
dirname p = (split_path p).0

-- The part before the extension of a name with no slash, and the extension with its period.
split_name : Text → Text × Text
unfolding rfind
split_name name = elim (rfind (text ".") name) [
  | none ↦ (name, [])
  | some d ↦ if all (λ c. c == b'.') (take d name) then (name, []) else (take d name, drop d name)
]

abbrev name_start : Option ℕ → ℕ
name_start none = 0
name_start (some i) = i + 1

-- `os.path.splitext`
unfoldable pub split_extension : Text → Text × Text
unfolding rfind split_name
split_extension p =
    let start = name_start (rfind (text "/") p) in
    let (name, extension) = split_name (drop start p) in (take start p ++ name, extension)

-- `os.path.join`
unfoldable pub join_path : Text → Text → Text
unfolding starts_with ends_with
join_path path b =
    if starts_with b (text "/")
    then b
    else if is_empty path || ends_with path (text "/")
    then path ++ b
    else path ++ text "/" ++ b

-- One component of `normpath`; the components so far have the last one first.
normal_step : Bool → List Text → Text → List Text
unfolding same
normal_step rooted [] comp =
    if is_empty comp || same comp (text ".") || (same comp (text "..") && rooted)
    then []
    else comp ∷ []
normal_step rooted (last ∷ comps) comp =
    if is_empty comp || same comp (text ".")
    then last ∷ comps
    else if not (same comp (text "..")) || same last (text "..")
    then comp ∷ last ∷ comps
    else comps

normal_comps : Bool → List Text → List Text → List Text
unfolding normal_step
normal_comps rooted done [] = reverse done
normal_comps rooted done (comp ∷ comps) = normal_comps rooted (normal_step rooted done comp) comps

abbrev initial_slashes : Text → Text
initial_slashes p =
    if starts_with p (text "//") && not (starts_with p (text "///"))
    then text "//"
    else if starts_with p (text "/")
    then text "/"
    else []

abbrev or_dot : Text → Text
or_dot [] = text "."
or_dot (c ∷ s) = c ∷ s

-- `os.path.normpath`
unfoldable pub normal_path : Text → Text
unfolding normal_comps split_char join starts_with
normal_path p =
    let slashes = initial_slashes p in
    or_dot
      (slashes ++ join (text "/") (normal_comps (not (is_empty slashes)) [] (split_char b'/' p)))

non_empty : List Text → List Text
non_empty [] = []
non_empty (x ∷ xs) = let rest = non_empty xs in if is_empty x then rest else x ∷ rest

up : List Text → List Text → List Text
up [] path = path
up (x ∷ xs) path = text ".." ∷ up xs path

-- `..` for each component that is left of the start, and the components that are left of the path.
relative : List Text → List Text → List Text
unfolding same up
relative (x ∷ xs) (y ∷ ys) =
    let onward = relative xs ys in if same x y then onward else up (x ∷ xs) (y ∷ ys)
relative start path = up start path

-- `os.path.relpath` of two absolute paths: the path, then the start
unfoldable pub relative_path : Text → Text → Text
unfolding relative non_empty split_char join
relative_path path start = or_dot (
    join (text "/")
      (relative (non_empty (split_char b'/' start)) (non_empty (split_char b'/' path))))

-- `os.path.commonprefix` of two texts
unfoldable pub common_prefix : Text → Text → Text
common_prefix (x ∷ xs) (y ∷ ys) = let rest = common_prefix xs ys in if x == y then x ∷ rest else []
common_prefix _ _ = []

length-drop_slashes : (s : Text) → length (drop_slashes s) ≤ length s
unfolding drop_slashes
length-drop_slashes [] = omega arith
length-drop_slashes (c ∷ s) = elim (Bool-cases (is_slash c)) [
  | inl h ↦ rw h (omega (arith, length-drop_slashes s))
  | inr h ↦ rw h (omega arith)
]

length-trimmed : (s : Text) → length (trimmed s) ≤ length s
unfolding trimmed
length-trimmed s = elim (Bool-cases (all is_slash s)) [
  | inl h ↦ rw h (omega arith)
  | inr h ↦ rw h (
      omega (
        arith,
        length-reverse (drop_slashes (reverse s)),
        length-drop_slashes (reverse s),
        length-reverse s,
      ))
]

not_empty : (s : Text) → is_empty s ≡ false → 0 < length s
not_empty [] h = cc
not_empty (c ∷ s) h = omega arith

head_is_shorter :
    (p : Text) (o : Option ℕ)
    → is_empty
        (elim o as (λ _. Text × Text) [
          | none ↦ ([], p)
          | some i ↦ (trimmed (take (i + 1) p), drop (i + 1) p)
        ]).1
      ≡ false
    → length
        (elim o as (λ _. Text × Text) [
          | none ↦ ([], p)
          | some i ↦ (trimmed (take (i + 1) p), drop (i + 1) p)
        ]).0
      < length p
head_is_shorter [] none h = cc
head_is_shorter (c ∷ p) none h = omega arith
head_is_shorter p (some i) h = omega (
  arith,
  length-trimmed (take (i + 1) p),
  length-take (i + 1) p,
  length-drop (i + 1) p,
  not_empty (drop (i + 1) p) h,
)

-- The directory of a path whose last component is not empty is a shorter text.
pub length-split_path :
    (p : Text) → is_empty (split_path p).1 ≡ false → length (split_path p).0 < length p
unfolding split_path
length-split_path p h = head_is_shorter p (rfind (text "/") p) h
