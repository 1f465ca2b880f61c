-- ===== src/Regex.antt =====
-- `re`: a backtracking matcher, in the order in which Python tries the alternatives. A pattern is
-- given in Python's own notation; `Regex/Syntax.antt` reads it.
pub mod Syntax
mod Tests
use mathlib.Core.Bool.{xor}
use netproject_c.Prelude.{
  ℕ, zero, suc, ◌+◌, ◌-◌, Bool, true, false, ◌&&◌, ◌||◌, not, Option, none, some, List, [], ◌∷◌,
  ◌++◌, String, Text, text, ltb, leb, ◌==◌, if◌then◌else◌, length, take, drop, any, is_space,
  starts_with, last_or,
}
use netproject_c.Regex.Syntax.{
  Item, range, space, word, digit, not_space, not_word, not_digit, Re, empty, any_char, chars, seq,
  alt, star, opt, group, ahead, at_start, at_end, word_edge, back, is_digit, is_word, compile,
}

-- What a group has matched.
pub record Capture : Type 0 where
  pub index : ℕ
  pub start : ℕ
  pub finish : ℕ
  pub matched : Text

-- A place in the text: the character before it, if any, and what follows.
record Cursor : Type 0 where
  place : ℕ
  before : Option ℕ
  rest : Text
  captures : List Capture

abbrev Next : Type 0
Next = Cursor → Option Cursor

captured : ℕ → List Capture → Option Capture
captured n [] = none
captured n (c ∷ cs) = if c.index == n then some c else captured n cs

in_item : ℕ → Item → Bool
unfolding is_word is_digit is_space
in_item c (range lo hi) = leb lo c && leb c hi
in_item c space = is_space c
in_item c word = is_word c
in_item c digit = is_digit c
in_item c not_space = not (is_space c)
in_item c not_word = not (is_word c)
in_item c not_digit = not (is_digit c)

in_class : Bool → List Item → ℕ → Bool
unfolding in_item
in_class negated items c = if negated then not (any (in_item c) items) else any (in_item c) items

-- Take one character that passes the test.
one_char : (ℕ → Bool) → Cursor → Next → Text → Option Cursor
one_char test c k [] = none
one_char test c k (x ∷ s) =
    let onward = k (record c { place = c.place + 1; before = some x; rest = s }) in
    if test x then onward else none

abbrev word_before : Option ℕ → Bool
word_before none = false
word_before (some x) = is_word x

abbrev word_after : Text → Bool
word_after [] = false
word_after (x ∷ s) = is_word x

abbrev is_last : Text → Bool
is_last [] = true
is_last (x ∷ []) = x == 10
is_last _ = false

abbrev or_else : Option Cursor → (Unit {0} → Option Cursor) → Option Cursor
or_else o next = elim o [ some d ↦ some d | none ↦ next tt ]

-- Repetition: every further round must have taken a character.
rounds : Bool → (Cursor → Next → Option Cursor) → ℕ → Cursor → Next → Option Cursor
rounds greedy one zero c k = k c
rounds greedy one (suc n) c k =
    let more =
      one c
        λ d. let onward = rounds greedy one n d k in if ltb c.place d.place then onward else none in
    elim greedy [ true ↦ or_else more (λ _. k c) | false ↦ or_else (k c) (λ _. more) ]

run : Re → Cursor → Next → Option Cursor
unfolding in_class one_char rounds is_word is_digit xor captured starts_with
run empty c k = k c
run any_char c k = one_char (λ x. not (x == 10)) c k c.rest
run (chars negated items) c k = one_char (in_class negated items) c k c.rest
run (seq r s) c k = run r c (λ d. run s d k)
run (alt r s) c k = let second = run s c k in or_else (run r c k) (λ _. second)
run (star greedy r) c k = rounds greedy (run r) (length c.rest) c k
run (opt greedy r) c k =
    let one = run r c k in
    elim greedy [ true ↦ or_else one (λ _. k c) | false ↦ or_else (k c) (λ _. one) ]
run (group n r) c k = run r c λ d. k (record d {
  captures =
      record {
        index = n;
        start = c.place;
        finish = d.place;
        matched = take (d.place - c.place) c.rest;
      }
      ∷ d.captures;
})
run (ahead wanted r) c k = elim (run r c some) [
  | some d ↦
      (let onward = k (record c { captures = d.captures }) in if wanted then onward else none)
  | none ↦ (let onward = k c in if wanted then none else onward)
]
run (back n) c k = elim (captured n c.captures) [
  | none ↦ none
  | some referred ↦
      (let size = length referred.matched in
        let onward = k (record c {
          place = c.place + size;
          before = if size == 0 then c.before else some (last_or referred.matched 0);
          rest = drop size c.rest;
        }) in
        if starts_with c.rest referred.matched then onward else none)
]
run at_start c k = let onward = k c in if c.place == 0 then onward else none
run at_end c k = let onward = k c in if is_last c.rest then onward else none
run word_edge c k =
    let onward = k c in
    let edge = xor (word_before c.before) (word_after c.rest) in if edge then onward else none

-- A match object.
pub record Found : Type 0 where
  pub start : ℕ
  pub finish : ℕ
  pub matched : Text
  pub captures : List Capture

found_from : Cursor → Option Cursor → Option Found
found_from c none = none
found_from c (some d) = some (record {
  start = c.place;
  finish = d.place;
  matched = take (d.place - c.place) c.rest;
  captures = d.captures;
})

at_cursor : Re → Cursor → Option Found
unfolding run found_from
at_cursor r c = found_from c (run r c some)

abbrev origin : Text → Cursor
origin s = record { place = 0; before = none; rest = s; captures = [] }

search_go : Re → ℕ → Option ℕ → Text → Option Found
unfolding at_cursor
search_go r p b [] = at_cursor r (record { place = p; before = b; rest = []; captures = [] })
search_go r p b (x ∷ s) =
    let later = search_go r (p + 1) (some x) s in
    elim (at_cursor r (record { place = p; before = b; rest = x ∷ s; captures = [] })) [
      | some m ↦ some m
      | none ↦ later
    ]

-- `pattern.match(s)` and `pattern.search(s)`
unfoldable pub match_re : Re → Text → Option Found
unfolding at_cursor
match_re r s = at_cursor r (origin s)

unfoldable pub search_re : Re → Text → Option Found
unfolding search_go
search_re r s = search_go r 0 none s

-- `pattern.sub(rep, s)`, for a fixed `rep` and a pattern that matches no empty text; the number is
-- what is left of a match to skip
sub_go : Re → Text → ℕ → ℕ → Option ℕ → Text → Text
unfolding at_cursor
sub_go r rep skip p b [] = []
sub_go r rep (suc skip) p b (x ∷ s) = sub_go r rep skip (p + 1) (some x) s
sub_go r rep zero p b (x ∷ s) =
    let miss = x ∷ sub_go r rep zero (p + 1) (some x) s in
    elim (at_cursor r (record { place = p; before = b; rest = x ∷ s; captures = [] })) [
      | some m ↦
          (let size = m.finish - m.start in
            let hit = rep ++ sub_go r rep (size - 1) (p + 1) (some x) s in
            if size == 0 then miss else hit)
      | none ↦ miss
    ]

unfoldable pub sub_re : Re → Text → Text → Text
unfolding sub_go
sub_re r rep s = sub_go r rep 0 0 none s

-- `pattern.finditer(s)`, for a pattern that matches no empty text; the number is what is left of a
-- match to skip
find_go : Re → ℕ → ℕ → Option ℕ → Text → List Found
unfolding at_cursor
find_go r skip p b [] = []
find_go r (suc skip) p b (x ∷ s) = find_go r skip (p + 1) (some x) s
find_go r zero p b (x ∷ s) =
    let miss = find_go r zero (p + 1) (some x) s in
    elim (at_cursor r (record { place = p; before = b; rest = x ∷ s; captures = [] })) [
      | some m ↦ m ∷ find_go r (m.finish - m.start - 1) (p + 1) (some x) s
      | none ↦ miss
    ]

unfoldable pub find_all_re : Re → Text → List Found
unfolding find_go
find_all_re r s = find_go r 0 0 none s

-- `m.group(n)`; `group_text` has the empty text for a group that took no part
unfoldable pub group_of : Found → ℕ → Option Text
unfolding captured
group_of m n = elim (captured n m.captures) [ none ↦ none | some c ↦ some c.matched ]

unfoldable pub group_text : Found → ℕ → Text
unfolding group_of
group_text m n = elim (group_of m n) [ none ↦ [] | some t ↦ t ]

-- `m.start(n)`, `m.end(n)`
unfoldable pub group_start : Found → ℕ → ℕ
unfolding captured
group_start m n = elim (captured n m.captures) [ none ↦ 0 | some c ↦ c.start ]

unfoldable pub group_end : Found → ℕ → ℕ
unfolding captured
group_end m n = elim (captured n m.captures) [ none ↦ 0 | some c ↦ c.finish ]

-- `re.split(pattern, s)`, for a pattern with no group that matches no empty text
split_go : ℕ → List Found → Text → List Text
split_go pos [] s = drop pos s ∷ []
split_go pos (m ∷ ms) s = drop pos (take m.start s) ∷ split_go m.finish ms s

unfoldable pub split_re : Re → Text → List Text
unfolding split_go find_all_re
split_re r s = split_go 0 (find_all_re r s) s
