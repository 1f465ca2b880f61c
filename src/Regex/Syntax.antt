-- ===== src/Regex/Syntax.antt =====
-- Regular expressions as the tools write them for Python's `re`, and the parser for that notation.
use netproject_c.Prelude.{
  ℕ, zero, suc, ◌+◌, ◌-◌, Bool, true, false, ◌&&◌, ◌||◌, Option, none, some, List, [], ◌∷◌, Text,
  leb, ◌==◌, if◌then◌else◌, length, inl, inr, ◌⊎◌,
}

-- One member of a class `[...]`; the shorthands stand alone outside a class too.
pub data Item : Type 0 where
  range : ℕ → ℕ → Item
  space word digit : Item
  not_space not_word not_digit : Item

pub data Re : Type 0 where
  empty : Re
  any_char : Re
  chars : Bool → List Item → Re
  seq : Re → Re → Re
  alt : Re → Re → Re
  star : Bool → Re → Re
  opt : Bool → Re → Re
  group : ℕ → Re → Re
  ahead : Bool → Re → Re
  at_start : Re
  at_end : Re
  word_edge : Re
  back : ℕ → Re

abbrev pub literal : ℕ → Re
literal c = chars false (range c c ∷ [])

unfoldable pub is_digit : ℕ → Bool
is_digit c = leb b'0' c && leb c b'9'

unfoldable pub is_word : ℕ → Bool
unfolding is_digit
is_word c = is_digit c || (leb b'a' c && leb c b'z') || (leb b'A' c && leb c b'Z') || c == b'_'

-- What follows a backslash, outside a class.
shorthand : ℕ → Re
shorthand c =
    if c == b's'
    then chars false (space ∷ [])
    else if c == b'w'
    then chars false (word ∷ [])
    else if c == b'd'
    then chars false (digit ∷ [])
    else if c == b'S'
    then chars false (not_space ∷ [])
    else if c == b'W'
    then chars false (not_word ∷ [])
    else if c == b'D'
    then chars false (not_digit ∷ [])
    else if c == b'b'
    then word_edge
    else if c == b'n'
    then literal 10
    else if c == b't'
    then literal 9
    else if c == b'r'
    then literal 13
    else if leb b'1' c && leb c b'9'
    then back (c - 48)
    else literal c

-- The reader of a class: nothing pending, a pending character, a pending `c-`, or an escape.
pub data Pending : Type 0 where
  idle : Pending
  have : ℕ → Pending
  dash : ℕ → Pending
  escape : Pending

abbrev flush : Pending → List Item → List Item
flush idle items = items
flush (have c) items = range c c ∷ items
flush (dash c) items = range c c ∷ range b'-' b'-' ∷ items
flush escape items = items

abbrev escaped_item : ℕ → List Item → List Item × Pending
escaped_item c items =
    if c == b's'
    then (space ∷ items, idle)
    else if c == b'w'
    then (word ∷ items, idle)
    else if c == b'd'
    then (digit ∷ items, idle)
    else if c == b'S'
    then (not_space ∷ items, idle)
    else if c == b'W'
    then (not_word ∷ items, idle)
    else if c == b'D'
    then (not_digit ∷ items, idle)
    else if c == b'n'
    then (items, have 10)
    else if c == b't'
    then (items, have 9)
    else if c == b'r'
    then (items, have 13)
    else (items, have c)

-- One character of a class: the new state, or the end of the class.
class_step : Pending → ℕ → List Item → (List Item × Pending) ⊎ List Item
class_step escape c items = inl (escaped_item c items)
class_step (dash a) c items =
    if c == b']' then inr (flush (dash a) items) else inl (range a c ∷ items, idle)
class_step (have a) c items =
    if c == b']'
    then inr (flush (have a) items)
    else if c == b'-'
    then inl (items, dash a)
    else if c == b'\\'
    then inl (flush (have a) items, escape)
    else inl (flush (have a) items, have c)
class_step idle c items =
    if c == b']' then inr items else if c == b'\\' then inl (items, escape) else inl (items, have c)

class_items : Text → List Item → Pending → List Item × Text
unfolding class_step
class_items [] items p = (flush p items, [])
class_items (c ∷ s) items p = elim (class_step p c items) [
  | inl (items', p') ↦ class_items s items' p'
  | inr items' ↦ (items', s)
]

class_atom : Text → Re × Text
unfolding class_items
class_atom [] = (chars false [], [])
class_atom (c ∷ s) =
    let plain = class_items (c ∷ s) [] idle in
    let negated = class_items s [] idle in
    if c == b'^' then (chars true negated.0, negated.1) else (chars false plain.0, plain.1)

-- A `?` behind a quantifier makes it lazy.
lazy_mark : Text → Bool × Text
lazy_mark [] = (true, [])
lazy_mark (c ∷ s) = if c == b'?' then (false, s) else (true, c ∷ s)

repeat : ℕ → Re → Re
repeat zero r = empty
repeat (suc n) r = seq r (repeat n r)

optional : ℕ → Re → Re
optional zero r = empty
optional (suc n) r = seq (opt true r) (optional n r)

-- Behind `{n,`, for one-digit numbers.
counted_to : Re → ℕ → Text → Re × Text
unfolding repeat optional is_digit
counted_to r n (m ∷ e ∷ s) =
    if is_digit m && e == b'}'
    then (seq (repeat (n - 48) r) (optional (m - n) r), s)
    else (seq r (literal b'{'), n ∷ b',' ∷ m ∷ e ∷ s)
counted_to r n s = (seq r (literal b'{'), n ∷ b',' ∷ s)

-- `{n}` and `{n,m}`, for one-digit numbers.
counted : Re → ℕ → Text → Re × Text
unfolding repeat is_digit counted_to
counted r c (n ∷ e ∷ s) =
    if is_digit n && e == b'}'
    then (repeat (n - 48) r, s)
    else if is_digit n && e == b','
    then counted_to r n s
    else (seq r (literal c), n ∷ e ∷ s)
counted r c s = (seq r (literal c), s)

-- The quantifier behind an atom.
quantified : Re → Text → Re × Text
unfolding lazy_mark counted
quantified r [] = (r, [])
quantified r (c ∷ s) =
    let (greedy, rest) = lazy_mark s in
    if c == b'*'
    then (star greedy r, rest)
    else if c == b'+'
    then (seq r (star greedy r), rest)
    else if c == b'?'
    then (opt greedy r, rest)
    else if c == b'{'
    then counted r c s
    else (r, c ∷ s)

-- The next token of a pattern.
pub data Token : Type 0 where
  finish : Token
  close : Token
  bar : Token
  capture : Token
  plain : Token
  look : Bool → Token
  atom : Re → Token

-- Behind `(`.
opening : Text → Token × Text
opening (q ∷ c ∷ s) =
    if q == b'?' && c == b':'
    then (plain, s)
    else if q == b'?' && c == b'='
    then (look true, s)
    else if q == b'?' && c == b'!'
    then (look false, s)
    else (capture, q ∷ c ∷ s)
opening s = (capture, s)

escape_atom : Text → Token × Text
unfolding shorthand
escape_atom [] = (atom (literal b'\\'), [])
escape_atom (c ∷ s) = (atom (shorthand c), s)

next_token : Text → Token × Text
unfolding opening escape_atom class_atom
next_token [] = (finish, [])
next_token (c ∷ s) =
    if c == b')'
    then (close, s)
    else if c == b'|'
    then (bar, s)
    else if c == b'('
    then opening s
    else if c == b'\\'
    then escape_atom s
    else if c == b'['
    then (atom (class_atom s).0, (class_atom s).1)
    else if c == b'.'
    then (atom any_char, s)
    else if c == b'^'
    then (atom at_start, s)
    else if c == b'$'
    then (atom at_end, s)
    else (atom (literal c), s)

abbrev joined : Option Re → Re → Re
joined none r = r
joined (some a) r = alt a r

-- The reading of one alternation: the earlier branches, the branch so far, the number of groups
-- opened, and the text left. Each round takes a character, so the length of the text is fuel enough.
pub record Parsed : Type 0 where
  pub re : Re
  pub opened : ℕ
  pub left : Text

parse_go : ℕ → Option Re → Re → ℕ → Text → Parsed
unfolding next_token quantified
parse_go zero branches r n s = record { re = joined branches r; opened = n; left = s }
parse_go (suc f) branches r n s =
    let (token, rest) = next_token s in
    elim token [
      | finish ↦ record { re = joined branches r; opened = n; left = [] }
      | close ↦ record { re = joined branches r; opened = n; left = rest }
      | bar ↦ parse_go f (some (joined branches r)) empty n rest
      | capture ↦
          let inner = parse_go f none empty (n + 1) rest in
          let (a, after) = quantified (group (n + 1) inner.re) inner.left in
          parse_go f branches (seq r a) inner.opened after
      | plain ↦
          let inner = parse_go f none empty n rest in
          let (a, after) = quantified inner.re inner.left in
          parse_go f branches (seq r a) inner.opened after
      | look ahead_is ↦
          let inner = parse_go f none empty n rest in
          parse_go f branches (seq r (ahead ahead_is inner.re)) inner.opened inner.left
      | atom x ↦ let (a, after) = quantified x rest in parse_go f branches (seq r a) n after
    ]

-- `re.compile`
unfoldable pub compile : Text → Re
unfolding parse_go
compile s = (parse_go (suc (length s)) none empty 0 s).re
