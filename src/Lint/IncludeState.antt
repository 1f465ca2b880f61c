-- ===== src/Lint/IncludeState.antt =====
-- cpplint.py, `_IncludeState`: the headers that a file has included, and the order of the sections.
pub mod Order
pub mod Headers
pub mod Alphabet
use netproject_c.Prelude.{
  ℕ, ◌+◌, Bool, true, false, not, ◌&&◌, Option, none, some, List, [], ◌∷◌, ◌++◌, Text, text, leb,
  ◌==◌, if◌then◌else◌, same, one_of, text_lt, replace, lower,
}
use netproject_c.Lint.Patterns.{matches}

-- `_C_SYS_HEADER` and its fellows
pub data HeaderType : Type 0 where
  c_sys_header cpp_sys_header likely_my_header possible_my_header other_header : HeaderType

abbrev pub initial_section : ℕ
initial_section = 0

abbrev pub my_h_section : ℕ
my_h_section = 1

abbrev pub c_section : ℕ
c_section = 2

abbrev pub cpp_section : ℕ
cpp_section = 3

abbrev pub other_h_section : ℕ
other_h_section = 4

abbrev pub type_name : HeaderType → Text
type_name c_sys_header = text "C system header"
type_name cpp_sys_header = text "C++ system header"
type_name likely_my_header = text "header this file implements"
type_name possible_my_header = text "header this file may implement"
type_name other_header = text "other header"

abbrev pub section_name : ℕ → Text
section_name s =
    if s == initial_section
    then text "... nothing. (This can't be an error.)"
    else if s == my_h_section
    then text "a header this file implements"
    else if s == c_section
    then text "C system header"
    else if s == cpp_section
    then text "C++ system header"
    else text "other header"

-- A header and the line that includes it.
abbrev pub Include : Type 0
Include = Text × ℕ

pub record IncludeState : Type 0 where
  pub include_list : List (List Include)
  pub section : ℕ
  pub last_header : Text

find_in : Text → List Include → Option ℕ
unfolding same
find_in header [] = none
find_in header (f ∷ fs) = if same f.0 header then some f.1 else find_in header fs

abbrev pub first_of_two : Option ℕ → Option ℕ → Option ℕ
first_of_two none later = later
first_of_two (some n) later = some n

find_in_sections : Text → List (List Include) → Option ℕ
unfolding find_in
find_in_sections header [] = none
find_in_sections header (s ∷ ss) = first_of_two (find_in header s) (find_in_sections header ss)

-- `none` for the source's -1
pub find_header : IncludeState → Text → Option ℕ
unfolding find_in_sections
find_header self header = find_in_sections header self.include_list

-- `include_list[-1] = []`
pub clear_last : List (List Include) → List (List Include)
clear_last [] = []
clear_last (s ∷ []) = [] ∷ []
clear_last (s ∷ t ∷ ss) = s ∷ clear_last (t ∷ ss)

pub reset_section : IncludeState → Text → IncludeState
unfolding one_of clear_last
reset_section self directive =
    let includes =
      if one_of directive (text "if" ∷ text "ifdef" ∷ text "ifndef" ∷ [])
      then self.include_list ++ [] ∷ []
      else if one_of directive (text "else" ∷ text "elif" ∷ [])
      then clear_last self.include_list
      else self.include_list in
    record { include_list = includes; section = initial_section; last_header = [] }

pub init : IncludeState
unfolding reset_section
init =
    reset_section (record { include_list = [] ∷ []; section = initial_section; last_header = [] })
      []

pub set_last_header : IncludeState → Text → IncludeState
set_last_header self header_path = record self { last_header = header_path }

-- `include_list[-1].append((include, linenum))`, as `CheckIncludeLine` does it
pub append_last : Include → List (List Include) → List (List Include)
append_last f [] = []
append_last f (s ∷ []) = (s ++ f ∷ []) ∷ []
append_last f (s ∷ t ∷ ss) = s ∷ append_last f (t ∷ ss)

pub canonicalize_alphabetical_order : Text → Text
unfolding replace lower
canonicalize_alphabetical_order header_path =
    lower (replace (text "-") (text "_") (replace (text "-inl.h") (text ".h") header_path))

-- The line before is `clean_lines.elided[linenum - 1]`.
pub is_in_alphabetical_order : IncludeState → Text → Text → Bool
unfolding text_lt matches
is_in_alphabetical_order self line_before header_path =
    if text_lt header_path self.last_header && matches "^\\s*#\\s*include\\b" line_before
    then false
    else true

abbrev pub out_of_order : IncludeState → HeaderType → Text
out_of_order self header_type =
    text "Found " ++ type_name header_type ++ text " after " ++ section_name self.section

-- The section after a header that is not out of order; `none` for an early return of the message.
next_section : ℕ → HeaderType → Option ℕ
next_section s c_sys_header = if leb s c_section then some c_section else none
next_section s cpp_sys_header = if leb s cpp_section then some cpp_section else none
next_section s likely_my_header =
    if leb s my_h_section then some my_h_section else some other_h_section
next_section s possible_my_header =
    if leb s my_h_section then some my_h_section else some other_h_section
next_section s other_header = some other_h_section

-- `CheckNextIncludeOrder`, with the empty text for no message.
pub check_next_include_order : IncludeState → HeaderType → IncludeState × Text
unfolding next_section
check_next_include_order self header_type = elim (next_section self.section header_type) [
  | none ↦ (record self { last_header = [] }, out_of_order self header_type)
  | some s ↦
      let moved = record self { section = s } in
      (if self.section == s then moved else record moved { last_header = [] }, [])
]
