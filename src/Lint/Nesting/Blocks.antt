-- ===== src/Lint/Nesting/Blocks.antt =====
-- cpplint.py, `_BlockInfo` and its subclasses: one data type with a kind for each class.
use netproject_c.Prelude.{
  ℕ, ◌+◌, ◌-◌, Bool, true, false, not, ◌&&◌, ◌||◌, Option, none, some, List, [], ◌∷◌, ◌++◌, Text,
  text, ltb, ◌==◌, if◌then◌else◌, length, take, drop, get_or, reverse, count, same, ℤ, pos,
}
use netproject_c.Regex.{Found, group_text}
use netproject_c.Lint.Patterns.{
  match_text, matches, contains, search_pattern, matches_pattern, escape,
}
use netproject_c.Lint.Lines.{get_indent_level}
use netproject_c.Lint.Cleansed.{CleansedLines}
use netproject_c.Lint.Report.{Report, report}

-- `_NO_ASM`, `_INSIDE_ASM`, `_END_ASM`, `_BLOCK_ASM`
pub data Asm : Type 0 where
  no_asm inside_asm end_asm block_asm : Asm

pub record ClassFields : Type 0 where
  pub name : Text
  pub is_derived : Bool
  pub access : Text
  pub is_struct : Bool
  pub class_indent : ℕ
  pub last_line : ℕ

pub data Kind : Type 0 where
  block : Kind
  extern_c : Kind
  class_of : ClassFields → Kind
  namespace : Text → Kind

pub record BlockInfo : Type 0 where
  pub starting_linenum : ℕ
  pub seen_open_brace : Bool
  pub open_parentheses : ℤ
  pub inline_asm : Asm
  pub check_namespace_indentation : Bool
  pub kind : Kind

abbrev pub block_info : ℕ → Bool → Bool → Kind → BlockInfo
block_info linenum seen_open_brace check_namespace_indentation kind = record {
  starting_linenum = linenum;
  seen_open_brace = seen_open_brace;
  open_parentheses = pos 0;
  inline_asm = no_asm;
  check_namespace_indentation = check_namespace_indentation;
  kind = kind;
}

unfoldable pub new_block : ℕ → BlockInfo
new_block linenum = block_info linenum true false block

unfoldable pub new_extern_c : ℕ → BlockInfo
new_extern_c linenum = block_info linenum true false extern_c

unfoldable pub new_namespace : Text → ℕ → BlockInfo
new_namespace name linenum = block_info linenum false true (namespace name)

-- The loop for `last_line`: the first line from `i` on at which as many braces are closed as opened.
find_last_line : ℕ → ℕ → ℕ → List Text → ℕ
unfolding count
find_last_line i opened closed [] = 0
find_last_line i opened closed (line ∷ lines) =
    let opened' = opened + count (text "{") line in
    let closed' = closed + count (text "}") line in
    let later = find_last_line (i + 1) opened' closed' lines in
    if opened' == closed' then i else later

unfoldable pub new_class : Text → Text → CleansedLines → ℕ → BlockInfo
unfolding find_last_line get_indent_level same
new_class name class_or_struct clean_lines linenum =
    let is_struct = same class_or_struct (text "struct") in
    block_info linenum false true (
      class_of (record {
        name = name;
        is_derived = false;
        access = if is_struct then text "public" else text "private";
        is_struct = is_struct;
        class_indent = get_indent_level (get_or clean_lines.raw_lines linenum []);
        last_line = find_last_line linenum 0 0 (drop linenum clean_lines.elided);
      }))

abbrev set_kind : BlockInfo → Kind → BlockInfo
set_kind b k = record b { kind = k }

-- `CheckBegin`; only a class looks for a bare ':'
begin_kind : Kind → Text → Kind
unfolding contains
begin_kind (class_of c) line =
    class_of (if contains "(^|[^:]):($|[^:])" line then record c { is_derived = true } else c)
begin_kind k line = k

unfoldable pub check_begin : BlockInfo → CleansedLines → ℕ → BlockInfo
unfolding begin_kind
check_begin b clean_lines linenum =
    set_kind b (begin_kind b.kind (get_or clean_lines.elided linenum []))

-- The loop over the lines in front of the end of a class, the nearest first; `i` is the line's number.
disallow_loop : Text → Bool → ℕ → List Text → List Report
unfolding search_pattern group_text matches
disallow_loop name seen_last_thing i [] = []
disallow_loop name seen_last_thing i (line ∷ above) =
    let later = disallow_loop name (seen_last_thing || not (matches "^\\s*$" line)) (i - 1) above in
    elim (search_pattern
      (text "\\b(DISALLOW_COPY_AND_ASSIGN|DISALLOW_IMPLICIT_CONSTRUCTORS)\\(" ++ name ++ text "\\)")
      line) [
        | some m ↦
            if seen_last_thing
            then report i "readability/constructors" 3
                (group_text m 1 ++ text " should be the last thing in the class")
              ∷ []
            else []
        | none ↦ later
      ]

abbrev parent_of : ClassFields → Text
parent_of c = (if c.is_struct then text "struct " else text "class ") ++ c.name

indent_report : ClassFields → ℕ → Option Found → List Report
unfolding group_text
indent_report c linenum none = []
indent_report c linenum (some m) =
    if length (group_text m 1) == c.class_indent
    then []
    else report linenum "whitespace/indent" 3
        (text "Closing brace should be aligned with beginning of " ++ parent_of c)
      ∷ []

class_end : BlockInfo → ClassFields → CleansedLines → ℕ → List Report
unfolding disallow_loop indent_report match_text
class_end b c clean_lines linenum =
    disallow_loop c.name false (linenum - 1)
      (reverse (drop (b.starting_linenum + 1) (take linenum clean_lines.elided)))
    ++ indent_report c linenum (match_text "^( *)\\}" (get_or clean_lines.elided linenum []))

namespace_end : BlockInfo → Text → CleansedLines → ℕ → List Report
unfolding matches matches_pattern escape
namespace_end b name clean_lines linenum =
    let line = get_or clean_lines.raw_lines linenum [] in
    let named =
      if matches_pattern
        (text "^\\s*};*\\s*(//|/\\*).*\\bnamespace\\s+" ++ escape name ++ text "[\\*/\\.\\\\\\s]*$")
        line
      then []
      else report linenum "readability/namespace" 5
          (text "Namespace should be terminated with \"// namespace " ++ name ++ text "\"")
        ∷ [] in
    let anonymous_message =
      if matches "^\\s*}.*\\b(namespace anonymous|anonymous namespace)\\b" line
      then text
          "Anonymous namespace should be terminated with \"// namespace\" or \"// anonymous namespace\""
      else text "Anonymous namespace should be terminated with \"// namespace\"" in
    let anonymous =
      if matches "^\\s*};*\\s*(//|/\\*).*\\bnamespace[\\*/\\.\\\\\\s]*$" line
      then []
      else report linenum "readability/namespace" 5 anonymous_message ∷ [] in
    if ltb (linenum - b.starting_linenum) 10
      && not (matches "^\\s*};*\\s*(//|/\\*).*\\bnamespace\\b" line)
    then []
    else if ltb 0 (length name)
    then named
    else anonymous

-- `CheckEnd`
end_reports : Kind → BlockInfo → CleansedLines → ℕ → List Report
unfolding class_end namespace_end
end_reports (class_of c) b clean_lines linenum = class_end b c clean_lines linenum
end_reports (namespace name) b clean_lines linenum = namespace_end b name clean_lines linenum
end_reports k b clean_lines linenum = []

unfoldable pub check_end : BlockInfo → CleansedLines → ℕ → List Report
unfolding end_reports
check_end b clean_lines linenum = end_reports b.kind b clean_lines linenum

abbrev pub is_block_info : BlockInfo → Bool
is_block_info b = elim b.kind [ block ↦ true | _ ↦ false ]
