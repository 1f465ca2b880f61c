-- ===== src/Lint/Nesting.antt =====
-- cpplint.py, `NestingState`: the blocks that are open at a line. Both stacks have their top first,
-- where the source's lists have it last. Blocks are values here: `Update` changes the block on top in
-- place, and the one other name for it, `previous_stack_top`, is read only for its class and identity.
pub mod Blocks
pub mod Preprocessor
pub mod Braces
use netproject_c.Prelude.{
  ℕ, zero, suc, ◌+◌, ◌-◌, Bool, true, false, not, ◌&&◌, ◌||◌, Option, none, some, List, [], ◌∷◌,
  ◌++◌, Text, text, ltb, leb, ◌==◌, if◌then◌else◌, length, take, drop, get_or, find, count, same,
  one_of, ℤ, sub_ℕ, ◌+ℤ◌, is_ℕ, any,
}
use netproject_c.Regex.{Found, group_of, group_text}
use netproject_c.Lint.Patterns.{match_text, matches}
use netproject_c.Lint.Report.{Report, report}
use netproject_c.Lint.Cleansed.{CleansedLines}
use netproject_c.Lint.Expression.{close_expression, Place}
use netproject_c.Lint.Nesting.Blocks.{
  Asm, no_asm, inside_asm, end_asm, block_asm, ClassFields, Kind, block, extern_c, class_of,
  namespace, BlockInfo, new_block, new_extern_c, new_namespace, new_class, check_begin, check_end,
}
use netproject_c.Lint.Nesting.Preprocessor.{PreprocessorInfo, update_preprocessor}

pub record NestingState : Type 0 where
  pub stack : List BlockInfo
  pub previous_stack_top : Option BlockInfo
  pub pp_stack : List (PreprocessorInfo BlockInfo)

pub init : NestingState
init = record { stack = []; previous_stack_top = none; pp_stack = [] }

abbrev pub top_of : List BlockInfo → Option BlockInfo
top_of [] = none
top_of (b ∷ bs) = some b

unfoldable pub seen_open_brace : List BlockInfo → Bool
seen_open_brace [] = true
seen_open_brace (b ∷ bs) = b.seen_open_brace

pub in_namespace_body : List BlockInfo → Bool
in_namespace_body [] = false
in_namespace_body (b ∷ bs) = elim b.kind [ namespace _ ↦ true | _ ↦ false ]

pub in_extern_c : List BlockInfo → Bool
in_extern_c [] = false
in_extern_c (b ∷ bs) = elim b.kind [ extern_c ↦ true | _ ↦ false ]

pub in_class_declaration : List BlockInfo → Bool
in_class_declaration [] = false
in_class_declaration (b ∷ bs) = elim b.kind [ class_of _ ↦ true | _ ↦ false ]

pub in_asm_block : List BlockInfo → Bool
in_asm_block [] = false
in_asm_block (b ∷ bs) = elim b.inline_asm [ no_asm ↦ false | _ ↦ true ]

-- The loop of `InTemplateArgumentList`. Each round goes forward by a character at least, or to the
-- next line, so the number of characters and lines is fuel enough.
abbrev head_or_zero : Text → ℕ
head_or_zero [] = 0
head_or_zero (c ∷ s) = c

in_template : ℕ → CleansedLines → ℕ → ℕ → Bool
unfolding match_text group_text close_expression
in_template zero clean_lines linenum pos = false
in_template (suc fuel) clean_lines linenum pos =
    let line = get_or clean_lines.elided linenum [] in
    let next_line = in_template fuel clean_lines (linenum + 1) 0 in
    let here : Bool = elim (match_text "^[^{};=\\[\\]\\.<>]*(.)" (drop pos line)) [
      | none ↦ next_line
      | some m ↦
          (let token = head_or_zero (group_text m 1) in
            let pos' = pos + length m.matched in
            let skip = in_template fuel clean_lines linenum (pos' + 1) in
            let place = close_expression clean_lines.elided linenum (pos' - 1) in
            let beyond : Bool = elim place.pos [
              | none ↦ false
              | some p ↦ in_template fuel clean_lines place.linenum p
            ] in
            if any (λ c. c == token) (text "{};")
            then false
            else if any (λ c. c == token) (text ">=[].")
            then true
            else if not (token == b'<')
            then (if leb (length line) (pos' + 1) then next_line else skip)
            else beyond)
    ] in
    if ltb linenum clean_lines.num_lines then here else false

characters : List Text → ℕ
characters [] = 1
characters (line ∷ lines) = length line + 1 + characters lines

pub in_template_argument_list : CleansedLines → ℕ → ℕ → Bool
unfolding in_template characters
in_template_argument_list clean_lines linenum pos =
    in_template (characters clean_lines.elided) clean_lines linenum pos

-- `_MATCH_ASM`
abbrev match_asm : Text → Bool
match_asm = matches "^\\s*(?:asm|_asm|__asm|__asm__)(?:\\s+(volatile|__volatile__))?\\s*[{(]"

next_asm : Asm → ℤ → Bool → Text → Asm
unfolding matches
next_asm inside_asm open_parentheses changed line =
    if is_ℕ open_parentheses 0 then end_asm else inside_asm
next_asm block_asm open_parentheses changed line = block_asm
next_asm _ open_parentheses changed line =
    if changed && is_ℕ open_parentheses 1 && match_asm line then inside_asm else no_asm

-- The count of parentheses on the innermost block, and its assembly state.
pub count_parentheses : Text → List BlockInfo → List BlockInfo
unfolding next_asm count
count_parentheses line [] = []
count_parentheses line (b ∷ bs) =
    let opened = count (text "(") line in
    let closed = count (text ")") line in
    let open_parentheses = b.open_parentheses +ℤ sub_ℕ opened closed in
    record b {
      open_parentheses = open_parentheses;
      inline_asm = next_asm b.inline_asm open_parentheses (not (opened == closed)) line;
    }
    ∷ bs

-- What is left of the line, with the stack.
abbrev Rest : Type 0
Rest = Text × List BlockInfo

open_namespace : Text → ℕ → Text → Option ℕ → List BlockInfo → Rest
unfolding new_namespace
open_namespace name linenum line none stack = (line, new_namespace name linenum ∷ stack)
open_namespace name linenum line (some brace) stack =
    (drop (brace + 1) line, record (new_namespace name linenum) { seen_open_brace = true } ∷ stack)

-- The loop over the namespace declarations at the head of the line; each takes characters away.
namespace_loop : ℕ → ℕ → Text → List BlockInfo → Rest
unfolding open_namespace match_text group_text find
namespace_loop zero linenum line stack = (line, stack)
namespace_loop (suc fuel) linenum line stack =
    elim (match_text "^\\s*namespace\\b\\s*([:\\w]+)?(.*)$" line) [
      | none ↦ (line, stack)
      | some m ↦
          let (line', stack') =
            open_namespace (group_text m 1) linenum (group_text m 2)
              (find (text "{") (group_text m 2)) stack in
          namespace_loop fuel linenum line' stack'
    ]

abbrev outside_parentheses : List BlockInfo → Bool
outside_parentheses [] = true
outside_parentheses (b ∷ bs) = is_ℕ b.open_parentheses 0

class_declaration : CleansedLines → ℕ → Text → List BlockInfo → Option Found → Rest
unfolding in_template_argument_list new_class group_text
class_declaration clean_lines linenum line stack none = (line, stack)
class_declaration clean_lines linenum line stack (some m) =
    if outside_parentheses stack
      && not (in_template_argument_list clean_lines linenum (length (group_text m 1)))
    then (group_text m 4, new_class (group_text m 3) (group_text m 2) clean_lines linenum ∷ stack)
    else (line, stack)

begin_top : CleansedLines → ℕ → List BlockInfo → List BlockInfo
unfolding check_begin
begin_top clean_lines linenum [] = []
begin_top clean_lines linenum (b ∷ bs) =
    (if b.seen_open_brace then b else check_begin b clean_lines linenum) ∷ bs

access_report : ClassFields → ℕ → Found → List Report
unfolding matches group_text
access_report c linenum m =
    let indent = group_text m 1 in
    if not (length indent == c.class_indent + 1) && matches "^\\s*$" indent
    then report linenum "whitespace/indent" 3 (
        group_text m 2
        ++ group_text m 3
        ++ text ": should be indented +1 space inside "
        ++ (if c.is_struct then text "struct " else text "class ")
        ++ c.name)
      ∷ []
    else []

access_kind : Kind → ℕ → Option Found → Kind × List Report
unfolding access_report group_text
access_kind (class_of c) linenum (some m) =
    (class_of (record c { access = group_text m 2 }), access_report c linenum m)
access_kind k linenum m = (k, [])

-- The access control of the class on top, if a class is.
update_access : ℕ → Text → List BlockInfo → List BlockInfo × List Report
unfolding access_kind match_text
update_access linenum line [] = ([], [])
update_access linenum line (b ∷ bs) =
    let (k, reports) = access_kind b.kind linenum (
      match_text "^(.*)\\b(public|private|protected|signals)(\\s+(?:slots\\s*)?)?:(?:[^:]|$)"
        line) in
    (record b { kind = k } ∷ bs, reports)

abbrev pop_top : List BlockInfo → List BlockInfo
pop_top [] = []
pop_top (b ∷ bs) = bs

pub open_block : ℕ → Text → List BlockInfo → List BlockInfo
unfolding new_block new_extern_c
open_block linenum line stack =
    if matches "^extern\\s*\"[^\"]*\"\\s*\\{" line
    then new_extern_c linenum ∷ stack
    else (if match_asm line
        then record (new_block linenum) { inline_asm = block_asm }
        else new_block linenum)
      ∷ stack

pub mark_seen : List BlockInfo → List BlockInfo
mark_seen [] = []
mark_seen (b ∷ bs) = record b { seen_open_brace = true } ∷ bs

pub close_block : CleansedLines → ℕ → List BlockInfo → List BlockInfo × List Report
close_block clean_lines linenum [] = ([], [])
close_block clean_lines linenum (b ∷ bs) = (bs, check_end b clean_lines linenum)

-- One token of the last loop: `{`, `;`, `)` or `}`; `line` is the line at the token's round.
pub token_step : CleansedLines → ℕ → Text → ℕ → List BlockInfo → List BlockInfo × List Report
unfolding open_block mark_seen close_block seen_open_brace
token_step clean_lines linenum line token stack =
    if token == b'{'
    then (if seen_open_brace stack then open_block linenum line stack else mark_seen stack, [])
    else if token == b';' || token == b')'
    then (if seen_open_brace stack then stack else pop_top stack, [])
    else close_block clean_lines linenum stack

-- The last loop; each round takes a token away from the line.
token_loop : ℕ → CleansedLines → ℕ → Text → List BlockInfo → List BlockInfo × List Report
unfolding token_step match_text group_text
token_loop zero clean_lines linenum line stack = (stack, [])
token_loop (suc fuel) clean_lines linenum line stack =
    elim (match_text "^[^{;)}]*([{;)}])(.*)$" line) [
      | none ↦ (stack, [])
      | some m ↦
          let (stack', reports) =
            token_step clean_lines linenum line (head_or_zero (group_text m 1)) stack in
          let (last, later) = token_loop fuel clean_lines linenum (group_text m 2) stack' in
          (last, reports ++ later)
    ]

pub update : NestingState → CleansedLines → ℕ → NestingState × List Report
unfolding update_preprocessor count_parentheses namespace_loop class_declaration begin_top
    update_access token_loop match_text
update self clean_lines linenum =
    let line = get_or clean_lines.elided linenum [] in
    let (stack₁, pp) = update_preprocessor line (self.stack, self.pp_stack) in
    let stack₂ = count_parentheses line stack₁ in
    let (line₁, stack₃) = namespace_loop (suc (length line)) linenum line stack₂ in
    let (line₂, stack₄) = class_declaration clean_lines linenum line₁ stack₃ (
      match_text
        "^(\\s*(?:template\\s*<[\\w\\s<>,:=]*>\\s*)?(class|struct)\\s+(?:[A-Z_]+\\s+)*(\\w+(?:::\\w+)*))(.*)$"
        line₁) in
    let (stack₅, reports) = update_access linenum line₂ (begin_top clean_lines linenum stack₄) in
    let (stack₆, later) = token_loop (suc (length line₂)) clean_lines linenum line₂ stack₅ in
    (
      record { stack = stack₆; previous_stack_top = top_of self.stack; pp_stack = pp },
      reports ++ later,
    )

-- The innermost class, and the block that it is.
unfoldable pub innermost_class : List BlockInfo → Option (BlockInfo × ClassFields)
innermost_class [] = none
innermost_class (b ∷ bs) = elim b.kind [ class_of c ↦ some (b, c) | _ ↦ innermost_class bs ]

incomplete : BlockInfo → List Report
incomplete b = elim b.kind [
  | class_of c ↦
      report b.starting_linenum "build/class" 5
        (text "Failed to find complete declaration of class " ++ c.name)
      ∷ []
  | namespace name ↦
      report b.starting_linenum "build/namespaces" 5
        (text "Failed to find complete declaration of namespace " ++ name)
      ∷ []
  | _ ↦ []
]

-- The loop runs from the bottom of the stack.
pub check_completed_blocks : List BlockInfo → List Report
unfolding incomplete
check_completed_blocks [] = []
check_completed_blocks (b ∷ bs) = check_completed_blocks bs ++ incomplete b
