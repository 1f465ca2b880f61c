-- ===== src/Lint/Checks/Namespaces.antt =====
-- cpplint.py, `IsBlockInNameSpace`, `ShouldCheckNamespaceIndentation` and
-- `CheckItemIndentationInNamespace`. The stack of blocks has its top first.
use netproject_c.Prelude.{
  ℕ, Bool, true, false, not, ◌&&◌, ◌||◌, List, [], ◌∷◌, Text, text, if◌then◌else◌, get_or,
}
use netproject_c.Lint.Patterns.{matches}
use netproject_c.Lint.Report.{Report, report, when}
use netproject_c.Lint.Nesting.Blocks.{BlockInfo, namespace}
use netproject_c.Lint.Checks.Threading.{is_forward_class_declaration, is_macro_definition}

is_namespace : BlockInfo → Bool
is_namespace b = elim b.kind [ namespace name ↦ true | _ ↦ false ]

is_block_in_name_space : List BlockInfo → Bool → Bool
unfolding is_namespace
is_block_in_name_space [] is_forward_declaration = false
is_block_in_name_space (b ∷ []) is_forward_declaration = is_forward_declaration && is_namespace b
is_block_in_name_space (b ∷ c ∷ bs) is_forward_declaration =
    if is_forward_declaration
    then is_namespace b
    else b.check_namespace_indentation && is_namespace c

should_check_namespace_indentation : List BlockInfo → Bool → List Text → ℕ → Bool
unfolding is_block_in_name_space
should_check_namespace_indentation stack is_namespace_indent_item raw_lines_no_comments linenum =
    let is_forward_declaration = is_forward_class_declaration raw_lines_no_comments linenum in
    if not (is_namespace_indent_item || is_forward_declaration)
    then false
    else if is_macro_definition raw_lines_no_comments linenum
    then false
    else is_block_in_name_space stack is_forward_declaration

check_item_indentation_in_namespace : List Text → ℕ → List Report
unfolding matches
check_item_indentation_in_namespace raw_lines_no_comments linenum =
    when (matches "^\\s+" (get_or raw_lines_no_comments linenum []))
      (report linenum "runtime/indentation_namespace" 4 (text "Do not indent within a namespace"))
