-- ===== src/Lint/Tests/Lines.antt =====
-- Runs of the functions on the lines of a file.
use netproject_c.Prelude.{
  ◌+◌, some, List, [], ◌∷◌, Text, text, ◌≡◌, ◌↔◌, refl, true, length, get_or,
}
use netproject_c.Lint.Cleansed.{CleansedLines, init, init-SameLength}
use netproject_c.Lint.Expression.{
  find_end_of_expression_in_line, close_expression, reverse_close_expression, end_scan, end_step,
  pop_while, end_bracket,
}
use netproject_c.Lint.Expression.Bounds.{ClosedBy, find_end_of_expression_in_line-ClosedBy}
use netproject_c.Lint.Expression.Balanced.{
  Balanced, nothing, plain, wrapped, close_expression-Balanced,
}
use netproject_c.Lint.Expression.Mirror.{reverse_close_expression-Balanced}
use netproject_c.Lint.Checks.{check_for_newline_at_eof}
use netproject_c.Lint.Checks.Endings.{
  read_lines, with_markers, is_complete, check_for_newline_at_eof-is_complete,
}
use netproject_c.Lint.Checks.Sections.{
  Previous, get_previous_non_blank_line, get_previous_non_blank_line-Previous,
}

abbrev commented : List Text
commented = text "int a;" ∷ text "/* one" ∷ text "   two */" ∷ text "int b;" ∷ []

init-SameLength_example :
    (length (init commented).elided ≡ (init commented).num_lines)
    × (length (init commented).lines ≡ (init commented).num_lines)
    × (length (init commented).lines_without_raw_strings ≡ (init commented).num_lines)
    × (length (init commented).raw_lines ≡ (init commented).num_lines)
    × ((init commented).num_lines ≡ length commented)
init-SameLength_example = init-SameLength commented

find_end_of_expression_in_line_example : ClosedBy b'(' 2 (text "a[i], b) + c") 10
unfolding find_end_of_expression_in_line end_scan end_step pop_while end_bracket
find_end_of_expression_in_line_example =
    find_end_of_expression_in_line-ClosedBy (text "f(a[i], b) + c") 1 b'(' 10 (text "a[i], b) + c")
      refl refl refl

abbrev elided : List Text
elided = text "int n =" ∷ text "  f(a[i]<b;c>0);" ∷ text "  f(x->a[i<j>>2];);" ∷ []

with_angles : Balanced (text "a[i]<b;c>0")
with_angles = plain b'a' refl (
    wrapped b'[' b']' refl (plain b'i' refl (nothing)) (
      plain b'<' refl (
        plain b'b' refl
          (plain b';' refl (plain b'c' refl (plain b'>' refl (plain b'0' refl (nothing))))))))

with_shift : Balanced (text "x->a[i<j>>2];")
with_shift = plain b'x' refl (
    plain b'-' refl (
      plain b'>' refl (
        plain b'a' refl (
          wrapped b'[' b']' refl
            (plain b'i' refl (
              plain b'<' refl
                (plain b'j' refl (plain b'>' refl (plain b'>' refl (plain b'2' refl (nothing)))))))
            (plain b';' refl (nothing))))))

close_expression-Balanced_example : close_expression elided 1 3 ≡ record {
  line = get_or elided 1 [];
  linenum = 1;
  pos = some (3 + length (text "a[i]<b;c>0") + 2);
}
close_expression-Balanced_example =
    close_expression-Balanced elided 1 3 b'(' b')' (text "a[i]<b;c>0") (text ";") refl refl
      with_angles

reverse_close_expression-Balanced_example :
    reverse_close_expression elided 2 (3 + length (text "x->a[i<j>>2];") + 1)
    ≡ record { line = get_or elided 2 []; linenum = 2; pos = some 3 }
reverse_close_expression-Balanced_example =
    reverse_close_expression-Balanced elided 2 3 b'(' b')' (text "x->a[i<j>>2];") (text ";") refl
      refl refl with_shift

abbrev clean_lines : CleansedLines
clean_lines = record {
  elided = text "a;" ∷ text "  " ∷ [] ∷ text "b;" ∷ [];
  lines = [];
  raw_lines = [];
  num_lines = 4;
  lines_without_raw_strings = [];
}

get_previous_non_blank_line_example :
    Previous clean_lines.elided 3 (get_previous_non_blank_line clean_lines 3)
get_previous_non_blank_line_example = get_previous_non_blank_line-Previous clean_lines 3

check_for_newline_at_eof_example :
    (check_for_newline_at_eof (with_markers (read_lines (text "int a;\r\nint b;")).lines) ≡ [])
    ↔ (is_complete (text "int a;\r\nint b;") ≡ true)
check_for_newline_at_eof_example = check_for_newline_at_eof-is_complete (text "int a;\r\nint b;")
