-- ===== src/Lint/Tests/Headers.antt =====
-- Runs of `_IncludeState`.
use netproject_c.Prelude.{◌≤◌, List, [], ◌∷◌, text, ◌≡◌, ◌≢◌, ◌↔◌, refl, arith, true, same, one_of}
use netproject_c.Lint.IncludeState.{
  IncludeState, HeaderType, likely_my_header, c_sys_header, cpp_sys_header, other_header,
  reset_section, check_next_include_order, find_header, other_h_section,
}
use netproject_c.Lint.IncludeState.Order.{
  check_all, is_well_ordered, check_all-is_well_ordered, check_next_include_order_lem,
}
use netproject_c.Lint.IncludeState.Headers.{include_all, find_header-else}

abbrev state : IncludeState
state = record { include_list = ((text "a.h", 3) ∷ []) ∷ []; section = 3; last_header = text "a.h" }

abbrev block : List HeaderType
block = likely_my_header ∷ c_sys_header ∷ cpp_sys_header ∷ c_sys_header ∷ other_header ∷ []

check_all-is_well_ordered_example :
    ((check_all (reset_section state (text "if")) block).1 ≡ []) ↔ (is_well_ordered block ≡ true)
check_all-is_well_ordered_example = check_all-is_well_ordered state (text "if") block

check_next_include_order_example :
    (3 ≤ (check_next_include_order state c_sys_header).0.section)
    × ((check_next_include_order state c_sys_header).0.section ≤ other_h_section)
    × ((check_next_include_order state c_sys_header).0.include_list ≡ state.include_list)
    × ((check_next_include_order state c_sys_header).1 ≢ []
        → ((check_next_include_order state c_sys_header).0.section ≡ 3)
          × ((check_next_include_order state c_sys_header).0.last_header ≡ []))
    × ((check_next_include_order state c_sys_header).0.section ≢ 3
        → (check_next_include_order state c_sys_header).0.last_header ≡ [])
check_next_include_order_example = check_next_include_order_lem state c_sys_header (omega arith)

find_header-else_example :
    find_header
      (reset_section
        (include_all (reset_section state (text "ifdef")) ((text "b.h", 4) ∷ []))
        (text "else"))
      (text "b.h")
    ≡ find_header state (text "b.h")
unfolding one_of same
find_header-else_example =
    find_header-else state (text "ifdef") (text "else") ((text "b.h", 4) ∷ []) (text "b.h") refl
      refl refl
