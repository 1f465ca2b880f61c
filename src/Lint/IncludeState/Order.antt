-- ===== src/Lint/IncludeState/Order.antt =====
-- The order of sections, for one header and for a whole run of headers.
use netproject_c.Prelude.{
  ◌⊎◌, inl, inr, ℕ, ◌≤◌, ◌+◌, Bool, true, false, ◌&&◌, List, [], ◌∷◌, Text, leb, if◌then◌else◌, ◌≡◌,
  ◌≢◌, ◌↔◌, refl, arith, Bool-cases,
}
use netproject_c.Lint.IncludeState.{
  HeaderType, c_sys_header, cpp_sys_header, likely_my_header, possible_my_header, IncludeState,
  check_next_include_order, next_section, reset_section, other_h_section,
}

-- The caller reports a message only if it is not empty.
abbrev add_message : Text → List Text → List Text
add_message [] ms = ms
add_message (c ∷ m) ms = (c ∷ m) ∷ ms

-- The run over the headers of one block: the state at the end, and the messages.
pub check_all : IncludeState → List HeaderType → IncludeState × List Text
check_all self [] = (self, [])
check_all self (t ∷ ts) =
    let (self', m) = check_next_include_order self t in
    let (last, ms) = check_all self' ts in (last, add_message m ms)

-- An independent description of a good order: headers of the file's own first, then C, then C++,
-- then all else, where an own header that comes late counts as other.
abbrev pub is_own : HeaderType → Bool
is_own likely_my_header = true
is_own possible_my_header = true
is_own _ = false

abbrev pub rank : HeaderType → ℕ
rank c_sys_header = 0
rank cpp_sys_header = 1
rank _ = 2

pub drop_own : List HeaderType → List HeaderType
drop_own [] = []
drop_own (t ∷ ts) = let rest = drop_own ts in if is_own t then rest else t ∷ ts

pub all_from : ℕ → List HeaderType → Bool
all_from low [] = true
all_from low (t ∷ ts) = leb low (rank t) && all_from (rank t) ts

pub is_well_ordered : List HeaderType → Bool
unfolding all_from drop_own
is_well_ordered ts = all_from 0 (drop_own ts)

-- One call, once the section is past the file's own headers.
late_step :
    (self : IncludeState) (t : HeaderType) (low : ℕ)
    → self.section ≡ low + 2
    → low ≤ 2
    → (((check_next_include_order self t).1 ≡ [])
        × (leb low (rank t) ≡ true)
        × ((check_next_include_order self t).0.section ≡ rank t + 2))
      ⊎ (((check_next_include_order self t).1 ≢ []) × (leb low (rank t) ≡ false))
unfolding check_next_include_order next_section
late_step self c_sys_header low e h = ground arith
late_step self cpp_sys_header low e h = ground arith
late_step self t low e h = ground arith

add_message-nil : (m : Text) (ms : List Text) → m ≢ [] → add_message m ms ≢ []
add_message-nil [] ms h = absurd (h refl)
add_message-nil (c ∷ m) ms h = λ e. cc

rank-le : (t : HeaderType) → rank t ≤ 2
rank-le c_sys_header = omega arith
rank-le cpp_sys_header = omega arith
rank-le t = omega arith

check_all_late :
    (ts : List HeaderType) (self : IncludeState) (low : ℕ)
    → self.section ≡ low + 2
    → low ≤ 2
    → ((check_all self ts).1 ≡ []) ↔ (all_from low ts ≡ true)
unfolding check_all all_from
check_all_late [] self low e h = (λ _. refl, λ _. refl)
check_all_late (t ∷ ts) self low e h = elim (late_step self t low e h) [
  | inl (clean, fits, moved) ↦
      rw (clean, fits)
        (check_all_late ts (check_next_include_order self t).0 (rank t) moved (rank-le t))
  | inr (message, late) ↦
      rw late (λ none_left. absurd (add_message-nil _ _ message none_left), λ f. cc)
]

-- One call while the section is still that of the file's own headers, or none.
early_step :
    (self : IncludeState) (t : HeaderType)
    → self.section ≤ 1
    → ((check_next_include_order self t).1 ≡ [])
      × ((check_next_include_order self t).0.section ≡ (if is_own t then 1 else rank t + 2))
unfolding check_next_include_order next_section
early_step self c_sys_header h = ground arith
early_step self cpp_sys_header h = ground arith
early_step self t h = ground arith

zero-le-rank : (t : HeaderType) → leb 0 (rank t) ≡ true
zero-le-rank c_sys_header = refl
zero-le-rank cpp_sys_header = refl
zero-le-rank t = refl

check_all_early :
    (ts : List HeaderType) (self : IncludeState)
    → self.section ≤ 1
    → ((check_all self ts).1 ≡ []) ↔ (all_from 0 (drop_own ts) ≡ true)
unfolding check_all all_from drop_own
check_all_early [] self h = (λ _. refl, λ _. refl)
check_all_early (t ∷ ts) self h =
    let step = early_step self t h in
    let self' = (check_next_include_order self t).0 in
    elim (Bool-cases (is_own t)) [
      | inl own ↦ rw (step.0, own) (check_all_early ts self' (ground arith))
      | inr other ↦
          rw (step.0, other, zero-le-rank t)
            (check_all_late ts self' (rank t) (ground arith) (rank-le t))
    ]

-- A block of headers that starts with a reset section gets no message exactly when, past the
-- file's own headers at its head, its C headers come before its C++ headers and both before all
-- others. An own header behind that head counts as one of the others: it may stand before or after
-- them, but not before a C or C++ header.
pub check_all-is_well_ordered :
    (self : IncludeState) (directive : Text) (ts : List HeaderType)
    → ((check_all (reset_section self directive) ts).1 ≡ []) ↔ (is_well_ordered ts ≡ true)
unfolding is_well_ordered reset_section
check_all-is_well_ordered self directive ts =
    check_all_early ts (reset_section self directive) (omega arith)

-- From a section that is not past the last one, a call never moves the section back nor past the last
-- one, keeps the list of includes, and if it returns a message the section stays where it was and the
-- last header is forgotten; the last header is forgotten too whenever the section moves.
pub check_next_include_order_lem :
    (self : IncludeState) (t : HeaderType)
    → self.section ≤ other_h_section
    → (self.section ≤ (check_next_include_order self t).0.section)
      × ((check_next_include_order self t).0.section ≤ other_h_section)
      × ((check_next_include_order self t).0.include_list ≡ self.include_list)
      × ((check_next_include_order self t).1 ≢ []
          → ((check_next_include_order self t).0.section ≡ self.section)
            × ((check_next_include_order self t).0.last_header ≡ []))
      × ((check_next_include_order self t).0.section ≢ self.section
          → (check_next_include_order self t).0.last_header ≡ [])
unfolding check_next_include_order next_section
check_next_include_order_lem self c_sys_header h = ground arith
check_next_include_order_lem self cpp_sys_header h = ground arith
check_next_include_order_lem self t h = ground arith
