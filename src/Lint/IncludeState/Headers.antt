-- ===== src/Lint/IncludeState/Headers.antt =====
-- Which includes `FindHeader` knows of, across preprocessor directives.
use netproject_c.Prelude.{
  ℕ, Option, ◌==◌, Bool, true, false, none, some, List, [], ◌∷◌, ◌++◌, Text, text, ◌≡◌, ◌≢◌, refl,
  arith, same, one_of, if◌then◌else◌, ap, Bool-cases, inl, inr,
}
use netproject_c.Lint.IncludeState.{
  Include, IncludeState, find_in, find_in_sections, first_of_two, find_header, clear_last,
  append_last, reset_section, HeaderType, next_section, check_next_include_order, set_last_header,
  out_of_order,
}

-- The state after a line `#include header` that is not a duplicate.
abbrev pub included : IncludeState → Text → ℕ → IncludeState
included s header line = record s { include_list = append_last (header, line) s.include_list }

find_in-append :
    (h header : Text) (line : ℕ) (fs : List Include)
    → find_in h (fs ++ (header, line) ∷ [])
      ≡ first_of_two (find_in h fs) (if same header h then some line else none)
unfolding find_in
find_in-append h header line [] = ground arith
find_in-append h header line (f ∷ fs) = ground (arith, find_in-append h header line fs)

find_in_sections-append_last :
    (h header : Text) (line : ℕ) (ss : List (List Include))
    → ss ≢ []
    → find_in_sections h (append_last (header, line) ss)
      ≡ first_of_two (find_in_sections h ss) (if same header h then some line else none)
unfolding find_in_sections append_last
find_in_sections-append_last h header line [] ne = absurd (ne refl)
find_in_sections-append_last h header line (s ∷ []) ne =
    ground (arith, find_in-append h header line s)
find_in_sections-append_last h header line (s ∷ t ∷ ss) ne =
    ground (arith, find_in_sections-append_last h header line (t ∷ ss))

-- After a header is recorded, in a state with one list of includes at least, a search finds what it
-- found before, and else the new line if it is for that header.
pub find_header-included :
    (s : IncludeState) (header h : Text) (line : ℕ)
    → s.include_list ≢ []
    → find_header (included s header line) h
      ≡ first_of_two (find_header s h) (if same header h then some line else none)
unfolding find_header
find_header-included s header h line ne =
    find_in_sections-append_last h header line s.include_list ne

include_list-checked :
    (state : IncludeState) (ty : HeaderType)
    → (check_next_include_order state ty).0.include_list ≡ state.include_list
unfolding check_next_include_order
include_list-checked state ty = by_section (next_section state.section ty)
  where
    by_section :
        (o : Option ℕ)
        → (elim o as (λ _. IncludeState × Text) [
          | none ↦ (record state { last_header = [] }, out_of_order state ty)
          | some s ↦
              (let moved = record state { section = s } in
                (if state.section == s then moved else record moved { last_header = [] }, []))
        ]).0.include_list
          ≡ state.include_list
    by_section none = refl
    by_section (some s) = elim (Bool-cases (state.section == s)) [
      | inl k ↦ rw k refl
      | inr k ↦ rw k refl
    ]

-- The order check and the last header leave the headers alone.
pub include_list-ordered :
    (state : IncludeState) (ty : HeaderType) (header : Text)
    → (set_last_header (check_next_include_order state ty).0 header).include_list
      ≡ state.include_list
unfolding set_last_header
include_list-ordered state ty header = include_list-checked state ty

pub find_header-include_list :
    (s t : IncludeState) (h : Text)
    → s.include_list ≡ t.include_list
    → find_header s h ≡ find_header t h
unfolding find_header
find_header-include_list s t h e = ap (find_in_sections h) e

find_in_sections-append_nil :
    (h : Text) (ss : List (List Include))
    → find_in_sections h (ss ++ [] ∷ []) ≡ find_in_sections h ss
unfolding find_in_sections find_in
find_in_sections-append_nil h [] = refl
find_in_sections-append_nil h (s ∷ ss) = ground (arith, find_in_sections-append_nil h ss)

clear_last-append :
    (ss : List (List Include)) (s : List Include) → clear_last (ss ++ s ∷ []) ≡ ss ++ [] ∷ []
unfolding clear_last
clear_last-append [] s = refl
clear_last-append (t ∷ []) s = refl
clear_last-append (t ∷ u ∷ ss) s = ground (arith, clear_last-append (u ∷ ss) s)

append_last-append :
    (f : Include) (ss : List (List Include)) (s : List Include)
    → append_last f (ss ++ s ∷ []) ≡ ss ++ (s ++ f ∷ []) ∷ []
unfolding append_last
append_last-append f [] s = refl
append_last-append f (t ∷ []) s = refl
append_last-append f (t ∷ u ∷ ss) s = ground (arith, append_last-append f (u ∷ ss) s)

-- Any number of headers, recorded in turn.
pub include_all : IncludeState → List Include → IncludeState
include_all s [] = s
include_all s (f ∷ fs) = include_all (included s f.0 f.1) fs

include_all-append :
    (fs : List Include) (s : IncludeState) (ss : List (List Include)) (b : List Include)
    → s.include_list ≡ ss ++ b ∷ []
    → (c : List Include) × ((include_all s fs).include_list ≡ ss ++ c ∷ [])
unfolding include_all
include_all-append [] s ss b e = (b, e)
include_all-append (f ∷ fs) s ss b e =
    include_all-append fs (included s f.0 f.1) ss (b ++ f ∷ []) (rw e (append_last-append f ss b))

abbrev pub opens : Text → Bool
opens d = one_of d (text "if" ∷ text "ifdef" ∷ text "ifndef" ∷ [])

abbrev pub turns : Text → Bool
turns d = one_of d (text "else" ∷ text "elif" ∷ [])

reset-opens :
    (s : IncludeState) (d : Text)
    → opens d ≡ true
    → (reset_section s d).include_list ≡ s.include_list ++ [] ∷ []
unfolding reset_section
reset-opens s d h = rw h

reset-turns :
    (s : IncludeState) (d : Text)
    → opens d ≡ false
    → turns d ≡ true
    → (reset_section s d).include_list ≡ clear_last s.include_list
unfolding reset_section
reset-turns s d h k = rw (h, k)

-- The headers included in the first branch of a conditional, where that branch has no conditional of
-- its own, are forgotten at its `#else` or `#elif`, whatever they are: what is found then is what was
-- found before the conditional.
pub find_header-else :
    (s : IncludeState) (open_it turn : Text) (fs : List Include) (h : Text)
    → opens open_it ≡ true
    → opens turn ≡ false
    → turns turn ≡ true
    → find_header (reset_section (include_all (reset_section s open_it) fs) turn) h
      ≡ find_header s h
unfolding find_header
find_header-else s open_it turn fs h o t u =
    let inside = include_all (reset_section s open_it) fs in
    let (c, e) =
      include_all-append fs (reset_section s open_it) s.include_list [] (reset-opens s open_it o) in
    rw (reset-turns inside turn t u, e, clear_last-append s.include_list c)
      (find_in_sections-append_nil h s.include_list)
