-- ===== src/Lint/State/Filters.antt =====
-- Filters: what may be added.
use netproject_c.Prelude.{
  Bool, true, ◌&&◌, none, List, [], ◌∷◌, ◌++◌, Text, ◌≡◌, ◌↔◌, refl, arith, all, split_char,
}
use netproject_c.Lint.State.{CppLintState, add_filters, clean_filters, first_unsigned, is_signed}

first_unsigned-none : (fs : List Text) → (first_unsigned fs ≡ none) ↔ (all is_signed fs ≡ true)
unfolding first_unsigned
first_unsigned-none [] = (λ _. refl, λ _. refl)
first_unsigned-none (f ∷ fs) = ground (arith, first_unsigned-none fs)

pub all-append : (p : Text → Bool) (xs ys : List Text) → all p (xs ++ ys) ≡ (all p xs && all p ys)
all-append p [] ys = refl
all-append p (x ∷ xs) ys = ground (arith, all-append p xs ys)

-- Adding filters raises no error exactly when the old filters and the new ones that are not blank all
-- begin with a sign.
pub add_filters-ok :
    (s : CppLintState) (filters : Text)
    → ((add_filters s filters).1 ≡ none) ↔ (
        (all is_signed s.filters && all is_signed (clean_filters (split_char b',' filters))) ≡ true)
unfolding add_filters
add_filters-ok s filters =
    rw (← all-append is_signed s.filters (clean_filters (split_char b',' filters)))
      (first_unsigned-none (s.filters ++ clean_filters (split_char b',' filters)))

-- The filters after an addition, refused or not.
pub add_filters-filters :
    (s : CppLintState) (filters : Text)
    → (add_filters s filters).0
      ≡ record s { filters = s.filters ++ clean_filters (split_char b',' filters) }
unfolding add_filters
add_filters-filters s filters = refl
