-- ===== src/Lint/State/Counts.antt =====
-- The error counts agree with the errors that were counted.
use netproject_c.Prelude.{
  ℕ, ◌+◌, Option, none, some, List, [], ◌∷◌, Text, text, ◌≡◌, ◌≢◌, refl, arith, ◌∙◌, sym, ap,
  if◌then◌else◌, same, same_iff, inl, inr, length, ◌⊎◌, Option-cases,
}
use netproject_c.Lint.State.{
  CppLintState, reset_error_counts, increment_error_count, counted_as, bump, bump_key,
}

-- `d.get(key, 0)`
pub count_of : Text → List (Text × ℕ) → ℕ
count_of key [] = 0
count_of key ((k, n) ∷ d) = if same k key then n else count_of key d

-- `sum(d.values())`
pub total_of : List (Text × ℕ) → ℕ
total_of [] = 0
total_of ((k, n) ∷ d) = n + total_of d

pub increment_all : CppLintState → List Text → CppLintState
increment_all s [] = s
increment_all s (c ∷ cs) = increment_all (increment_error_count s c) cs

-- How many of the categories go under the key.
abbrev goes_under : Text → Option Text → ℕ
goes_under key none = 0
goes_under key (some k) = if same k key then 1 else 0

pub occurrences : Text → Text → List Text → ℕ
occurrences counting key [] = 0
occurrences counting key (c ∷ cs) =
    goes_under key (counted_as counting c) + occurrences counting key cs

count_of-bump :
    (key k : Text) (d : List (Text × ℕ))
    → count_of key (bump k d) ≡ count_of key d + (if same k key then 1 else 0)
unfolding count_of bump
count_of-bump key k [] = ground arith
count_of-bump key k ((j, n) ∷ d) =
    ground (arith, count_of-bump key k d, same_iff j k, same_iff j key, same_iff k key)

count_of-bump_key :
    (key : Text) (o : Option Text) (d : List (Text × ℕ))
    → count_of key (bump_key o d) ≡ count_of key d + goes_under key o
count_of-bump_key key none d = omega arith
count_of-bump_key key (some k) d = count_of-bump key k d

count_of-increment_all :
    (key : Text) (cs : List Text) (s : CppLintState)
    → count_of key (increment_all s cs).errors_by_category
      ≡ count_of key s.errors_by_category + occurrences s.counting key cs
unfolding increment_all increment_error_count occurrences
count_of-increment_all key [] s = omega arith
count_of-increment_all key (c ∷ cs) s = omega (
  arith,
  count_of-increment_all key cs (increment_error_count s c),
  count_of-bump_key key (counted_as s.counting c) s.errors_by_category,
)

total_of-bump : (k : Text) (d : List (Text × ℕ)) → total_of (bump k d) ≡ total_of d + 1
unfolding total_of bump
total_of-bump k [] = refl
total_of-bump k ((j, n) ∷ d) = ground (arith, total_of-bump k d)

error_count-increment_all :
    (cs : List Text) (s : CppLintState)
    → (increment_all s cs).error_count ≡ s.error_count + length cs
unfolding increment_all increment_error_count
error_count-increment_all [] s = omega arith
error_count-increment_all (c ∷ cs) s =
    omega (arith, error_count-increment_all cs (increment_error_count s c))

-- After a reset, the counter of each key is the number of the errors counted since whose category
-- goes under that key, and the total is the number of them all.
pub counts_exact :
    (s : CppLintState) (cs : List Text) (key : Text)
    → (count_of key (increment_all (reset_error_counts s) cs).errors_by_category
        ≡ occurrences s.counting key cs)
      × ((increment_all (reset_error_counts s) cs).error_count ≡ length cs)
unfolding reset_error_counts count_of
counts_exact s cs key = (
  omega (arith, count_of-increment_all key cs (reset_error_counts s)),
  omega (arith, error_count-increment_all cs (reset_error_counts s)),
)

total_of-increment_all :
    (cs : List Text) (s : CppLintState)
    → ((c : Text) → counted_as s.counting c ≢ none)
    → total_of (increment_all s cs).errors_by_category ≡ total_of s.errors_by_category + length cs
unfolding increment_all increment_error_count
total_of-increment_all [] s h = omega arith
total_of-increment_all (c ∷ cs) s h = elim (Option-cases (counted_as s.counting c)) [
  | inl e ↦ absurd (h c e)
  | inr (k, e) ↦ omega (
    arith,
    total_of-increment_all cs (increment_error_count s c) h,
    ap (λ o. total_of (bump_key o s.errors_by_category)) e,
    total_of-bump k s.errors_by_category,
  )
]

counted_as-ne-none :
    {counting : Text}
    → ((counting ≡ text "toplevel") ⊎ (counting ≡ text "detailed"))
    → (c : Text) → counted_as counting c ≢ none
unfolding counted_as
counted_as-ne-none (inl e) c = rw e (λ p. cc)
counted_as-ne-none (inr e) c = rw e (λ p. cc)

-- Where the categories are counted, by their first part or in detail, the counters add up to the
-- total.
pub counts_add_up :
    (s : CppLintState) (cs : List Text)
    → ((s.counting ≡ text "toplevel") ⊎ (s.counting ≡ text "detailed"))
    → total_of (increment_all (reset_error_counts s) cs).errors_by_category
      ≡ (increment_all (reset_error_counts s) cs).error_count
unfolding reset_error_counts total_of
counts_add_up s cs h =
    total_of-increment_all cs (reset_error_counts s) (counted_as-ne-none h)
    ∙ sym (error_count-increment_all cs (reset_error_counts s))
