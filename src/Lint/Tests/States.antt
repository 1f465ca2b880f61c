-- ===== src/Lint/Tests/States.antt =====
-- Runs of `_CppLintState` and `_FunctionState`.
use native.Mathlib.Nat.{mul_assoc, pow-suc}
use netproject_c.Prelude.{
  ℕ, zero, suc, ◌*◌, ◌^◌, ◌≤◌, ◌<◌, List, [], ◌∷◌, Text, text, ◌≡◌, ◌≢◌, Bool, refl, arith, true,
  false, not, if◌then◌else◌, inl, inr, all, length, leb, ltb, ◌==◌, ==_iff, Bool-cases, subst, sym,
}
use netproject_c.Lint.State.{CppLintState, reset_error_counts}
use netproject_c.Lint.State.Counts.{
  count_of, total_of, increment_all, occurrences, counts_exact, counts_add_up,
}
use netproject_c.Lint.Patterns.{matches}
use netproject_c.Lint.FunctionState.{FunctionState, begin, check}
use netproject_c.Lint.FunctionState.Length.{counts, check-counts-begin}

abbrev state : CppLintState
state = record {
  verbose_level = 1;
  error_count = 2;
  filters = text "-build" ∷ [];
  filters_backup = [];
  counting = text "toplevel";
  errors_by_category = (text "build", 2) ∷ [];
  quiet = false;
  output_format = text "emacs";
  junit_failures = [];
}

abbrev categories : List Text
categories = text "whitespace/tab" ∷ text "build/include" ∷ text "whitespace/eol" ∷ []

counts_exact_example :
    (count_of
        (text "whitespace")
        (increment_all (reset_error_counts state) categories).errors_by_category
      ≡ occurrences state.counting (text "whitespace") categories)
    × ((increment_all (reset_error_counts state) categories).error_count ≡ length categories)
counts_exact_example = counts_exact state categories (text "whitespace")

counts_add_up_example :
    total_of (increment_all (reset_error_counts state) categories).errors_by_category
    ≡ (increment_all (reset_error_counts state) categories).error_count
counts_add_up_example = counts_add_up state categories (inl refl)

-- The largest `k` up to the first number for which `b * 2 ^ k ≤ n`, or 0.
log_from : ℕ → ℕ → ℕ → ℕ
log_from zero n b = 0
log_from (suc k) n b = let rest = log_from k n b in if leb (b * 2 ^ suc k) n then suc k else rest

log_level : ℕ → ℕ → ℕ
log_level n b = log_from n n b

pow_large : (b k : ℕ) → 0 < b → k < b * 2 ^ k
pow_large b zero h = omega arith
pow_large b (suc k) h =
    subst (λ p. suc k < b * p) (sym (pow-suc 2 k))
      (omega (arith, pow_large b k h, mul_assoc b (2 ^ k) 2))

leb_holds : (a n : ℕ) → a ≤ n → leb a n ≡ true
leb_holds a n h = ground arith

not_both : (t : Bool) → t ≡ true → t ≢ false
not_both t h = λ e. ground arith

too_large : (b n k m : ℕ) → k ≡ m → b * 2 ^ k ≤ n → leb (b * 2 ^ m) n ≢ false
too_large b n k m e h l =
    not_both (leb (b * 2 ^ m) n) (leb_holds (b * 2 ^ m) n (subst (λ j. b * 2 ^ j ≤ n) e h)) l

below_last : (k fuel : ℕ) → k ≤ suc fuel → (k == suc fuel) ≡ false → k ≤ fuel
below_last k fuel h e = ground arith

log_from-le : (fuel n b k : ℕ) → k ≤ fuel → b * 2 ^ k ≤ n → k ≤ log_from fuel n b
unfolding log_from
log_from-le zero n b k h e = h
log_from-le (suc fuel) n b k h e = elim (Bool-cases (leb (b * 2 ^ suc fuel) n)) [
  | inl fits ↦ rw fits h
  | inr over ↦ elim (Bool-cases (k == suc fuel)) [
    | inl last ↦ absurd (too_large b n k (suc fuel) ((==_iff k (suc fuel)).0 last) e over)
    | inr other ↦ rw over (log_from-le fuel n b k (below_last k fuel h other) e)
  ]
]

log_level_exact : (n b k : ℕ) → 0 < b → b * 2 ^ k ≤ n → k ≤ log_level n b
unfolding log_level
log_level_exact n b k h e = log_from-le n n b k (omega (arith, pow_large b k h)) e

abbrev function : FunctionState
function = record { in_a_function = false; lines_in_function = 7; current_function = [] }

check-counts-begin_example :
    (length (check log_level 1 (counts 600 (begin function (text "Run()"))) 12) ≡ (
      if ltb ((if matches "T(EST|est)" (text "Run()") then 400 else 250) * 2 ^ 1) 600
      then 1
      else 0))
    × (all
          (λ r. not (ltb r.confidence 1))
          (check log_level 1 (counts 600 (begin function (text "Run()"))) 12)
        ≡ true)
check-counts-begin_example =
    check-counts-begin log_level log_level_exact 1 function (text "Run()") 600 12 (omega arith)
