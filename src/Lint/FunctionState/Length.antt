-- ===== src/Lint/FunctionState/Length.antt =====
-- The counter of lines, and the confidence of a report about a long function.
use netproject_c.Prelude.{
  ℕ, zero, suc, ◌+◌, ◌*◌, ◌^◌, ◌≤◌, ◌<◌, true, Text, ◌≡◌, refl, arith, ltb, if◌then◌else◌, all, not,
  ◌&&◌, length, Bool-cases, inl, inr, ap, ◌∙◌,
}
use netproject_c.Lint.Patterns.{matches}
use netproject_c.Lint.FunctionState.{FunctionState, begin, count, check, base_trigger}

pub counts : ℕ → FunctionState → FunctionState
counts zero s = s
counts (suc n) s = counts n (count s)

counts-inside :
    (n : ℕ) (s : FunctionState)
    → s.in_a_function ≡ true
    → counts n s ≡ record s { lines_in_function = s.lines_in_function + n }
unfolding counts count
counts-inside zero s h = ground arith
counts-inside (suc n) s h = ground (arith, counts-inside n (count s))

capped :
    (level verbose : ℕ)
    → verbose ≤ 5
    → verbose ≤ level
    → (not (ltb (if ltb 5 level then 5 else level) verbose) && true) ≡ true
capped level verbose h k = ground arith

below : (a b : ℕ) → ltb a b ≡ true → a ≤ b
below a b h = ground arith

abbrev counted : ℕ → Text → FunctionState
counted n name = record { in_a_function = true; lines_in_function = n; current_function = name }

counts-begin : (n : ℕ) (s : FunctionState) (name : Text) → counts n (begin s name) ≡ counted n name
unfolding begin
counts-begin n s name = counts-inside n (begin s name) refl ∙ ap (λ m. counted m name) (omega arith)

base_trigger-pos : (s : FunctionState) → 0 < base_trigger s
unfolding base_trigger
base_trigger-pos s = elim (Bool-cases (matches "T(EST|est)" s.current_function)) [
  | inl e ↦ rw e (omega arith)
  | inr e ↦ rw e (omega arith)
]

check_inside :
    (log_level : ℕ → ℕ → ℕ)
    → ((n b k : ℕ) → 0 < b → b * 2 ^ k ≤ n → k ≤ log_level n b)
    → (verbose : ℕ) (s : FunctionState) (linenum : ℕ) → verbose ≤ 5
    → s.in_a_function ≡ true
    → (length (check log_level verbose s linenum)
        ≡ (if ltb (base_trigger s * 2 ^ verbose) s.lines_in_function then 1 else 0))
      × (all (λ r. not (ltb r.confidence verbose)) (check log_level verbose s linenum) ≡ true)
unfolding check
check_inside log_level exact verbose s linenum h inside =
    elim (Bool-cases (ltb (base_trigger s * 2 ^ verbose) s.lines_in_function)) [
      | inl long ↦
          rw (inside, long)
            (
              refl,
              capped (log_level s.lines_in_function (base_trigger s)) verbose h (
                  exact s.lines_in_function (base_trigger s) verbose (base_trigger-pos s)
                    (below _ _ long)),
            )
      | inr short ↦ rw (inside, short) (refl, refl)
    ]

-- After a function has begun and `n` of its lines are counted, the check makes one report if `n` is
-- over 400, for a name that starts with Test or TEST, or 250, for another, times 2 to the power of
-- the verbosity, and none if it is not; and no report has a confidence under the verbosity: where
-- the logarithm is not rounded below the powers of two, and the verbosity is at most 5.
pub check-counts-begin :
    (log_level : ℕ → ℕ → ℕ)
    → ((n b k : ℕ) → 0 < b → b * 2 ^ k ≤ n → k ≤ log_level n b)
    → (verbose : ℕ) (s : FunctionState) (name : Text) (n linenum : ℕ) → verbose ≤ 5
    → (length (check log_level verbose (counts n (begin s name)) linenum)
        ≡ (if ltb ((if matches "T(EST|est)" name then 400 else 250) * 2 ^ verbose) n then 1 else 0))
      × (all
            (λ r. not (ltb r.confidence verbose))
            (check log_level verbose (counts n (begin s name)) linenum)
          ≡ true)
unfolding begin base_trigger
check-counts-begin log_level exact verbose s name n linenum h =
    rw (counts-begin n s name)
      (check_inside log_level exact verbose (counted n name) linenum h refl)
