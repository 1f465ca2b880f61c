-- ===== src/Tools/ClangTidy/Queue.antt =====
-- run_clang_tidy.py, the loop of `main` that fills the queue. Attempt number `t` to put a file ends in
-- time if `accepts t`; each round of the inner loop is one attempt, and the fuel counts the rounds.
use native.Mathlib.Nat.{mul-suc}
use netproject_c.Prelude.{
  ℕ, zero, suc, ◌+◌, ◌*◌, ◌<◌, ◌≤◌, Bool, true, false, not, ◌&&◌, Option, none, some, List, [], ◌∷◌,
  Text, text, if◌then◌else◌, any, all, join, ◌≡◌, refl, arith, Bool-cases, inl, inr, length, subst,
}
use netproject_c.Lint.Patterns.{search_pattern, is_found}

-- `file_name_re.search(name)`, for the patterns of the command line
pub selected : List Text → Text → Bool
unfolding search_pattern join
selected patterns name = is_found (search_pattern (join (text "|") patterns) name)

abbrev put_first : Text → Option (List Text) → Option (List Text)
put_first name none = none
put_first name (some names) = some (name ∷ names)

-- The files that are put, in their order; `none` when the rounds do not suffice.
pub fill_queue : (Text → Bool) → (ℕ → Bool) → ℕ → ℕ → List Text → Option (List Text)
fill_queue matches accepts fuel t [] = some []
fill_queue matches accepts zero t (name ∷ files) = none
fill_queue matches accepts (suc fuel) t (name ∷ files) =
    let again = fill_queue matches accepts fuel (t + 1) (name ∷ files) in
    let next = put_first name (fill_queue matches accepts fuel (t + 1) files) in
    if matches name && accepts t then next else again

abbrev none_put : Option (List Text)
none_put = none

same_branches : (b : Bool) → (if b then none_put else none_put) ≡ none_put
same_branches true = refl
same_branches false = refl

-- If some file does not match, the loop never ends: no number of rounds suffices.
pub fill_queue-unmatched :
    (matches : Text → Bool) (accepts : ℕ → Bool) (fuel t : ℕ) (files : List Text)
    → any (λ name. not (matches name)) files ≡ true
    → fill_queue matches accepts fuel t files ≡ none
unfolding fill_queue
fill_queue-unmatched matches accepts fuel t [] h = cc
fill_queue-unmatched matches accepts zero t (name ∷ files) h = refl
fill_queue-unmatched matches accepts (suc fuel) t (name ∷ files) h =
    elim (Bool-cases (matches name)) [
      | inl e ↦
          rw
            (
              fill_queue-unmatched matches accepts fuel (t + 1) (name ∷ files) h,
              fill_queue-unmatched matches accepts fuel (t + 1) files (rw e at h),
            )
            (same_branches (matches name && accepts t))
      | inr e ↦ rw (e, fill_queue-unmatched matches accepts fuel (t + 1) (name ∷ files) h) refl
    ]

-- `accepts` holds for one attempt at least of any `w` in a row.
abbrev pub Accepting : ℕ → (ℕ → Bool) → Type 0
Accepting w accepts = (t : ℕ) → (k : ℕ) × (k < w) × (accepts (t + k) ≡ true)

and_left : (a b : Bool) → (a && b) ≡ true → a ≡ true
and_left a b h = ground arith

and_right : (a b : Bool) → (a && b) ≡ true → b ≡ true
and_right a b h = ground arith

add_zero : (t : ℕ) → t + 0 ≡ t
add_zero t = omega arith

add_suc : (t k : ℕ) → t + suc k ≡ t + 1 + k
add_suc t k = omega arith

rounds : (w k n fuel : ℕ) → k < w → w * suc n ≤ fuel → suc k + w * n ≤ fuel
rounds w k n fuel h e = omega (arith, mul-suc w n)

fill_queue-first :
    (matches : Text → Bool) (accepts : ℕ → Bool) (name : Text) (files : List Text) (least : ℕ)
    → matches name ≡ true
    → ((t fuel : ℕ) → least ≤ fuel → fill_queue matches accepts fuel t files ≡ some files)
    → (k t fuel : ℕ) → suc k + least ≤ fuel
    → accepts (t + k) ≡ true
    → fill_queue matches accepts fuel t (name ∷ files) ≡ some (name ∷ files)
unfolding fill_queue
fill_queue-first matches accepts name files least m rest k t zero enough h = absurd (omega arith)
fill_queue-first matches accepts name files least m rest zero t (suc fuel) enough h =
    rw (m, subst (λ j. accepts j ≡ true) (add_zero t) h, rest (t + 1) fuel (omega arith)) refl
fill_queue-first matches accepts name files least m rest (suc k) t (suc fuel) enough h =
    elim (Bool-cases (accepts t)) [
      | inl e ↦ rw (m, e, rest (t + 1) fuel (omega arith)) refl
      | inr e ↦
          rw (m, e)
            (fill_queue-first matches accepts name files least m rest k (t + 1) fuel (omega arith)
              (subst (λ j. accepts j ≡ true) (add_suc t k) h))
    ]

-- If all files match, and one of any `w` attempts in a row is accepted, then `w` rounds for each file
-- are enough, and all files are put, in their order.
pub fill_queue-all :
    (matches : Text → Bool) (accepts : ℕ → Bool) (w : ℕ)
    → Accepting w accepts
    → (files : List Text) → all matches files ≡ true
    → (t fuel : ℕ) → w * length files ≤ fuel
    → fill_queue matches accepts fuel t files ≡ some files
unfolding fill_queue
fill_queue-all matches accepts w ready [] h t fuel enough = refl
fill_queue-all matches accepts w ready (name ∷ files) h t fuel enough =
    let (k, k<w, accepted) = ready t in
    fill_queue-first matches accepts name files (w * length files) (and_left _ _ h)
      (fill_queue-all matches accepts w ready files (and_right (matches name) _ h)) k t fuel
      (rounds w k (length files) fuel k<w enough) accepted
