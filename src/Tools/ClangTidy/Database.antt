-- ===== src/Tools/ClangTidy/Database.antt =====
-- run_clang_tidy.py, `find_compilation_database`: the way up to the directory of the database.
use native.Mathlib.Nat.{suc-add}
use netproject_c.Prelude.{
  ℕ, zero, suc, ◌+◌, ◌<◌, Bool, true, false, ◌||◌, ◌++◌, Text, text, if◌then◌else◌, same, ◌≡◌, refl,
  arith, Bool-cases, inl, inr,
}

-- The path that is found, the exit with code 1, or no end within the fuel.
pub data Search : Type 0 where
  found : Text → Search
  exit_1 out_of_fuel : Search

module _ (is_file : Text → Bool) (join_path : Text → Text → Text) (real_path : Text → Text) where
  unfoldable pub search_up : ℕ → Text → Text → Search
  unfolding same
  search_up zero path result = out_of_fuel
  search_up (suc fuel) path result =
      let above = search_up fuel path (result ++ text "../") in
      if is_file (join_path result path)
      then found (real_path result)
      else if same (real_path result) (text "/")
      then exit_1
      else above

  unfoldable pub find_compilation_database : ℕ → Text → Search
  unfolding search_up
  find_compilation_database fuel path = search_up fuel path (text "./")

  -- `./` and then `../` n times
  abbrev pub up : ℕ → Text → Text
  up zero result = result
  up (suc n) result = up n (result ++ text "../")

  abbrev has_database : Text → Text → Bool
  has_database path result = is_file (join_path result path)

  abbrev is_root : Text → Bool
  is_root result = same (real_path result) (text "/")

  abbrev answer : Text → Text → Search
  answer path result = if has_database path result then found (real_path result) else exit_1

  search_up_lem :
      (n : ℕ) (path result : Text) (more : ℕ)
      → ((k : ℕ) → k < n → has_database path (up k result) ≡ false)
      → ((k : ℕ) → k < n → is_root (up k result) ≡ false)
      → (has_database path (up n result) || is_root (up n result)) ≡ true
      → search_up (suc n + more) path result ≡ answer path (up n result)
  unfolding search_up
  search_up_lem zero path result more below inside stop =
      rw suc-add (elim (Bool-cases (has_database path result)) [
        | inl e ↦ rw e refl
        | inr e ↦ rw e (rw (rw e at stop) refl)
      ])
  search_up_lem (suc n) path result more below inside stop = rw suc-add (
      rw (below 0 (omega arith), inside 0 (omega arith))
        (search_up_lem n path (result ++ text "../") more (λ k h. below (suc k) (omega arith))
          (λ k h. inside (suc k) (omega arith)) stop))

  -- Let directory number `n` on the way up be the first that has the database or is the root. Then
  -- `n + 1` rounds are enough, and the search gives that directory if it has the database, and exits
  -- with code 1 if it does not.
  pub find_compilation_database_lem :
      (n : ℕ) (path : Text) (more : ℕ)
      → ((k : ℕ) → k < n → has_database path (up k (text "./")) ≡ false)
      → ((k : ℕ) → k < n → is_root (up k (text "./")) ≡ false)
      → (has_database path (up n (text "./")) || is_root (up n (text "./"))) ≡ true
      → find_compilation_database (suc n + more) path ≡ answer path (up n (text "./"))
  unfolding find_compilation_database
  find_compilation_database_lem n path more = search_up_lem n path (text "./") more
