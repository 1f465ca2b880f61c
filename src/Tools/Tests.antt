-- ===== src/Tools/Tests.antt =====
-- Runs of the drivers of the clang tools on concrete inputs.
use netproject_c.Prelude.{
  ℕ, zero, suc, ◌+◌, ◌<◌, Bool, true, false, none, some, List, [], ◌∷◌, ◌++◌, Text, text, ◌≡◌, inl,
  inr, refl, arith, ◌==◌, same, if◌then◌else◌, starts_with, ends_with, ◌%◌, Bool-cases,
}
use netproject_c.Lint.Patterns.{matches}
use netproject_c.Tools.ClangFormat.{
  System, Arguments, check, check_dirs, check_files, diff_of, formatted_filenames, is_source_file,
}
use netproject_c.Tools.ClangFormat.Verdict.{verdict, check_outcome, check_dirs_last}
use netproject_c.Tools.ClangTidy.{should_skip}
use netproject_c.Tools.ClangTidy.Invocation.{
  TidyOptions, get_tidy_invocation, positional, arguments, get_tidy_invocation-positional,
}
use netproject_c.Tools.ClangTidy.Database.{
  find_compilation_database, found, up, find_compilation_database_lem,
}
use netproject_c.Tools.ClangTidy.Queue.{fill_queue, fill_queue-unmatched, fill_queue-all, Accepting}
use netproject_c.Tools.ClangTidy.Pool.{
  Pool, pool, start, put, get, check_file, task_done, raise_running, Steps, stop, step, Joined,
  joined, run_tidy,
}
use netproject_c.Tools.ClangTidy.Pool.Failures.{
  occurrences, failures, Steps-failed_files, Steps-ended,
}

-- Two directories, of which the first has a file that is not formatted.
abbrev system : System
system = record {
  walk = λ dir. (dir, text "x.h" ∷ text "notes.txt" ∷ []) ∷ [];
  join_path = λ dir file. dir ++ text "/" ++ file;
  fnmatch = λ file glob. false;
  read_file = λ file. some file;
  format_output = λ file. some (if starts_with file (text "a") then text "changed" else file);
  format_in_place = λ files. true;
  unified_diff = λ file original formatted. if same original formatted then [] else file ∷ [];
}

abbrev options : Arguments
options = record { fix = false; quiet = true }

check_outcome_example :
    (check system [] options (text "a")).outcome
    ≡ verdict system (formatted_filenames system [] (system.walk (text "a"))) false
check_outcome_example = check_outcome system [] options (text "a") refl

check_dirs_last_example :
    check_dirs system [] options (text "a" ∷ [] ++ text "b" ∷ []) false
    ≡ (check system [] options (text "b")).outcome
unfolding check_dirs check check_files formatted_filenames diff_of is_source_file ends_with
    starts_with same
check_dirs_last_example =
    check_dirs_last system [] options (text "a" ∷ []) (text "b") false true refl refl

abbrev tidy : TidyOptions
tidy = record {
  clang_tidy_binary = text "clang-tidy";
  checks = text "-*,bugprone-*";
  fixes_file = none;
  build_path = text "/build";
  header_filter = none;
  extra_arg = text "-Wall" ∷ [];
  extra_arg_before = [];
  quiet = true;
  config = [];
}

get_tidy_invocation-positional_example :
    positional (arguments (get_tidy_invocation (text "/a.cpp") tidy)) ≡ text "/a.cpp" ∷ []
unfolding starts_with
get_tidy_invocation-positional_example =
    get_tidy_invocation-positional (text "/a.cpp") tidy refl refl

-- A database one directory up.
abbrev is_file : Text → Bool
is_file path = same path (text "./../db")

abbrev join_path : Text → Text → Text
join_path a b = a ++ b

abbrev real_path : Text → Text
real_path p = text "/home"

not_here :
    (k : ℕ)
    → k < 1
    → is_file (join_path (up is_file join_path real_path k (text "./")) (text "db")) ≡ false
unfolding same
not_here zero h = refl
not_here (suc k) h = absurd (omega arith)

find_compilation_database_example :
    find_compilation_database is_file join_path real_path 5 (text "db") ≡ found (text "/home")
unfolding same
find_compilation_database_example =
    find_compilation_database_lem is_file join_path real_path 1 (text "db") 3 not_here (λ k h. refl)
      refl

abbrev even : ℕ → Bool
even t = t % 2 == 0

abbrev files : List Text
files = text "/a.cpp" ∷ text "/b.cpp" ∷ []

fill_queue-unmatched_example :
    fill_queue (λ name. same name (text "/a.cpp")) even 100 0 files ≡ none
unfolding same
fill_queue-unmatched_example =
    fill_queue-unmatched (λ name. same name (text "/a.cpp")) even 100 0 files refl

same_time : (t : ℕ) → (t % 2 == 0) ≡ true → ((t + 0) % 2 == 0) ≡ true
same_time t e = ground arith

next_time : (t : ℕ) → (t % 2 == 0) ≡ false → ((t + 1) % 2 == 0) ≡ true
next_time t e = ground arith

even-Accepting : Accepting 2 even
even-Accepting t = elim (Bool-cases (t % 2 == 0)) [
  | inl e ↦ (0, omega arith, same_time t e)
  | inr e ↦ (1, omega arith, next_time t e)
]

fill_queue-all_example : fill_queue (λ name. true) even 4 1 files ≡ some files
fill_queue-all_example =
    fill_queue-all (λ name. true) even 2 even-Accepting files refl 1 4 (omega arith)

abbrev exit_code : Text → ℕ
exit_code name = if same name (text "/b.cpp") then 1 else 0

-- Two files on two threads: the first ends, then the second fails.
schedule : Steps exit_code 2 (start files) (pool [] [] [] [] [] (text "/b.cpp" ∷ []) 0)
unfolding run_tidy should_skip matches same
schedule = step (put (text "/a.cpp") (text "/b.cpp" ∷ []) [] [] [] [] [] 0 (omega arith)) (
    step (put (text "/b.cpp") [] (text "/a.cpp" ∷ []) [] [] [] [] 1 (omega arith)) (
      step (get (text "/a.cpp") [] (text "/b.cpp" ∷ []) [] [] [] [] 2 (omega arith)) (
        step (get (text "/b.cpp") [] [] (text "/a.cpp" ∷ []) [] [] [] 2 (omega arith)) (
          step (check_file (text "/b.cpp" ∷ []) (text "/a.cpp") [] [] [] [] [] [] 2 refl) (
            step (task_done [] (text "/a.cpp") [] [] [] (text "/b.cpp" ∷ []) [] [] 1) (
              step (check_file [] (text "/b.cpp") [] [] [] [] [] [] 1 refl)
                (step (task_done [] (text "/b.cpp") [] [] [] [] [] _ 0) (stop _))))))))

Steps-failed_files_example :
    occurrences (text "/b.cpp") (text "/b.cpp" ∷ [])
    ≡ occurrences (text "/b.cpp") (failures exit_code files)
Steps-failed_files_example =
    Steps-failed_files exit_code 2 files schedule (joined [] [] [] [] (text "/b.cpp" ∷ []))
      (text "/b.cpp")

abbrev queued_once : Pool
queued_once = pool (text "/b.cpp" ∷ []) (text "/a.cpp" ∷ []) [] [] [] [] 1

-- The only file of a run, whose thread ends while clang-tidy runs.
abbrev thread_ended : Pool
thread_ended = pool [] [] [] [] (text "/a.cpp" ∷ []) [] 1

exception : Steps exit_code 1 (start (text "/a.cpp" ∷ [])) thread_ended
exception = step (put (text "/a.cpp") [] [] [] [] [] [] 0 (omega arith)) (
    step (get (text "/a.cpp") [] [] [] [] [] [] 1 (omega arith))
      (step (raise_running [] (text "/a.cpp") [] [] [] [] [] [] 1) (stop _)))

Steps-ended_example : ¬ Joined thread_ended
Steps-ended_example =
    Steps-ended exit_code 1 (text "/a.cpp" ∷ []) exception (omega arith) (stop thread_ended)
