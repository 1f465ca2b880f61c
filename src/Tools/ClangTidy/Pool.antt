-- ===== src/Tools/ClangTidy/Pool.antt =====
-- run_clang_tidy.py, the threads that run `run_tidy`, and the queue between them and `main`. A state
-- has the files that `main` has still to put, the queue, the files on which a thread runs clang-tidy,
-- those whose result is noted but whose `task_done` is still to come, those whose thread has ended by
-- an exception, `failed_files`, and the number of unfinished tasks that `Queue.put` and `task_done`
-- keep. The return code of clang-tidy on a file is an argument.
pub mod Failures
use netproject_c.Prelude.{
  ℕ, suc, ◌+◌, ◌<◌, true, false, List, [], ◌∷◌, ◌++◌, Text, if◌then◌else◌, length, ◌==◌, ◌≡◌,
}
use netproject_c.Tools.ClangTidy.{should_skip}

-- What `run_tidy` does when clang-tidy has run on a file.
unfoldable pub run_tidy : (Text → ℕ) → Text → List Text → List Text
run_tidy exit_code name failed_files =
    if exit_code name == 0 then failed_files else failed_files ++ name ∷ []

pub record Pool : Type 0 where
  pub pending : List Text
  pub queued : List Text
  pub running : List Text
  pub finishing : List Text
  pub ended : List Text
  pub failed_files : List Text
  pub unfinished : ℕ

abbrev pub pool : List Text → List Text → List Text → List Text → List Text → List Text → ℕ → Pool
pool pending queued running finishing ended failed_files unfinished = record {
  pending = pending;
  queued = queued;
  running = running;
  finishing = finishing;
  ended = ended;
  failed_files = failed_files;
  unfinished = unfinished;
}

abbrev pub start : List Text → Pool
start files = pool files [] [] [] [] [] 0

-- The queue holds `max_task` files, and there are as many threads. A thread is busy with one file
-- from `get` on, or has ended; threads that are not in one of the lists wait in `get`. The files end
-- in any order. An exception can end a thread before its file is noted (`Popen`) and after it
-- (`decode`); then `task_done` is not called.
pub data Step (exit_code : Text → ℕ) (max_task : ℕ) : Pool → Pool → Type 0 where
  put :
      (name : Text) (p q r f e failed : List Text) (u : ℕ)
      → length q < max_task
      → Step exit_code max_task
          (pool (name ∷ p) q r f e failed u)
          (pool p (q ++ name ∷ []) r f e failed (suc u))
  get :
      (name : Text) (p q r f e failed : List Text) (u : ℕ)
      → length r + length f + length e < max_task
      → Step exit_code max_task
          (pool p (name ∷ q) r f e failed u)
          (pool p q (name ∷ r) f e failed u)
  skip :
      (before : List Text) (name : Text) (after p q f e failed : List Text) (u : ℕ)
      → should_skip name ≡ true
      → Step exit_code max_task
          (pool p q (before ++ name ∷ after) f e failed (suc u))
          (pool p q (before ++ after) f e failed u)
  check_file :
      (before : List Text) (name : Text) (after p q f e failed : List Text) (u : ℕ)
      → should_skip name ≡ false
      → Step exit_code max_task
          (pool p q (before ++ name ∷ after) f e failed u)
          (pool p q (before ++ after) (name ∷ f) e (run_tidy exit_code name failed) u)
  task_done :
      (before : List Text) (name : Text) (after p q r e failed : List Text) (u : ℕ)
      → Step exit_code max_task
          (pool p q r (before ++ name ∷ after) e failed (suc u))
          (pool p q r (before ++ after) e failed u)
  raise_running :
      (before : List Text) (name : Text) (after p q f e failed : List Text) (u : ℕ)
      → Step exit_code max_task
          (pool p q (before ++ name ∷ after) f e failed u)
          (pool p q (before ++ after) f (name ∷ e) failed u)
  raise_finishing :
      (before : List Text) (name : Text) (after p q r e failed : List Text) (u : ℕ)
      → Step exit_code max_task
          (pool p q r (before ++ name ∷ after) e failed u)
          (pool p q r (before ++ after) (name ∷ e) failed u)

pub data Steps (exit_code : Text → ℕ) (max_task : ℕ) : Pool → Pool → Type 0 where
  stop : (s : Pool) → Steps exit_code max_task s s
  step :
      {s t u : Pool}
      → Step exit_code max_task s t
      → Steps exit_code max_task t u
      → Steps exit_code max_task s u

-- `main` has put all files and `task_queue.join()` returns: no task is unfinished.
pub data Joined : Pool → Type 0 where
  joined : (q r f e failed : List Text) → Joined (pool [] q r f e failed 0)

-- `return_code`, before the fixes
abbrev pub return_code : Pool → ℕ
return_code s = if length s.failed_files == 0 then 0 else 1
