-- ===== src/Tools/ClangTidy/Pool/Failures.antt =====
-- What the pool of threads leaves in `failed_files`, and that it gets to its end.
use netproject_c.Prelude.{
  ℕ, suc, ◌+◌, ◌*◌, ◌<◌, ◌≤◌, Bool, true, false, not, ◌&&◌, List, [], ◌∷◌, ◌++◌, Text,
  if◌then◌else◌, length, length-append, same, ◌==◌, ◌≡◌, refl, ap, sym, ◌∙◌, arith, Bool-cases, inl,
  inr,
}
use netproject_c.Tools.ClangTidy.{should_skip}
use netproject_c.Tools.ClangTidy.Pool.{
  run_tidy, Pool, start, Step, put, get, skip, check_file, task_done, raise_running,
  raise_finishing, Steps, stop, step, Joined, joined,
}

-- A file that is not skipped and on which clang-tidy fails.
abbrev pub fails : (Text → ℕ) → Text → Bool
fails exit_code name = not (should_skip name) && not (exit_code name == 0)

-- How often a file stands in a list, and how often one that fails does.
abbrev pub occurrences : Text → List Text → ℕ
unfolding same
occurrences x [] = 0
occurrences x (y ∷ ys) = (if same x y then 1 else 0) + occurrences x ys

abbrev pub failures : (Text → ℕ) → List Text → List Text
failures exit_code [] = []
failures exit_code (y ∷ ys) =
    let rest = failures exit_code ys in if fails exit_code y then y ∷ rest else rest

-- The failures of a state no thread of which has ended: those to come, and those that are there.
abbrev total : (Text → ℕ) → Text → Pool → ℕ
total e x s =
    occurrences x (failures e s.pending)
    + occurrences x (failures e s.queued)
    + occurrences x (failures e s.running)
    + occurrences x s.failed_files

occurrences-append :
    (x : Text) (a b : List Text) → occurrences x (a ++ b) ≡ occurrences x a + occurrences x b
unfolding occurrences
occurrences-append x [] b = omega arith
occurrences-append x (y ∷ a) b = omega (arith, occurrences-append x a b)

failures-append :
    (e : Text → ℕ) (a b : List Text) → failures e (a ++ b) ≡ failures e a ++ failures e b
failures-append e [] b = refl
failures-append e (y ∷ a) b = elim (Bool-cases (fails e y)) [
  | inl h ↦ rw h (ap (◌∷◌ y) (failures-append e a b))
  | inr h ↦ rw h (failures-append e a b)
]

abbrev weight : (Text → ℕ) → Text → List Text → ℕ
weight e x a = occurrences x (failures e a)

weight-append :
    (e : Text → ℕ) (x : Text) (a b : List Text) → weight e x (a ++ b) ≡ weight e x a + weight e x b
weight-append e x a b =
    ap (occurrences x) (failures-append e a b) ∙ occurrences-append x (failures e a) (failures e b)

weight-cons :
    (e : Text → ℕ) (x y : Text) (a : List Text)
    → weight e x (y ∷ a) ≡ weight e x (y ∷ []) + weight e x a
weight-cons e x y a = weight-append e x (y ∷ []) a

run_tidy-weight :
    (e : Text → ℕ) (x y : Text) (failed : List Text)
    → should_skip y ≡ false
    → occurrences x (run_tidy e y failed) ≡ weight e x (y ∷ []) + occurrences x failed
unfolding run_tidy occurrences
run_tidy-weight e x y failed h = elim (Bool-cases (e y == 0)) [
  | inl k ↦ rw (h, k) (omega arith)
  | inr k ↦ rw (h, k) (omega (arith, occurrences-append x failed (y ∷ [])))
]

skipped-weight : (e : Text → ℕ) (x y : Text) → should_skip y ≡ true → weight e x (y ∷ []) ≡ 0
unfolding occurrences
skipped-weight e x y h = rw h refl

take_out :
    (e : Text → ℕ) (x y : Text) (before after : List Text)
    → weight e x (before ++ y ∷ after) ≡ weight e x (y ∷ []) + weight e x (before ++ after)
take_out e x y before after = omega (
  arith,
  weight-append e x before (y ∷ after),
  weight-cons e x y after,
  weight-append e x before after,
)

length-take_out :
    (y : Text) (before after : List Text)
    → length (before ++ y ∷ after) ≡ suc (length (before ++ after))
length-take_out y before after =
    omega (arith, length-append before (y ∷ after), length-append before after)

Step-ended : {e : Text → ℕ} {m : ℕ} {s t : Pool} → Step e m s t → length s.ended ≤ length t.ended
Step-ended (put y p q r f e failed u h) = omega arith
Step-ended (get y p q r f e failed u h) = omega arith
Step-ended (skip before y after p q f e failed u h) = omega arith
Step-ended (check_file before y after p q f e failed u h) = omega arith
Step-ended (task_done before y after p q r e failed u) = omega arith
Step-ended (raise_running before y after p q f e failed u) = omega arith
Step-ended (raise_finishing before y after p q r e failed u) = omega arith

Steps-ended_grow :
    {e : Text → ℕ} {m : ℕ} {s t : Pool} → Steps e m s t → length s.ended ≤ length t.ended
Steps-ended_grow (stop s) = omega arith
Steps-ended_grow (step first rest) = omega (arith, Step-ended first, Steps-ended_grow rest)

Step-total :
    {c : Text → ℕ} {m : ℕ} {s t : Pool} (x : Text)
    → Step c m s t
    → length t.ended ≡ 0
    → total c x t ≡ total c x s
Step-total {c} x (put y p q r f e failed u h) none_ended =
    omega (arith, weight-cons c x y p, weight-append c x q (y ∷ []))
Step-total {c} x (get y p q r f e failed u h) none_ended =
    omega (arith, weight-cons c x y q, weight-cons c x y r)
Step-total {c} x (skip before y after p q f e failed u h) none_ended =
    omega (arith, take_out c x y before after, skipped-weight c x y h)
Step-total {c} x (check_file before y after p q f e failed u h) none_ended =
    omega (arith, take_out c x y before after, run_tidy-weight c x y failed h)
Step-total x (task_done before y after p q r e failed u) none_ended = refl
Step-total x (raise_running before y after p q f e failed u) none_ended = absurd (omega arith)
Step-total x (raise_finishing before y after p q r e failed u) none_ended = absurd (omega arith)

Steps-total :
    {c : Text → ℕ} {m : ℕ} {s t : Pool} (x : Text)
    → Steps c m s t
    → length t.ended ≡ 0
    → total c x t ≡ total c x s
Steps-total x (stop s) h = refl
Steps-total x (step first rest) h =
    Steps-total x rest h ∙ Step-total x first (omega (arith, Steps-ended_grow rest))

-- Each unfinished task is a file in the queue, with a thread, or of a thread that has ended.
abbrev held : Pool → ℕ
held s = length s.queued + length s.running + length s.finishing + length s.ended

Step-held :
    {c : Text → ℕ} {m : ℕ} {s t : Pool}
    → Step c m s t
    → s.unfinished ≡ held s
    → t.unfinished ≡ held t
Step-held (put y p q r f e failed u h) k = omega (arith, length-append q (y ∷ []))
Step-held (get y p q r f e failed u h) k = omega arith
Step-held (skip before y after p q f e failed u h) k = omega (arith, length-take_out y before after)
Step-held (check_file before y after p q f e failed u h) k =
    omega (arith, length-take_out y before after)
Step-held (task_done before y after p q r e failed u) k =
    omega (arith, length-take_out y before after)
Step-held (raise_running before y after p q f e failed u) k =
    omega (arith, length-take_out y before after)
Step-held (raise_finishing before y after p q r e failed u) k =
    omega (arith, length-take_out y before after)

Steps-held :
    {c : Text → ℕ} {m : ℕ} {s t : Pool}
    → Steps c m s t
    → s.unfinished ≡ held s
    → t.unfinished ≡ held t
Steps-held (stop s) k = k
Steps-held (step first rest) k = Steps-held rest (Step-held first k)

Joined-ended : {s : Pool} → Joined s → s.unfinished ≡ held s → length s.ended ≡ 0
Joined-ended (joined q r f e failed) k = omega arith

Joined-total :
    (c : Text → ℕ) (x : Text) {s : Pool}
    → Joined s
    → s.unfinished ≡ held s
    → total c x s ≡ occurrences x s.failed_files
unfolding occurrences
Joined-total c x (joined [] [] f e failed) k = omega arith
Joined-total c x (joined [] (y ∷ r) f e failed) k = absurd (omega arith)
Joined-total c x (joined (y ∷ q) r f e failed) k = absurd (omega arith)

-- However the threads are scheduled, when the queue is joined each file stands in `failed_files` as
-- often as it stands among the files that are not skipped and on which clang-tidy fails.
pub Steps-failed_files :
    (exit_code : Text → ℕ) (max_task : ℕ) (files : List Text) {s : Pool}
    → Steps exit_code max_task (start files) s
    → Joined s
    → (x : Text) → occurrences x s.failed_files ≡ occurrences x (failures exit_code files)
unfolding occurrences
Steps-failed_files c m files {s} run end x =
    let kept = Steps-held run refl in
    sym (Joined-total c x end kept) ∙ Steps-total x run (Joined-ended end kept) ∙ omega arith

-- If a thread has ended by an exception, `join` never returns, whatever the other threads still do.
pub Steps-ended :
    (exit_code : Text → ℕ) (max_task : ℕ) (files : List Text) {s t : Pool}
    → Steps exit_code max_task (start files) s
    → 0 < length s.ended
    → Steps exit_code max_task s t
    → ¬ Joined t
Steps-ended c m files run h later end =
    omega (arith, Joined-ended end (Steps-held later (Steps-held run refl)), Steps-ended_grow later)

-- The work that is left.
abbrev pub work : Pool → ℕ
work s = 4 * length s.pending + 3 * length s.queued + 2 * length s.running + length s.finishing
