-- ===== src/Tools/ClangFormat/Verdict.antt =====
-- What the result of a run of run_clang_format.py says of the files.
use netproject_c.Prelude.{
  Bool, true, false, ◌||◌, Option, none, some, List, [], ◌∷◌, ◌++◌, Text, if◌then◌else◌, any, all,
  ◌≡◌, ◌≢◌, refl, ap, arith, Bool-cases, inl, inr, Option-cases,
}
use netproject_c.Tools.ClangFormat.{
  System, Arguments, formatted_filenames, diff_of, check_files, check, check_dirs, is_nil, and_then,
}

abbrev pub runs : Option (List Text) → Bool
runs none = false
runs (some diff) = true

abbrev pub has_issues : Option (List Text) → Bool
has_issues none = false
has_issues (some []) = false
has_issues (some (line ∷ diff)) = true

abbrev pub verdict : System → List Text → Bool → Option Bool
unfolding diff_of
verdict sys files error =
    if all (λ f. runs (diff_of sys f)) files
    then some (error || any (λ f. has_issues (diff_of sys f)) files)
    else none

or_false : (b : Bool) → b ≡ (b || false)
or_false b = ground arith

or_true : (b : Bool) → (b || true) ≡ true
or_true b = ground arith

check_files_lem :
    (sys : System) (quiet : Bool) (files : List Text) (error : Bool)
    → (check_files sys quiet files error).outcome ≡ verdict sys files error
unfolding check_files
check_files_lem sys quiet [] error = ap some (or_false error)
check_files_lem sys quiet (f ∷ files) error = elim (Option-cases (diff_of sys f)) [
  | inl e ↦ rw e refl
  | inr ([], e) ↦ rw e (check_files_lem sys quiet files error)
  | inr (line ∷ diff, e) ↦ rw (e, or_true error) (check_files_lem sys quiet files true)
]

-- Without `--fix`, a run over a directory fails as soon as clang-format or a file fails; otherwise it
-- finishes, and its result is whether some file has a difference.
pub check_outcome :
    (sys : System) (exclude_globs : List Text) (arguments : Arguments) (source_dir : Text)
    → arguments.fix ≡ false
    → (check sys exclude_globs arguments source_dir).outcome
      ≡ verdict sys (formatted_filenames sys exclude_globs (sys.walk source_dir)) false
unfolding check
check_outcome sys exclude_globs arguments source_dir h = rw h (check_files_lem sys _ _ false)

eta : (r : Option Bool) → and_then r (λ b. some b) ≡ r
eta none = refl
eta (some b) = refl

none≢some : {b : Bool} → none ≢ some b
none≢some e = cc

-- The result for a list of directories is the result for the last of them alone, whatever the earlier
-- ones gave, if these have all finished and the last has a name.
pub check_dirs_last :
    (sys : System) (exclude_globs : List Text) (arguments : Arguments) (source_dirs : List Text)
    (last : Text) (had_err earlier : Bool)
    → check_dirs sys exclude_globs arguments source_dirs had_err ≡ some earlier
    → is_nil last ≡ false
    → check_dirs sys exclude_globs arguments (source_dirs ++ last ∷ []) had_err
      ≡ (check sys exclude_globs arguments last).outcome
unfolding check_dirs
check_dirs_last sys globs arguments [] last had_err earlier e h =
    rw h (eta (check sys globs arguments last).outcome)
check_dirs_last sys globs arguments (d ∷ dirs) last had_err earlier e h =
    elim (Bool-cases (is_nil d)) [
      | inl empty ↦
          rw empty (check_dirs_last sys globs arguments dirs last had_err earlier (rw empty at e) h)
      | inr named ↦ elim (Option-cases (check sys globs arguments d).outcome) [
        | inl raised ↦ absurd (none≢some (rw (named, raised) at e))
        | inr (err, ended) ↦
            rw (named, ended)
              (check_dirs_last sys globs arguments dirs last err earlier (rw (named, ended) at e) h)
      ]
    ]
