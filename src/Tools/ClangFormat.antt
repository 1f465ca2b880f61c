-- ===== src/Tools/ClangFormat.antt =====
-- build_support/run_clang_format.py. The file system, clang-format and difflib are the fields of
-- `System`: an operation that can raise returns an option.
pub mod Verdict
use netproject_c.Prelude.{
  ℕ, Bool, true, false, not, ◌&&◌, ◌||◌, Option, none, some, List, [], ◌∷◌, ◌++◌, Text, text,
  if◌then◌else◌, any, map, ends_with, split_char, strip,
}

pub record System : Type 0 where
  -- `os.walk`: each directory with its files
  pub walk : Text → List (Text × List Text)
  -- `os.path.join`
  pub join_path : Text → Text → Text
  -- `fnmatch.fnmatch`: the file, then the glob
  pub fnmatch : Text → Text → Bool
  -- the contents of a file, decoded
  pub read_file : Text → Option Text
  -- the output of `clang-format <file>`, decoded
  pub format_output : Text → Option Text
  -- whether `clang-format -i <files>` succeeds
  pub format_in_place : List Text → Bool
  -- `difflib.unified_diff`: the file, its contents, the formatted contents
  pub unified_diff : Text → Text → Text → List Text

-- What is printed, and what is written to the standard error.
pub data Event : Type 0 where
  formatting checking style_issues : Text → Event
  diff_lines : List Text → Event

-- The events so far, and the result: `none` when an exception has ended the run.
pub record Run : Type 0 where
  pub events : List Event
  pub outcome : Option Bool

abbrev pub after_events : List Event → Run → Run
after_events events r = record { events = events ++ r.events; outcome = r.outcome }

unfoldable pub is_source_file : Text → Bool
unfolding ends_with
is_source_file x = ends_with x (text ".h") || ends_with x (text ".cpp")

abbrev select {ℓ} : {A : Type ℓ} → (A → Bool) → List A → List A
select p [] = []
select p (x ∷ xs) = let rest = select p xs in if p x then x ∷ rest else rest

-- The files of all directories that are source files and match no glob.
unfoldable pub formatted_filenames : System → List Text → List (Text × List Text) → List Text
unfolding is_source_file
formatted_filenames sys exclude_globs [] = []
formatted_filenames sys exclude_globs ((directory, filenames) ∷ rest) =
    let source_files = select is_source_file (map (sys.join_path directory) filenames) in
    select (λ filename. not (any (sys.fnmatch filename) exclude_globs)) source_files
    ++ formatted_filenames sys exclude_globs rest

abbrev pub is_nil {ℓ} : {A : Type ℓ} → List A → Bool
is_nil [] = true
is_nil (x ∷ xs) = false

-- The diff of one file.
unfoldable pub diff_of : System → Text → Option (List Text)
diff_of sys filename = elim (sys.format_output filename) [
  | none ↦ none
  | some formatted ↦ elim (sys.read_file filename) [
    | none ↦ none
    | some original ↦ some (sys.unified_diff filename original formatted)
  ]
]

abbrev pub checking_event : Bool → Text → List Event
checking_event quiet filename = if quiet then [] else checking filename ∷ []

-- One file, from what the loop does on the others after no difference and after one.
abbrev pub file_run : Bool → Text → Option (List Text) → Run → Run → Run
file_run quiet filename none same changed = record {
  events = checking_event quiet filename;
  outcome = none;
}
file_run quiet filename (some []) same changed = after_events (checking_event quiet filename) same
file_run quiet filename (some (line ∷ diff)) same changed =
    after_events
      (checking_event quiet filename ++ style_issues filename ∷ diff_lines (line ∷ diff) ∷ [])
      changed

-- The loop over the files, with the value of `error`.
unfoldable pub check_files : System → Bool → List Text → Bool → Run
unfolding diff_of
check_files sys quiet [] error = record { events = []; outcome = some error }
check_files sys quiet (filename ∷ filenames) error =
    file_run quiet filename (diff_of sys filename) (check_files sys quiet filenames error)
      (check_files sys quiet filenames true)

pub record Arguments : Type 0 where
  pub fix : Bool
  pub quiet : Bool

unfoldable pub check : System → List Text → Arguments → Text → Run
unfolding formatted_filenames check_files
check sys exclude_globs arguments source_dir =
    let files = formatted_filenames sys exclude_globs (sys.walk source_dir) in
    if arguments.fix
    then record {
      events = if arguments.quiet then [] else map formatting files;
      outcome = if sys.format_in_place files then some false else none;
    }
    else check_files sys arguments.quiet files false

abbrev pub and_then : Option Bool → (Bool → Option Bool) → Option Bool
and_then none next = none
and_then (some err) next = next err

-- The loop over the source directories, with the value of `had_err`.
unfoldable pub check_dirs : System → List Text → Arguments → List Text → Bool → Option Bool
unfolding check
check_dirs sys exclude_globs arguments [] had_err = some had_err
check_dirs sys exclude_globs arguments (source_dir ∷ source_dirs) had_err =
    let skipped = check_dirs sys exclude_globs arguments source_dirs had_err in
    let checked =
      and_then (check sys exclude_globs arguments source_dir).outcome
        (λ err. check_dirs sys exclude_globs arguments source_dirs err) in
    if is_nil source_dir then skipped else checked

-- The exit code, from the lines of the file of globs and the list of directories; an exception ends
-- Python with code 1.
unfoldable pub main : System → Arguments → List Text → Text → ℕ
unfolding check_dirs split_char strip
main sys arguments glob_lines source_dirs =
    elim (check_dirs sys (map strip glob_lines) arguments (split_char b',' source_dirs) false) [
      | none ↦ 1
      | some had_err ↦ if had_err then 1 else 0
    ]
