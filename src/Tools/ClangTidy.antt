-- ===== src/Tools/ClangTidy.antt =====
-- build_support/run_clang_tidy.py and run_clang_tidy_extra.py. The children have the queue of files
-- and the pool of threads. The file system, the processes and `tempfile` are parameters.
pub mod Invocation
pub mod Database
pub mod Queue
pub mod Pool
use netproject_c.Prelude.{
  ℕ, Bool, true, false, not, ◌&&◌, ◌||◌, Option, none, some, List, [], ◌∷◌, ◌++◌, Text, text,
  if◌then◌else◌, any, map, String, ◌==◌,
}
use netproject_c.Lint.Patterns.{matches}

-- `CheckConfig.ignore_pats`
abbrev pub ignore_pats : List String
ignore_pats = ".*/third_party/.*" ∷ []

unfoldable pub should_skip : Text → Bool
unfolding matches
should_skip path = any (λ pat. matches pat path) ignore_pats

-- `os.path.isabs`, `os.path.join` and `os.path.normpath` are the arguments.
pub make_absolute : (Text → Bool) → (Text → Text → Text) → (Text → Text) → Text → Text → Text
make_absolute is_abs join_path norm_path f directory =
    if is_abs f then f else norm_path (join_path directory f)

-- How `merge_replacement_files` ends, from the `*.yaml` files of the directory: `yaml` is not
-- imported, so the first file raises a `NameError`; without one the merge file is emptied.
pub data Merge : Type 0 where
  emptied name_error : Merge

pub merge_replacement_files : List Text → Merge
merge_replacement_files [] = emptied
merge_replacement_files (replacefile ∷ files) = name_error

abbrev has_text : Text → Bool
has_text [] = false
has_text (c ∷ s) = true

-- The command line of `apply_fixes`.
pub apply_fixes : Text → Bool → Text → Text → List Text
apply_fixes clang_apply_replacements_binary format style tmpdir =
    clang_apply_replacements_binary ∷ (if format then text "-format" ∷ [] else [])
    ++ (if has_text style then (text "-style=" ++ style) ∷ [] else [])
    ++ tmpdir ∷ []
