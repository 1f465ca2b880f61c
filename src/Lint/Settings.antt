-- ===== src/Lint/Settings.antt =====
-- cpplint.py, the global settings of a run, with the file system and the Unicode database that it asks;
-- the sets of extensions, and `GetLineWidth`. A set is the list of its elements, in the order in which
-- the source's loops meet them.
pub mod Extensions
use netproject_c.Prelude.{
  ℕ, ◌+◌, Bool, true, false, not, ◌||◌, List, [], ◌∷◌, ◌++◌, Text, text, if◌then◌else◌, one_of,
  is_empty, any, ◌==◌, map, strip, split_char,
}

pub record Settings : Type 0 where
  pub line_length : ℕ
  -- `_hpp_headers`, `_valid_extensions`: empty if not set
  pub hpp_headers : List Text
  pub valid_extensions : List Text
  -- `_root`, `_repository`: empty if not set
  pub root : Text
  pub repository : Text
  -- `os.path.exists`, `os.path.abspath`, and a file's lines as `io.open` gives them
  pub exists : Text → Bool
  pub absolute_path : Text → Text
  -- `unicodedata`: the normal form, and the characters that are wide or combining
  pub normalize : Text → Text
  pub is_wide : ℕ → Bool
  pub is_combining : ℕ → Bool

abbrev select : (Text → Bool) → List Text → List Text
select p [] = []
select p (x ∷ xs) = let rest = select p xs in if p x then x ∷ rest else rest

-- `{ext.strip() for ext in val.split(',')}`
extension_set : Text → List Text
unfolding strip split_char
extension_set val = map strip (split_char b',' val)

pub process_hpp_headers_option : Settings → Text → Settings
unfolding extension_set
process_hpp_headers_option self val = record self { hpp_headers = extension_set val }

pub process_extensions_option : Settings → Text → Settings
unfolding extension_set
process_extensions_option self val = record self { valid_extensions = extension_set val }

unfoldable pub get_header_extensions : Settings → List Text
get_header_extensions self =
    if not (is_empty self.hpp_headers)
    then self.hpp_headers
    else if not (is_empty self.valid_extensions)
    then select (λ h. any (λ c. c == b'h') h) self.valid_extensions
    else text "h" ∷ text "hh" ∷ text "hpp" ∷ text "hxx" ∷ text "h++" ∷ text "cuh" ∷ []

unfoldable pub is_header_extension : Settings → Text → Bool
unfolding get_header_extensions one_of
is_header_extension self file_extension = one_of file_extension (get_header_extensions self)

abbrev source_extensions : Settings → List Text
source_extensions self =
    if not (is_empty self.valid_extensions)
    then self.valid_extensions
    else text "c" ∷ text "cc" ∷ text "cpp" ∷ text "cxx" ∷ text "c++" ∷ text "cu" ∷ []

unfoldable pub get_all_extensions : Settings → List Text
unfolding get_header_extensions one_of
get_all_extensions self =
    get_header_extensions self
    ++ select (λ ext. not (one_of ext (get_header_extensions self))) (source_extensions self)

unfoldable pub get_non_header_extensions : Settings → List Text
unfolding get_all_extensions get_header_extensions one_of
get_non_header_extensions self =
    select (λ ext. not (one_of ext (get_header_extensions self))) (get_all_extensions self)

unfoldable pub is_source_extension : Settings → Text → Bool
unfolding get_non_header_extensions one_of
is_source_extension self s = one_of s (get_non_header_extensions self)

width : Settings → Text → ℕ
width self [] = 0
width self (c ∷ s) =
    (if self.is_wide c then 2 else if self.is_combining c then 0 else 1) + width self s

-- In Python 3 from 3.3 on.
unfoldable pub get_line_width : Settings → Text → ℕ
unfolding width
get_line_width self line = width self (self.normalize line)
