-- ===== src/Lint/HeaderGuard/Name.antt =====
-- The names that `GetHeaderGuardCPPVariable` returns.
use netproject_c.Prelude.{
  ℕ, Bool, true, ◌&&◌, ◌||◌, [], ◌∷◌, ◌++◌, Text, text, leb, ◌==◌, if◌then◌else◌, all, to_upper,
  ◌≡◌, refl, ap, arith, and_parts,
}
use netproject_c.Regex.Syntax.{is_word, is_digit}
use netproject_c.Lint.Patterns.{escape}
use netproject_c.Lint.Settings.{Settings}
use netproject_c.Lint.HeaderGuard.{
  is_letter_or_digit, guard_name, get_header_guard_cpp_variable, fixup_path_from_root,
}

-- A capital letter, a digit or an underscore.
abbrev pub is_guard_char : ℕ → Bool
is_guard_char c = (leb b'A' c && leb c b'Z') || (leb b'0' c && leb c b'9') || c == b'_'

guard_char : (c : ℕ) → is_guard_char (to_upper (if is_letter_or_digit c then c else b'_')) ≡ true
unfolding to_upper is_letter_or_digit
guard_char c = ground arith

all-guard_name :
    (path rest : Text)
    → all is_guard_char rest ≡ true
    → all is_guard_char (guard_name path ++ rest) ≡ true
unfolding guard_name
all-guard_name [] rest h = h
all-guard_name (c ∷ path) rest h = rw (guard_char c) (all-guard_name path rest h)

is_word-is_guard_char : (c : ℕ) → is_guard_char c ≡ true → is_word c ≡ true
unfolding is_word is_digit
is_word-is_guard_char c h = ground arith

escape-plain : (s : Text) → all is_guard_char s ≡ true → escape s ≡ s
unfolding escape
escape-plain [] h = refl
escape-plain (c ∷ s) h =
    let (k, hs) = and_parts (is_guard_char c) (all is_guard_char s) h in
    rw (is_word-is_guard_char c k) (ap (λ t. c ∷ t) (escape-plain s hs))

-- Whatever the file is called, the variable of its header guard consists of capital letters, digits and
-- underscores, so that escaping it for a regular expression leaves it as it is.
pub get_header_guard_cpp_variable-is_guard_char :
    (settings : Settings) (filename : Text)
    → (all is_guard_char (get_header_guard_cpp_variable settings filename) ≡ true)
      × (escape (get_header_guard_cpp_variable settings filename)
          ≡ get_header_guard_cpp_variable settings filename)
unfolding get_header_guard_cpp_variable
get_header_guard_cpp_variable-is_guard_char settings filename =
    let plain = all-guard_name (fixup_path_from_root settings _) (text "_") refl in
    (plain, escape-plain (get_header_guard_cpp_variable settings filename) plain)
