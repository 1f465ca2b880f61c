-- ===== src/Lint/Settings/Extensions.antt =====
-- The extensions of header files and of source files.
use netproject_c.Prelude.{
  ℕ, any, ◌==◌, ◌∙◌, strip, split_char, map, is_empty, Bool, true, false, not, ◌&&◌, ◌||◌, List, [],
  ◌∷◌, ◌++◌, Text, one_of, same, same_iff, ◌≡◌, refl, ap, arith, Bool-cases, inl, inr,
}
use netproject_c.Lint.Settings.{
  Settings, process_extensions_option, process_hpp_headers_option, extension_set, select,
  source_extensions, get_header_extensions, get_all_extensions, get_non_header_extensions,
  is_header_extension, is_source_extension,
}

one_of-append : (x : Text) (xs ys : List Text) → one_of x (xs ++ ys) ≡ (one_of x xs || one_of x ys)
unfolding one_of
one_of-append x [] ys = refl
one_of-append x (y ∷ xs) ys = ground (arith, one_of-append x xs ys)

same_value : (p : Text → Bool) (x y : Text) → same x y ≡ true → p x ≡ p y
same_value p x y h = ap p ((same_iff x y).0 h)

one_of-select :
    (p : Text → Bool) (x : Text) (xs : List Text) → one_of x (select p xs) ≡ (one_of x xs && p x)
unfolding one_of
one_of-select p x [] = refl
one_of-select p x (y ∷ xs) = elim (Bool-cases (same x y)) [
  | inl h ↦ ground (arith, one_of-select p x xs, same_value p x y h)
  | inr h ↦ ground (arith, one_of-select p x xs)
]

module _ (settings : Settings) (ext : Text) where
  -- A source extension is one of those to check that is no header extension.
  source_split :
      is_source_extension settings ext
      ≡ (one_of ext (source_extensions settings) && not (is_header_extension settings ext))
  unfolding is_header_extension is_source_extension get_non_header_extensions get_all_extensions
  source_split =
      let headers = get_header_extensions settings in
      let foreign = (λ (e : Text). not (one_of e headers)) in
      let others = select foreign (source_extensions settings) in
      rw
        (
          one_of-select foreign ext (headers ++ others),
          one_of-append ext headers others,
          one_of-select foreign ext (source_extensions settings),
        )
        (outside (one_of ext headers) (one_of ext (source_extensions settings)))
    where
      outside : (a b : Bool) → ((a || (b && not a)) && not a) ≡ (b && not a)
      outside true true = refl
      outside true false = refl
      outside false true = refl
      outside false false = refl

-- The parts of a comma-separated list, without the white space around them.
abbrev pub listed : Text → List Text
unfolding strip split_char
listed val = map strip (split_char b',' val)

abbrev pub has_h : Text → Bool
has_h ext = any (λ c. c == b'h') ext

split_char-cons : (c : ℕ) (s : Text) → (p : Text) × (ps : List Text) × (split_char c s ≡ p ∷ ps)
unfolding split_char
split_char-cons c [] = ([], [], refl)
split_char-cons c (x ∷ s) = elim (Bool-cases (x == c)) [
  | inl h ↦ ([], split_char c s, rw h refl)
  | inr h ↦ let (p, ps, e) = split_char-cons c s in (x ∷ p, ps, rw (h, e) refl)
]

listed-nonempty : (val : Text) → is_empty (listed val) ≡ false
unfolding listed
listed-nonempty val = let (p, ps, e) = split_char-cons b',' val in rw e refl

abbrev pub with_extensions : Settings → Text → Settings
with_extensions settings extensions = process_extensions_option settings extensions

abbrev pub with_both : Settings → Text → Text → Settings
with_both settings extensions headers =
    process_hpp_headers_option (with_extensions settings extensions) headers

module _ (settings : Settings) (extensions headers ext : Text) where
  header_of_extensions :
      settings.hpp_headers ≡ []
      → is_header_extension (with_extensions settings extensions) ext
        ≡ (one_of ext (listed extensions) && has_h ext)
  unfolding is_header_extension get_header_extensions process_extensions_option extension_set
  header_of_extensions h =
      rw (h, listed-nonempty extensions) (one_of-select has_h ext (listed extensions))

  header_of_headers :
      is_header_extension (with_both settings extensions headers) ext ≡ one_of ext (listed headers)
  unfolding is_header_extension get_header_extensions process_extensions_option extension_set
      process_hpp_headers_option
  header_of_headers = rw (listed-nonempty headers) refl

  sources_of_extensions :
      source_extensions (with_extensions settings extensions) ≡ listed extensions
  unfolding process_extensions_option extension_set
  sources_of_extensions = rw (listed-nonempty extensions) refl

  sources_of_both : source_extensions (with_both settings extensions headers) ≡ listed extensions
  unfolding process_extensions_option extension_set process_hpp_headers_option
  sources_of_both = rw (listed-nonempty extensions) refl

and_not : (a b : Bool) → (a && not (a && b)) ≡ (a && not b)
and_not true b = refl
and_not false b = refl

-- With --extensions and no --headers, the header extensions are those of the list with an h in them
-- and the source extensions are the others of the list; with --headers too, the header extensions
-- are those of its list, and the source extensions are those of the first list that are not in the
-- second.
pub is_header_extension-process_extensions_option :
    (settings : Settings) (extensions headers ext : Text)
    → settings.hpp_headers ≡ []
    → (is_header_extension (with_extensions settings extensions) ext
        ≡ (one_of ext (listed extensions) && has_h ext))
      × (is_source_extension (with_extensions settings extensions) ext
          ≡ (one_of ext (listed extensions) && not (has_h ext)))
      × (is_header_extension (with_both settings extensions headers) ext
          ≡ one_of ext (listed headers))
      × (is_source_extension (with_both settings extensions headers) ext
          ≡ (one_of ext (listed extensions) && not (one_of ext (listed headers))))
is_header_extension-process_extensions_option settings extensions headers ext h =
    let header = header_of_extensions settings extensions headers ext h in
    let other = header_of_headers settings extensions headers ext in
    (
      header,
      source_split (with_extensions settings extensions) ext
          ∙ rw (header, sources_of_extensions settings extensions headers ext)
              (and_not (one_of ext (listed extensions)) (has_h ext)),
      other,
      source_split (with_both settings extensions headers) ext
          ∙ rw (other, sources_of_both settings extensions headers ext) refl,
    )
