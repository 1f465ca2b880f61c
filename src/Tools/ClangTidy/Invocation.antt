-- ===== src/Tools/ClangTidy/Invocation.antt =====
-- run_clang_tidy.py, `get_tidy_invocation`.
use netproject_c.Prelude.{
  Bool, true, false, Option, none, some, List, [], ◌∷◌, ◌++◌, Text, text, String, if◌then◌else◌,
  map, starts_with, ◌≡◌, ◌≢◌, refl, ◌∙◌, Bool-cases, inl, inr,
}

pub record TidyOptions : Type 0 where
  pub clang_tidy_binary : Text
  pub checks : Text
  -- the name that `mkstemp` gives, when there is a directory for the fixes
  pub fixes_file : Option Text
  pub build_path : Text
  pub header_filter : Option Text
  pub extra_arg : List Text
  pub extra_arg_before : List Text
  pub quiet : Bool
  pub config : Text

-- An option that is left out when its value is empty; `None` and the empty text are both false.
abbrev when_set : String → Text → List Text
when_set option [] = []
when_set option (c ∷ s) = (text option ++ (c ∷ s)) ∷ []

abbrev header_option : Option Text → List Text
header_option none = []
header_option (some header_filter) = (text "-header-filter=" ++ header_filter) ∷ []

abbrev fixes_option : Option Text → List Text
fixes_option none = []
fixes_option (some name) = text "-export-fixes" ∷ name ∷ []

abbrev each : String → List Text → List Text
each option args = map (λ arg. text option ++ arg) args

pub get_tidy_invocation : Text → TidyOptions → List Text
get_tidy_invocation f o =
    o.clang_tidy_binary ∷ header_option o.header_filter
    ++ when_set "-checks=" o.checks
    ++ fixes_option o.fixes_file
    ++ each "-extra-arg=" o.extra_arg
    ++ each "-extra-arg-before=" o.extra_arg_before
    ++ ((text "-p=" ++ o.build_path) ∷ [])
    ++ (if o.quiet then text "-quiet" ∷ [] else [])
    ++ when_set "-config=" o.config
    ++ f ∷ []

-- The arguments that are no options.
abbrev pub positional : List Text → List Text
unfolding starts_with
positional [] = []
positional (a ∷ r) = let rest = positional r in if starts_with a (text "-") then rest else a ∷ rest

-- What follows the program.
abbrev pub arguments : List Text → List Text
arguments [] = []
arguments (program ∷ rest) = rest

cons≢nil : {x : Text} {r : List Text} → x ∷ r ≢ []
cons≢nil e = cc

starts_with-append :
    (a b : Text) → starts_with a (text "-") ≡ true → starts_with (a ++ b) (text "-") ≡ true
unfolding starts_with
starts_with-append [] b h = cc
starts_with-append (c ∷ a) b h = h

positional-append : (a b : List Text) → positional a ≡ [] → positional (a ++ b) ≡ positional b
unfolding starts_with
positional-append [] b h = refl
positional-append (x ∷ a) b h = elim (Bool-cases (starts_with x (text "-"))) [
  | inl e ↦ rw e (positional-append a b (rw e at h))
  | inr e ↦ absurd (cons≢nil (rw e at h))
]

no_more : (a b : List Text) → positional a ≡ [] → positional b ≡ [] → positional (a ++ b) ≡ []
no_more a b h k = positional-append a b h ∙ k

positional-none : positional [] ≡ []
unfolding positional
positional-none = refl

positional-each :
    (option : String) (args : List Text)
    → starts_with (text option) (text "-") ≡ true
    → positional (each option args) ≡ []
unfolding starts_with
positional-each option [] h = refl
positional-each option (a ∷ args) h =
    rw (starts_with-append (text option) a h) (positional-each option args h)

positional-when_set :
    (option : String) (s : Text)
    → starts_with (text option) (text "-") ≡ true
    → positional (when_set option s) ≡ []
unfolding starts_with
positional-when_set option [] h = refl
positional-when_set option (c ∷ s) h = rw (starts_with-append (text option) (c ∷ s) h) refl

checks : (s : Text) → positional (when_set "-checks=" s) ≡ []
unfolding starts_with
checks s = positional-when_set "-checks=" s refl

config_option : (s : Text) → positional (when_set "-config=" s) ≡ []
unfolding starts_with
config_option s = positional-when_set "-config=" s refl

extra : (args : List Text) → positional (each "-extra-arg=" args) ≡ []
unfolding starts_with
extra args = positional-each "-extra-arg=" args refl

extra_before : (args : List Text) → positional (each "-extra-arg-before=" args) ≡ []
unfolding starts_with
extra_before args = positional-each "-extra-arg-before=" args refl

build_option : (s : Text) → positional ((text "-p=" ++ s) ∷ []) ≡ []
unfolding starts_with
build_option s = refl

positional-header : (h : Option Text) → positional (header_option h) ≡ []
unfolding starts_with
positional-header none = refl
positional-header (some s) = refl

positional-quiet : (q : Bool) → positional (if q then text "-quiet" ∷ [] else []) ≡ []
unfolding starts_with
positional-quiet true = refl
positional-quiet false = refl

positional-file : (f : Text) → starts_with f (text "-") ≡ false → positional (f ∷ []) ≡ f ∷ []
unfolding starts_with
positional-file f h = rw h refl

-- Whatever the options are, clang-tidy gets one argument that is no option, the file, when no fixes
-- are exported and the name of the file does not start with a dash.
pub get_tidy_invocation-positional :
    (f : Text) (o : TidyOptions)
    → o.fixes_file ≡ none
    → starts_with f (text "-") ≡ false
    → positional (arguments (get_tidy_invocation f o)) ≡ f ∷ []
unfolding get_tidy_invocation
get_tidy_invocation-positional f o h k = rw h (
    positional-append _ (f ∷ []) (
      no_more _ _
        (no_more _ _
          (no_more _ _
            (no_more _ _
              (no_more _ _
                (no_more _ _ (no_more _ _ (positional-header o.header_filter) (checks o.checks))
                  positional-none)
                (extra o.extra_arg))
              (extra_before o.extra_arg_before))
            (build_option o.build_path))
          (positional-quiet o.quiet))
        (config_option o.config))
    ∙ positional-file f k)
