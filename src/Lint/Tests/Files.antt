-- ===== src/Lint/Tests/Files.antt =====
-- Runs of the functions on the names of files, their headers and their configuration.
use netproject_c.Prelude.{
  true, false, not, ◌&&◌, ◌||◌, none, some, List, [], ◌∷◌, ◌++◌, Text, text, ◌≡◌, refl, arith, all,
  same, length, one_of, starts_with, if◌then◌else◌,
}
use netproject_c.Lint.Patterns.{escape}
use netproject_c.Lint.Settings.{Settings, is_header_extension, is_source_extension}
use netproject_c.Lint.Settings.Extensions.{
  with_extensions, with_both, listed, has_h, is_header_extension-process_extensions_option,
}
use netproject_c.Lint.Cleansed.{CleansedLines, init}
use netproject_c.Lint.State.{CppLintState, is_signed}
use netproject_c.Lint.IncludeState.{IncludeState, find_header, first_of_two}
use netproject_c.Lint.HeaderGuard.{get_header_guard_cpp_variable}
use netproject_c.Lint.HeaderGuard.Name.{is_guard_char, get_header_guard_cpp_variable-is_guard_char}
use netproject_c.Lint.Includes.{take_include}
use netproject_c.Lint.Includes.Entered.{is_entered, find_header-take_include}
use netproject_c.Lint.Required.{Need, check_for_include_what_you_use}
use netproject_c.Lint.Required.Order.{in_order, check_for_include_what_you_use-in_order}
use netproject_c.Lint.Config.{Session, Outside, Progress, search_configs, add_config_filters}
use netproject_c.Lint.Config.Climb.{search_configs-enough}
use netproject_c.Lint.Config.Filters.{
  accepted_session, clean_all, with_filters, add_config_filters-accepted,
}

abbrev settings : Settings
settings = record {
  line_length = 80;
  hpp_headers = [];
  valid_extensions = [];
  root = [];
  repository = [];
  exists = λ path. same path (text "/p/.git") || same path (text "/p/a/b.h");
  absolute_path = λ path. text "/p/" ++ path;
  normalize = λ line. line;
  is_wide = λ c. false;
  is_combining = λ c. false;
}

is_header_extension-process_extensions_option_example :
    (is_header_extension (with_extensions settings (text "cc, hpp,cuh")) (text "hpp")
      ≡ (one_of (text "hpp") (listed (text "cc, hpp,cuh")) && has_h (text "hpp")))
    × (is_source_extension (with_extensions settings (text "cc, hpp,cuh")) (text "hpp")
        ≡ (one_of (text "hpp") (listed (text "cc, hpp,cuh")) && not (has_h (text "hpp"))))
    × (is_header_extension (with_both settings (text "cc, hpp,cuh") (text "cuh")) (text "hpp")
        ≡ one_of (text "hpp") (listed (text "cuh")))
    × (is_source_extension (with_both settings (text "cc, hpp,cuh") (text "cuh")) (text "hpp") ≡ (
        one_of (text "hpp") (listed (text "cc, hpp,cuh"))
        && not (one_of (text "hpp") (listed (text "cuh")))))
is_header_extension-process_extensions_option_example =
    is_header_extension-process_extensions_option settings (text "cc, hpp,cuh") (text "cuh")
      (text "hpp") refl

get_header_guard_cpp_variable_example :
    (all is_guard_char (get_header_guard_cpp_variable settings (text "a/b-c.h")) ≡ true)
    × (escape (get_header_guard_cpp_variable settings (text "a/b-c.h"))
        ≡ get_header_guard_cpp_variable settings (text "a/b-c.h"))
get_header_guard_cpp_variable_example =
    get_header_guard_cpp_variable-is_guard_char settings (text "a/b-c.h")

abbrev includes : IncludeState
includes = record {
  include_list = ((text "stdio.h", 1) ∷ []) ∷ [];
  section = 2;
  last_header = text "stdio.h";
}

abbrev lines : CleansedLines
lines =
    init (text "#include <stdio.h>" ∷ text "#include \"a/b.h\"" ∷ text "std::vector<int> v;" ∷ [])

find_header-take_include_example :
    find_header
      (take_include settings
        (text "a/b.c")
        lines
        2
        includes
        (text "a/b.h")
        false
        (find_header includes (text "a/b.h"))).0
      (text "a/b.h")
    ≡ first_of_two (find_header includes (text "a/b.h")) (
        if is_entered settings (text "a/b.c") includes (text "a/b.h")
          && same (text "a/b.h") (text "a/b.h")
        then some 2
        else none)
find_header-take_include_example =
    find_header-take_include settings (text "a/b.c") lines 2 includes (text "a/b.h") (text "a/b.h")
      false (λ e. cc)

check_for_include_what_you_use_example :
    in_order 0
      (length lines.elided)
      (check_for_include_what_you_use (λ path. none) settings (text "a/b.h") lines includes)
    ≡ true
check_for_include_what_you_use_example =
    check_for_include_what_you_use-in_order (λ path. none) settings (text "a/b.h") lines includes

abbrev needs : List Need
needs =
    record { header = text "<vector>"; linenum = 7; template = text "vector<>" }
    ∷ record { header = text "<string>"; linenum = 3; template = text "string" }
    ∷ record { header = text "<map>"; linenum = 5; template = text "map<>" }
    ∷ []

abbrev outside : Outside
outside = record {
  config = λ path.
      if same path (text "/p/CPPLINT.cfg")
      then some (some (text "filter=-whitespace,+build\n" ∷ []))
      else none;
  matches_name = λ pattern name. false;
  int = λ s. none;
}

abbrev state : CppLintState
state = record {
  verbose_level = 1;
  error_count = 0;
  filters = text "-legal" ∷ [];
  filters_backup = [];
  counting = text "total";
  errors_by_category = [];
  quiet = false;
  output_format = text "emacs";
  junit_failures = [];
}

abbrev session : Session
session = record { settings = settings; state = state; junit_errors = []; stdout = []; stderr = [] }

abbrev progress : Progress
progress = record { session = session; keep_looking = true; cfg_filters = [] }

search_configs-enough_example :
    search_configs 9 outside (text "a/b.c") (text "/p/a/b.c") progress
    ≡ search_configs 40 outside (text "a/b.c") (text "/p/a/b.c") progress
search_configs-enough_example =
    search_configs-enough outside (text "a/b.c") (text "/p/a/b.c") 9 40 progress (omega arith)
      (omega arith)

abbrev filter_lines : List Text
filter_lines = text "-build, +build/include" ∷ text " " ∷ text "+runtime" ∷ []

add_config_filters-accepted_example : accepted_session (add_config_filters filter_lines session) ≡ (
    if all is_signed (clean_all filter_lines)
    then some (with_filters session (clean_all filter_lines))
    else none)
unfolding starts_with
add_config_filters-accepted_example = add_config_filters-accepted filter_lines session refl
