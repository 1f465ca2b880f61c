-- ===== src/Lint/Required/Tables.antt =====
-- cpplint.py, `_HEADERS_CONTAINING_TEMPLATES` and `_HEADERS_MAYBE_TEMPLATES`, and the lists of patterns
-- that are made of them.
use netproject_c.Prelude.{List, [], ◌∷◌, ◌++◌, Text, text, map}

abbrev headers_containing_templates : List (Text × List Text)
headers_containing_templates =
    (text "<deque>", text "deque" ∷ [])
    ∷ (
      text "<functional>",
      text "unary_function"
          ∷ text "binary_function"
          ∷ text "plus"
          ∷ text "minus"
          ∷ text "multiplies"
          ∷ text "divides"
          ∷ text "modulus"
          ∷ text "negate"
          ∷ text "equal_to"
          ∷ text "not_equal_to"
          ∷ text "greater"
          ∷ text "less"
          ∷ text "greater_equal"
          ∷ text "less_equal"
          ∷ text "logical_and"
          ∷ text "logical_or"
          ∷ text "logical_not"
          ∷ text "unary_negate"
          ∷ text "not1"
          ∷ text "binary_negate"
          ∷ text "not2"
          ∷ text "bind1st"
          ∷ text "bind2nd"
          ∷ text "pointer_to_unary_function"
          ∷ text "pointer_to_binary_function"
          ∷ text "ptr_fun"
          ∷ text "mem_fun_t"
          ∷ text "mem_fun"
          ∷ text "mem_fun1_t"
          ∷ text "mem_fun1_ref_t"
          ∷ text "mem_fun_ref_t"
          ∷ text "const_mem_fun_t"
          ∷ text "const_mem_fun1_t"
          ∷ text "const_mem_fun_ref_t"
          ∷ text "const_mem_fun1_ref_t"
          ∷ text "mem_fun_ref"
          ∷ [],
    )
    ∷ (text "<limits>", text "numeric_limits" ∷ [])
    ∷ (text "<list>", text "list" ∷ [])
    ∷ (text "<map>", text "multimap" ∷ [])
    ∷ (
      text "<memory>",
      text "allocator"
          ∷ text "make_shared"
          ∷ text "make_unique"
          ∷ text "shared_ptr"
          ∷ text "unique_ptr"
          ∷ text "weak_ptr"
          ∷ [],
    )
    ∷ (text "<queue>", text "queue" ∷ text "priority_queue" ∷ [])
    ∷ (text "<set>", text "multiset" ∷ [])
    ∷ (text "<stack>", text "stack" ∷ [])
    ∷ (text "<string>", text "char_traits" ∷ text "basic_string" ∷ [])
    ∷ (text "<tuple>", text "tuple" ∷ [])
    ∷ (text "<unordered_map>", text "unordered_map" ∷ text "unordered_multimap" ∷ [])
    ∷ (text "<unordered_set>", text "unordered_set" ∷ text "unordered_multiset" ∷ [])
    ∷ (text "<utility>", text "pair" ∷ [])
    ∷ (text "<vector>", text "vector" ∷ [])
    ∷ (text "<hash_map>", text "hash_map" ∷ text "hash_multimap" ∷ [])
    ∷ (text "<hash_set>", text "hash_set" ∷ text "hash_multiset" ∷ [])
    ∷ (text "<slist>", text "slist" ∷ [])
    ∷ []

abbrev headers_maybe_templates : List (Text × List Text)
headers_maybe_templates =
    (
      text "<algorithm>",
      text "copy"
          ∷ text "max"
          ∷ text "min"
          ∷ text "min_element"
          ∷ text "sort"
          ∷ text "transform"
          ∷ [],
    )
    ∷ (text "<utility>", text "forward" ∷ text "make_pair" ∷ text "move" ∷ text "swap" ∷ [])
    ∷ []

-- A pattern, the template that it finds, and the header of the template.
pub record Pattern : Type 0 where
  pub pattern : Text
  pub template : Text
  pub header : Text

abbrev patterns_of : (Text → Text → Pattern) → List (Text × List Text) → List Pattern
patterns_of f [] = []
patterns_of f ((header, templates) ∷ rows) = map (f header) templates ++ patterns_of f rows

-- `_re_pattern_headers_maybe_templates`
pub re_pattern_headers_maybe_templates : List Pattern
re_pattern_headers_maybe_templates =
    patterns_of
      (λ header template. record {
        pattern = text "[^>.]\\b" ++ template ++ text "(<.*?>)?\\([^\\)]";
        template = template;
        header = header;
      })
      headers_maybe_templates
    ++ record {
      pattern = text "[^>.]\\bset\\s*\\<";
      template = text "set<>";
      header = text "<set>";
    }
      ∷ record {
        pattern = text "(std\\b::\\bmap\\s*\\<)|(^(std\\b::\\b)map\\b\\(\\s*\\<)";
        template = text "map<>";
        header = text "<map>";
      }
      ∷ []

-- `_re_pattern_templates`
pub re_pattern_templates : List Pattern
re_pattern_templates =
    patterns_of
      (λ header template. record {
        pattern = text "(\\<|\\b)" ++ template ++ text "\\s*\\<";
        template = template ++ text "<>";
        header = header;
      })
      headers_containing_templates
