-- ===== src/Lint/Tests/Stacks.antt =====
-- Runs of the nesting state.
use netproject_c.Prelude.{ℕ, List, [], ◌∷◌, ◌++◌, text, ◌≡◌, refl}
use netproject_c.Lint.Cleansed.{CleansedLines}
use netproject_c.Lint.Nesting.{seen_open_brace}
use netproject_c.Lint.Nesting.Blocks.{new_block}
use netproject_c.Lint.Nesting.Braces.{Token, tokens, nothing, mark, braces, tokens-Balanced}
use netproject_c.Lint.Nesting.Preprocessor.{begin_if, begin_else, end_if}
use netproject_c.Lint.Nesting.Preprocessor.Restore.{Event, on, change, run, depth, run_conditional}

abbrev first : List (Event ℕ)
first = change (λ st. 7 ∷ st) ∷ on begin_if ∷ on end_if ∷ []

abbrev others : List (Event ℕ)
others = change (λ st. 8 ∷ 9 ∷ st) ∷ on begin_else ∷ []

run_conditional_example :
    (run (on begin_if ∷ (first ++ (on end_if ∷ []))) (1 ∷ [], [])
      ≡ ((run first (1 ∷ [], [])).0, []))
    × (run (on begin_if ∷ (first ++ (on begin_else ∷ (others ++ (on end_if ∷ []))))) (1 ∷ [], [])
        ≡ ((run first (1 ∷ [], [])).0, []))
unfolding depth
run_conditional_example = run_conditional first others (1 ∷ []) [] refl refl

abbrev clean_lines : CleansedLines
clean_lines = record {
  elided = text "{ f(); { } }" ∷ [];
  lines = [];
  raw_lines = [];
  num_lines = 1;
  lines_without_raw_strings = [];
}

abbrev line_tokens : List Token
line_tokens =
    (text "{ f(); { } }", b'{')
    ∷ (text ";  { } }", b';')
    ∷ (text "{ } }", b'{')
    ∷ (text "} }", b'}')
    ∷ (text "}", b'}')
    ∷ []

tokens-Balanced_example : tokens clean_lines 0 line_tokens (new_block 0 ∷ []) ≡ new_block 0 ∷ []
unfolding seen_open_brace new_block
tokens-Balanced_example =
    tokens-Balanced clean_lines 0 (new_block 0 ∷ [])
      (braces (text "{ f(); { } }") (text "}")
        (mark (text ";  { } }") b';' refl (braces (text "{ } }") (text "} }") nothing nothing))
        nothing)
      refl
