-- ===== src/Lint/Nesting/Braces.antt =====
-- The tokens of a line, and the blocks that they open and close.
use netproject_c.Prelude.{
  ℕ, true, false, ◌||◌, List, [], ◌∷◌, ◌++◌, Text, ◌≡◌, refl, ◌∙◌, ap, ◌==◌, arith, Bool-cases, inl,
  inr,
}
use netproject_c.Lint.Cleansed.{CleansedLines}
use netproject_c.Lint.Patterns.{matches}
use netproject_c.Lint.Nesting.Blocks.{BlockInfo, block_asm, new_block, new_extern_c}
use netproject_c.Lint.Nesting.{seen_open_brace, token_step, open_block, close_block, match_asm}

-- A token, with the line at its round.
abbrev pub Token : Type 0
Token = Text × ℕ

pub tokens : CleansedLines → ℕ → List Token → List BlockInfo → List BlockInfo
tokens clean_lines linenum [] stack = stack
tokens clean_lines linenum ((line, t) ∷ ts) stack =
    tokens clean_lines linenum ts (token_step clean_lines linenum line t stack).0

-- Tokens whose braces are balanced; a ';' or ')' may stand anywhere.
pub data Balanced : List Token → Type 0 where
  nothing : Balanced []
  mark :
      (line : Text) (t : ℕ) {ts : List Token}
      → (t == b';' || t == b')') ≡ true
      → Balanced ts
      → Balanced ((line, t) ∷ ts)
  braces :
      (line line' : Text) {us ts : List Token}
      → Balanced us
      → Balanced ts
      → Balanced ((line, b'{') ∷ (us ++ ((line', b'}') ∷ ts)))

open_block_lem :
    (linenum : ℕ) (line : Text) (stack : List BlockInfo)
    → (b : BlockInfo) × (open_block linenum line stack ≡ b ∷ stack) × (b.seen_open_brace ≡ true)
unfolding open_block new_block new_extern_c
open_block_lem linenum line stack =
    elim (Bool-cases (matches "^extern\\s*\"[^\"]*\"\\s*\\{" line)) [
      | inl e ↦ (new_extern_c linenum, rw e, refl)
      | inr e ↦ elim (Bool-cases (match_asm line)) [
        | inl f ↦ (record (new_block linenum) { inline_asm = block_asm }, rw (e, f), refl)
        | inr f ↦ (new_block linenum, rw (e, f), refl)
      ]
    ]

mark_not_brace : (t : ℕ) → (t == b';' || t == b')') ≡ true → (t == b'{') ≡ false
mark_not_brace t h = ground arith

token_step-mark :
    (clean_lines : CleansedLines) (linenum : ℕ) (line : Text) (t : ℕ) (stack : List BlockInfo)
    → (t == b';' || t == b')') ≡ true
    → seen_open_brace stack ≡ true
    → (token_step clean_lines linenum line t stack).0 ≡ stack
unfolding token_step
token_step-mark clean_lines linenum line t stack h s = rw (mark_not_brace t h, h, s)

tokens-append :
    (clean_lines : CleansedLines) (linenum : ℕ) (ts us : List Token) (stack : List BlockInfo)
    → tokens clean_lines linenum (ts ++ us) stack
      ≡ tokens clean_lines linenum us (tokens clean_lines linenum ts stack)
unfolding tokens
tokens-append clean_lines linenum [] us stack = refl
tokens-append clean_lines linenum ((line, t) ∷ ts) us stack =
    tokens-append clean_lines linenum ts us (token_step clean_lines linenum line t stack).0

token_step-open :
    (clean_lines : CleansedLines) (linenum : ℕ) (line : Text) (stack : List BlockInfo)
    → seen_open_brace stack ≡ true
    → (token_step clean_lines linenum line b'{' stack).0 ≡ open_block linenum line stack
unfolding token_step
token_step-open clean_lines linenum line stack s = rw s

token_step-close :
    (clean_lines : CleansedLines) (linenum : ℕ) (line : Text) (b : BlockInfo)
    (stack : List BlockInfo)
    → (token_step clean_lines linenum line b'}' (b ∷ stack)).0 ≡ stack
unfolding token_step close_block
token_step-close clean_lines linenum line b stack = refl

-- Where the innermost block has its opening brace, tokens with balanced braces leave the stack of
-- blocks as it was, wherever a ';' or ')' stands among them.
pub tokens-Balanced :
    (clean_lines : CleansedLines) (linenum : ℕ) {ts : List Token} (stack : List BlockInfo)
    → Balanced ts
    → seen_open_brace stack ≡ true
    → tokens clean_lines linenum ts stack ≡ stack
unfolding tokens
tokens-Balanced clean_lines linenum stack nothing s = refl
tokens-Balanced clean_lines linenum stack (mark line t {ts} h b) s =
    ap (tokens clean_lines linenum ts) (token_step-mark clean_lines linenum line t stack h s)
    ∙ tokens-Balanced clean_lines linenum stack b s
tokens-Balanced clean_lines linenum stack (braces line line' {us} {ts} b b') s =
    let (top, pushed, seen) = open_block_lem linenum line stack in
    ap (tokens clean_lines linenum (us ++ ((line', b'}') ∷ ts)))
      (token_step-open clean_lines linenum line stack s ∙ pushed)
    ∙ tokens-append clean_lines linenum us ((line', b'}') ∷ ts) (top ∷ stack)
    ∙ ap (tokens clean_lines linenum ((line', b'}') ∷ ts))
        (tokens-Balanced clean_lines linenum (top ∷ stack) b (unfold seen_open_brace in seen))
    ∙ ap (tokens clean_lines linenum ts) (token_step-close clean_lines linenum line' top stack)
    ∙ tokens-Balanced clean_lines linenum stack b' s
