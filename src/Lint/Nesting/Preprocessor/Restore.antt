-- ===== src/Lint/Nesting/Preprocessor/Restore.antt =====
-- The nesting stack across a conditional block.
use netproject_c.Prelude.{
  ℕ, zero, suc, Bool, true, false, Option, none, some, List, [], ◌∷◌, ◌++◌, ◌≡◌, refl, ◌∙◌, ap,
  if◌then◌else◌, length, arith,
}
use netproject_c.Lint.Nesting.Preprocessor.{
  PreprocessorInfo, Directive, begin_if, begin_else, end_if, no_directive, Stacks, push_if,
  turn_else, pop_if, directive_step,
}

some_inj : {a b : ℕ} → ◌≡◌ {A = Option ℕ} (some a) (some b) → a ≡ b
some_inj h = cc

if_holds {ℓ} : {A : Type ℓ} (b : Bool) (x y : A) → b ≡ true → (if b then x else y) ≡ x
if_holds true x y h = refl
if_holds false x y h = cc

nil_of_length {ℓ} : {A : Type ℓ} (xs : List A) → length xs ≡ 0 → xs ≡ []
nil_of_length [] h = refl
nil_of_length (x ∷ xs) h = absurd (omega arith)

-- What happens while lines are read: directives, and any change of the nesting stack.
pub data Event (B : Type 0) : Type 0 where
  on : Directive → Event B
  change : (List B → List B) → Event B

module _ {B : Type 0} where
  pub event : Event B → Stacks B → Stacks B
  event (on d) s = directive_step d s
  event (change f) s = (f s.0, s.1)

  pub run : List (Event B) → Stacks B → Stacks B
  run [] s = s
  run (e ∷ es) s = run es (event e s)

  -- How many conditional blocks are open after the events, of those opened by them and `n` more that
  -- they may close; `none` if they close another one or, unless `elses`, turn to its `#else`.
  unfoldable pub depth : Bool → ℕ → List (Event B) → Option ℕ
  depth elses n [] = some n
  depth elses n (change f ∷ es) = depth elses n es
  depth elses n (on no_directive ∷ es) = depth elses n es
  depth elses n (on begin_if ∷ es) = depth elses (suc n) es
  depth elses (suc n) (on begin_else ∷ es) = depth elses (suc n) es
  depth elses zero (on begin_else ∷ es) =
      let rest = depth elses zero es in if elses then rest else none
  depth elses (suc n) (on end_if ∷ es) = depth elses n es
  depth elses zero (on end_if ∷ es) = none

  run-append : (es fs : List (Event B)) (s : Stacks B) → run (es ++ fs) s ≡ run fs (run es s)
  unfolding run
  run-append [] fs s = refl
  run-append (e ∷ es) fs s = run-append es fs (event e s)

  -- Infos further down do not matter, and stay.
  framed :
      (es : List (Event B)) (st : List B) (above pp : List (PreprocessorInfo B)) (m : ℕ)
      → depth false (length above) es ≡ some m
      → (run es (st, above ++ pp) ≡ ((run es (st, above)).0, (run es (st, above)).1 ++ pp))
        × (length (run es (st, above)).1 ≡ m)
  unfolding run depth event directive_step push_if turn_else pop_if
  framed [] st above pp m h = (refl, some_inj h)
  framed (change f ∷ es) st above pp m h = framed es (f st) above pp m h
  framed (on no_directive ∷ es) st above pp m h = framed es st above pp m h
  framed (on begin_if ∷ es) st above pp m h =
      framed es st
        (record { stack_before_if = st; stack_before_else = []; seen_else = false } ∷ above) pp m h
  framed (on begin_else ∷ es) st [] pp m h = cc
  framed (on begin_else ∷ es) st (info ∷ above) pp m h =
      framed es info.stack_before_if
        ((if info.seen_else then info else record info { seen_else = true; stack_before_else = st })
          ∷ above)
        pp m h
  framed (on end_if ∷ es) st [] pp m h = cc
  framed (on end_if ∷ es) st (info ∷ above) pp m h =
      framed es (if info.seen_else then info.stack_before_else else st) above pp m h

  -- An info that has seen its `#else` is not changed any more.
  settled :
      (es : List (Event B)) (st : List B) (above pp : List (PreprocessorInfo B))
      (info : PreprocessorInfo B) (m : ℕ)
      → info.seen_else ≡ true
      → depth true (length above) es ≡ some m
      → (st' : List B) × (above' : List (PreprocessorInfo B)) × (run es (st, above ++ (info ∷ pp))
          ≡ (st', above' ++ (info ∷ pp)))
        × (length above' ≡ m)
  unfolding run depth event directive_step push_if turn_else pop_if
  settled [] st above pp info m s h = (st, above, refl, some_inj h)
  settled (change f ∷ es) st above pp info m s h = settled es (f st) above pp info m s h
  settled (on no_directive ∷ es) st above pp info m s h = settled es st above pp info m s h
  settled (on begin_if ∷ es) st above pp info m s h =
      settled es st
        (record { stack_before_if = st; stack_before_else = []; seen_else = false } ∷ above) pp info
        m s h
  settled (on begin_else ∷ es) st [] pp info m s h =
      rw (if_holds info.seen_else info (record info { seen_else = true; stack_before_else = st }) s)
        (settled es info.stack_before_if [] pp info m s h)
  settled (on begin_else ∷ es) st (i ∷ above) pp info m s h =
      settled es i.stack_before_if
        ((if i.seen_else then i else record i { seen_else = true; stack_before_else = st }) ∷ above)
        pp info m s h
  settled (on end_if ∷ es) st [] pp info m s h = cc
  settled (on end_if ∷ es) st (i ∷ above) pp info m s h =
      settled es (if i.seen_else then i.stack_before_else else st) above pp info m s h

  -- A closed run of events: what it opens it closes, and it turns to no `#else` of another block.
  abbrev pub IsClosed : List (Event B) → Type 0
  IsClosed es = depth false 0 es ≡ some 0

  -- The rest of a block from its first `#else` on: other branches may follow.
  abbrev pub IsBranches : List (Event B) → Type 0
  IsBranches es = depth true 0 es ≡ some 0

  -- A closed run leaves the stack of conditional blocks as it was.
  pub run-IsClosed :
      (es : List (Event B)) (st : List B) (pp : List (PreprocessorInfo B))
      → IsClosed es
      → run es (st, pp) ≡ ((run es (st, [])).0, pp)
  run-IsClosed es st pp h =
      let f = framed es st [] pp 0 h in
      f.0 ∙ ap (λ xs. ((run es (st, [])).0, xs ++ pp)) (nil_of_length _ f.1)

  abbrev opened : List B → PreprocessorInfo B
  opened st = record { stack_before_if = st; stack_before_else = []; seen_else = false }

  run-begin_if :
      (es : List (Event B)) (st : List B) (pp : List (PreprocessorInfo B))
      → run (on begin_if ∷ es) (st, pp) ≡ run es (st, opened st ∷ pp)
  unfolding run event directive_step push_if
  run-begin_if es st pp = refl

  without_else :
      (first : List (Event B)) (st : List B) (pp : List (PreprocessorInfo B))
      → IsClosed first
      → run (on begin_if ∷ (first ++ (on end_if ∷ []))) (st, pp) ≡ ((run first (st, [])).0, pp)
  without_else first st pp h =
      run-begin_if (first ++ (on end_if ∷ [])) st pp
      ∙ run-append first (on end_if ∷ []) (st, opened st ∷ pp)
      ∙ ap (run (on end_if ∷ [])) (run-IsClosed first st (opened st ∷ pp) h)
      ∙ unfold run event directive_step pop_if in refl

  -- From the first `#else` to the `#endif`.
  else_tail :
      (others : List (Event B)) (st₁ st : List B) (pp : List (PreprocessorInfo B))
      → IsBranches others
      → run (on begin_else ∷ (others ++ (on end_if ∷ []))) (st₁, opened st ∷ pp) ≡ (st₁, pp)
  unfolding run event directive_step turn_else pop_if
  else_tail others st₁ st pp k =
      let info = record (opened st) { seen_else = true; stack_before_else = st₁ } in
      let (st', above, ran, size) = settled others st [] pp info 0 refl k in
      run-append others (on end_if ∷ []) (st, info ∷ pp)
      ∙ ap (run (on end_if ∷ []))
          (ran ∙ ap (λ xs. (st', xs ++ (info ∷ pp))) (nil_of_length above size))

  with_else :
      (first others : List (Event B)) (st : List B) (pp : List (PreprocessorInfo B))
      → IsClosed first
      → IsBranches others
      → run (on begin_if ∷ (first ++ (on begin_else ∷ (others ++ (on end_if ∷ []))))) (st, pp)
        ≡ ((run first (st, [])).0, pp)
  with_else first others st pp h k =
      let tail = on begin_else ∷ (others ++ (on end_if ∷ [])) in
      let st₁ = (run first (st, [])).0 in
      run-begin_if (first ++ tail) st pp
      ∙ run-append first tail (st, opened st ∷ pp)
      ∙ ap (run tail) (run-IsClosed first st (opened st ∷ pp) h)
      ∙ else_tail others st₁ st pp k

  -- Let the first branch close the conditional blocks that it opens, and the others too, where they may
  -- turn to further branches of this one. After the conditional block the nesting stack is what its first branch made of the stack before it,
  -- whatever the other branches did, and the stack of conditional blocks is as it was.
  pub run_conditional :
      (first others : List (Event B)) (st : List B) (pp : List (PreprocessorInfo B))
      → IsClosed first
      → IsBranches others
      → (run (on begin_if ∷ (first ++ (on end_if ∷ []))) (st, pp) ≡ ((run first (st, [])).0, pp))
        × (run (on begin_if ∷ (first ++ (on begin_else ∷ (others ++ (on end_if ∷ []))))) (st, pp)
            ≡ ((run first (st, [])).0, pp))
  run_conditional first others st pp h k =
      (without_else first st pp h, with_else first others st pp h k)
