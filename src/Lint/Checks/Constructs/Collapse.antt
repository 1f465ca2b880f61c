-- ===== src/Lint/Checks/Constructs/Collapse.antt =====
-- What the collapsing of constructor arguments keeps, and when it fails.
use netproject_c.Prelude.{
  ℕ, ◌+◌, ◌≤◌, ◌<◌, Bool, true, false, ◌&&◌, leb, Option, none, some, List, [], ◌∷◌, ◌++◌, Text,
  text, join, all, ◌≡◌, ◌≢◌, refl, ap, ◌∙◌, sym, Bool-cases, Option-cases, and_parts, inl, inr,
  arith, subst, count, starts_with,
}
use mathlib.Core.List.{append_assoc}
use netproject_c.Lint.Checks.Constructs.{is_open, collapse_from, collapse_arguments}

-- No more < than > and no more ( than ).
abbrev pub is_settled : Text → Bool
unfolding count
is_settled arg =
    leb (count (text "<") arg) (count (text ">") arg)
    && leb (count (text "(") arg) (count (text ")") arg)

settled_of_closed : (arg : Text) → is_open arg ≡ false → is_settled arg ≡ true
unfolding is_open
settled_of_closed arg h = ground arith

-- The arguments that come out read as those that went in, and all of them are settled.
pub record Collapsed (args out : List Text) : Type 0 where
  pub first : Text
  pub others : List Text
  pub shape : out ≡ first ∷ others
  pub same_text : join (text ",") out ≡ join (text ",") args
  pub settled : all is_settled out ≡ true

join-cons :
    (x y : Text) (r : List Text)
    → join (text ",") (x ∷ y ∷ r) ≡ x ++ text "," ++ join (text ",") (y ∷ r)
unfolding join
join-cons x y r = refl

join-single : (x : Text) → join (text ",") (x ∷ []) ≡ x
unfolding join
join-single x = refl

-- The comma that joins two arguments is the one that the join puts there.
join-merge :
    (x y : Text) (r : List Text)
    → join (text ",") ((x ++ text "," ++ y) ∷ r) ≡ join (text ",") (x ∷ y ∷ r)
unfolding join
join-merge x y [] = refl
join-merge x y (z ∷ r) = simp append_assoc

none≢some : {a : List Text} → none ≢ some a
none≢some h = cc

some_inj : {a b : List Text} → ◌≡◌ {A = Option (List Text)} (some a) (some b) → a ≡ b
some_inj h = cc

alone : (arg : Text) → is_open arg ≡ false → Collapsed (arg ∷ []) (arg ∷ [])
alone arg h = record {
  first = arg;
  others = [];
  shape = refl;
  same_text = refl;
  settled = rw (settled_of_closed arg h) refl;
}

front_text :
    (arg next : Text) (args out : List Text)
    → Collapsed (next ∷ args) out
    → join (text ",") (arg ∷ out) ≡ join (text ",") (arg ∷ next ∷ args)
front_text arg next args out c =
    ap (λ r. join (text ",") (arg ∷ r)) c.shape
    ∙ join-cons arg c.first c.others
    ∙ ap (λ t. arg ++ text "," ++ t) (sym (ap (join (text ",")) c.shape) ∙ c.same_text)
    ∙ sym (join-cons arg next args)

in_front :
    (arg next : Text) (args : List Text) (out : List Text)
    → is_open arg ≡ false
    → Collapsed (next ∷ args) out
    → Collapsed (arg ∷ next ∷ args) (arg ∷ out)
in_front arg next args out h c = record {
  first = arg;
  others = out;
  shape = refl;
  same_text = front_text arg next args out c;
  settled = rw (settled_of_closed arg h) c.settled;
}

collapse_from-Collapsed :
    (arg : Text) (args : List Text) (out : List Text)
    → collapse_from arg args ≡ some out
    → Collapsed (arg ∷ args) out
unfolding collapse_from
collapse_from-Collapsed arg [] out e = elim (Bool-cases (is_open arg)) [
  | inl h ↦ absurd (none≢some (rw h at e))
  | inr h ↦ subst (Collapsed (arg ∷ [])) (some_inj (rw h at e)) (alone arg h)
]
collapse_from-Collapsed arg (next ∷ args) out e = elim (Bool-cases (is_open arg)) [
  | inl h ↦
      let merged = collapse_from-Collapsed (arg ++ text "," ++ next) args out (rw h at e) in
      record {
        first = merged.first;
        others = merged.others;
        shape = merged.shape;
        same_text = merged.same_text ∙ join-merge arg next args;
        settled = merged.settled;
      }
  | inr h ↦ elim (Option-cases (collapse_from next args)) [
    | inl raised ↦ absurd (none≢some (rw (h, raised) at e))
    | inr (rest, ended) ↦
        subst (Collapsed (arg ∷ next ∷ args)) (some_inj (rw (h, ended) at e))
          (in_front arg next args rest h (collapse_from-Collapsed next args rest ended))
  ]
]

-- The arguments that are left when the loop ends read as those that it began with, and none of them
-- has more < than > or more ( than ).
pub collapse_arguments-Collapsed :
    (arg : Text) (args out : List Text)
    → collapse_arguments (arg ∷ args) ≡ some out
    → Collapsed (arg ∷ args) out
unfolding collapse_arguments
collapse_arguments-Collapsed arg args out e = collapse_from-Collapsed arg args out e

module _ (c : ℕ) where
  count_append : (a b : Text) → count (c ∷ []) (a ++ b) ≡ count (c ∷ []) a + count (c ∷ []) b
  unfolding count starts_with
  count_append [] b = omega arith
  count_append (x ∷ a) b = ground (arith, count_append a b)

no_opened : count (text "<") (text ",") ≡ 0
unfolding count
no_opened = refl

no_closed : count (text ">") (text ",") ≡ 0
unfolding count
no_closed = refl

closed_of_settled :
    (arg : Text) → is_settled arg ≡ true → count (text "<") arg ≤ count (text ">") arg
unfolding is_settled
closed_of_settled arg h =
    let angles = (and_parts (leb (count (text "<") arg) (count (text ">") arg)) _ h).0 in
    ground arith

join_settled :
    (args : List Text)
    → all is_settled args ≡ true
    → count (text "<") (join (text ",") args) ≤ count (text ">") (join (text ",") args)
join_settled [] h = unfold join count in omega arith
join_settled (x ∷ []) h = rw (join-single x) (closed_of_settled x (and_parts _ _ h).0)
join_settled (x ∷ y ∷ r) h =
    let (here, later) = and_parts (is_settled x) _ h in
    rw (join-cons x y r) (
      omega (
        arith,
        closed_of_settled x here,
        join_settled (y ∷ r) later,
        count_append b'<' (x ++ text ",") (join (text ",") (y ∷ r)),
        count_append b'>' (x ++ text ",") (join (text ",") (y ∷ r)),
        count_append b'<' x (text ","),
        count_append b'>' x (text ","),
        no_opened,
        no_closed,
      ))

-- Where the argument list has more `<` than `>`, the loop runs past the end of the list, whatever the
-- commas are.
pub collapse_arguments-unbalanced :
    (arg : Text) (args : List Text)
    → count (text ">") (join (text ",") (arg ∷ args))
      < count (text "<") (join (text ",") (arg ∷ args))
    → collapse_arguments (arg ∷ args) ≡ none
collapse_arguments-unbalanced arg args h = elim (Option-cases (collapse_arguments (arg ∷ args))) [
  | inl raised ↦ raised
  | inr (out, ended) ↦
      let c = collapse_arguments-Collapsed arg args out ended in
      let balanced = join_settled out c.settled in
      absurd (omega (arith, ap (count (text "<")) c.same_text, ap (count (text ">")) c.same_text))
]
