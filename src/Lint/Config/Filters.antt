-- ===== src/Lint/Config/Filters.antt =====
-- The filters that the configuration files add.
use netproject_c.Prelude.{
  true, false, Option, none, some, List, [], ◌∷◌, ◌++◌, Text, ◌≡◌, refl, all, split_char, and_parts,
  if◌then◌else◌, Option-cases, Bool-cases, inl, inr, ap, sym, ◌∙◌,
}
use mathlib.Core.List.{append-nil, append_assoc}
use netproject_c.Lint.State.{add_filters, clean_filters, is_signed}
use netproject_c.Lint.State.Filters.{add_filters-ok, add_filters-filters, all-append}
use netproject_c.Lint.Config.{
  Session, Overrides, accepted, refused, left_out, add_config_filters, after_addition,
}

-- The filters of several lines, in their order.
unfoldable pub clean_all : List Text → List Text
clean_all [] = []
clean_all (line ∷ lines) = clean_filters (split_char b',' line) ++ clean_all lines

abbrev pub with_filters : Session → List Text → Session
with_filters session fs = record session {
  state = record session.state { filters = session.state.filters ++ fs };
}

abbrev pub accepted_session : Overrides → Option Session
accepted_session (accepted session) = some session
accepted_session (refused session f) = none
accepted_session (left_out session) = none

-- What one line makes of the session.
after_line : Session → Text → Session
after_line session line = record session { state = (add_filters session.state line).0 }

add_config_filters-cons :
    (line : Text) (lines : List Text) (session : Session)
    → add_config_filters (line ∷ lines) session
      ≡ after_addition
          (add_config_filters lines)
          (after_line session line)
          (add_filters session.state line).1
unfolding add_config_filters after_line
add_config_filters-cons line lines session = refl

after_line-with_filters :
    (session : Session) (line : Text)
    → after_line session line ≡ with_filters session (clean_filters (split_char b',' line))
unfolding after_line
after_line-with_filters session line =
    ap (λ st. record session { state = st }) (add_filters-filters session.state line)

with_filters-nil : (session : Session) → some session ≡ some (with_filters session [])
with_filters-nil session =
    ap (λ fs. some (record session { state = record session.state { filters = fs } }))
      (sym (append-nil session.state.filters))

with_filters-append :
    (session : Session) (a b : List Text)
    → with_filters (with_filters session a) b ≡ with_filters session (a ++ b)
with_filters-append session a b =
    ap (λ fs. record session { state = record session.state { filters = fs } })
      (append_assoc session.state.filters a b)

-- The result that the theorem below states.
abbrev added_or_none : Session → List Text → Option Session
added_or_none session fs = if all is_signed fs then some (with_filters session fs) else none

added_or_none-signed :
    (session : Session) (a b : List Text)
    → all is_signed a ≡ true
    → added_or_none (with_filters session a) b ≡ added_or_none session (a ++ b)
added_or_none-signed session a b h =
    rw (all-append is_signed a b, h)
      (ap (λ s. if all is_signed b then some s else none) (with_filters-append session a b))

added_or_none-unsigned :
    (session : Session) (a b : List Text)
    → all is_signed a ≡ false
    → added_or_none session (a ++ b) ≡ none
added_or_none-unsigned session a b h = rw (all-append is_signed a b, h) refl

-- If the filters in force all have a sign, the filters of the configuration files are added behind them,
-- in the order of the given lines, and this is accepted exactly when all that are not blank have a sign.
pub add_config_filters-accepted :
    (lines : List Text) (session : Session)
    → all is_signed session.state.filters ≡ true
    → accepted_session (add_config_filters lines session) ≡ (
        if all is_signed (clean_all lines)
        then some (with_filters session (clean_all lines))
        else none)
unfolding add_config_filters clean_all
add_config_filters-accepted [] session h = with_filters-nil session
add_config_filters-accepted (line ∷ lines) session h =
    let fresh = clean_filters (split_char b',' line) in
    let ok = add_filters-ok session.state line in
    elim (Bool-cases (all is_signed fresh)) [
      | inl signed ↦
          (let added = with_filters session fresh in
            let all_signed : all is_signed added.state.filters ≡ true =
              all-append is_signed session.state.filters fresh ∙ rw (h, signed) refl in
            ap accepted_session (
              add_config_filters-cons line lines session
              ∙ ap (after_addition (add_config_filters lines) (after_line session line))
                  (ok.1 (rw (h, signed) refl))
              ∙ ap (add_config_filters lines) (after_line-with_filters session line))
            ∙ add_config_filters-accepted lines added all_signed
            ∙ added_or_none-signed session fresh (clean_all lines) signed)
      | inr unsigned ↦ elim (Option-cases (add_filters session.state line).1) [
        | inl none_raised ↦
            (let signed =
                (and_parts (all is_signed session.state.filters) (all is_signed fresh)
                  (ok.0 none_raised)).1 in
              cc)
        | inr (f, raised) ↦
            ap accepted_session (
              add_config_filters-cons line lines session
              ∙ ap (after_addition (add_config_filters lines) (after_line session line)) raised)
            ∙ sym (added_or_none-unsigned session fresh (clean_all lines) unsigned)
      ]
    ]
