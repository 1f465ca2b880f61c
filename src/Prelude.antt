-- ===== src/Prelude.antt =====
-- The names that the other modules share: those of the libraries, and those of three children.
mod Tests
mod Lists
mod Ints
mod Strings
mod Slices
mod Paths
pub use Tests.*
pub use Ints.*
pub use Lists.*
unfoldable pub use Strings.{
  same, one_of, text_lt, starts_with, ends_with, find, is_space, lstrip, rstrip, strip, to_lower,
  to_upper, lower, split_char, replace, replace_go, count, join, show,
}
pub use Strings.{Text, text, same_iff}
unfoldable pub use Slices.{
  is_some, or_zero, is_empty, rfind, find_from, occurs, slice_from, line_before, split_text, words,
  last_or, replicate,
}
pub use Prim.Native.Nat.{ℕ, zero, suc, ◌+◌, ◌-◌, ◌*◌, ◌/◌, ◌%◌, ◌^◌, ◌≤◌, ◌<◌}
pub use Prim.Native.String.{String}
pub use mathlib.Core.Path.{◌≡◌, refl, sym, ap, ◌∙◌, subst}
pub use mathlib.Core.Logic.{◌≢◌, ◌↔◌, ◌⊎◌, inl, inr}
pub use mathlib.Core.Bool.{Bool, true, false, not, ◌&&◌, ◌||◌}
pub use mathlib.Core.Option.{Option, none, some}
pub use mathlib.Core.List.{List, [], ◌∷◌, ◌++◌, map, reverse}
pub use native.Mathlib.Omega.{arith}
unfoldable pub use Paths.{
  split_path, dirname, split_extension, join_path, normal_path, relative_path, common_prefix,
}
pub use Paths.{length-split_path}
