-- ===== src/Prelude.antt =====
-- The names that the other modules share: the libraries', passed on, and those of three children.
mod Tests
mod Lists
mod Text
pub mod Sort
pub use Tests.*
pub use Lists.{
  length, length-append, All, In, All-In, All-of_In, All-filter, In-filter, In-filter_of,
  filter-filter, In-append, In-append_left, In-append_right, In-map, In-map_of, In-filter_map,
  In-filter_map_of,
}
unfoldable pub use Lists.{filter, any, filter_map}
pub use Text.{
  codes, starts_with, starts_line, first_line, elem, append, letters, is_blank, strip-strip,
}
unfoldable pub use Text.{strip, occurs_in, is_break, splitlines}
pub use Prim.Native.Nat.{ℕ, zero, suc, ◌+◌, ◌-◌, ◌*◌, ◌/◌, ◌%◌, ◌≤◌, ◌<◌}
pub use Prim.Native.String.{String}
pub use mathlib.Core.Path.{◌≡◌, refl, sym, ap, subst, subst₂, ◌∙◌}
pub use mathlib.Core.Logic.{◌≢◌, ◌↔◌, ◌⊎◌, inl, inr}
pub use mathlib.Core.Bool.{Bool, true, false, not, ◌&&◌, ◌||◌}
pub use mathlib.Core.Option.{Option, none, some}
pub use mathlib.Core.List.{List, [], ◌∷◌, ◌++◌, map}
pub use native.Mathlib.Omega.{arith}
pub use text.Mathlib.Text.{◌==◌}
pub use text.Mathlib.TextEquality.{eq_iff}
pub use text.Mathlib.TextPositions.{eq_refl}
