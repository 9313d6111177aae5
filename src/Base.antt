-- ===== src/Base.antt =====
-- Names that the other modules share: the libraries', passed on, and those of the children.
mod Tests
mod Lists
mod Errors
mod Tables
mod Counts
pub mod Int
pub use Tests.*
pub use Lists.*
pub use Errors.*
unfoldable pub use Tables.{first_where, update_where}
pub use Tables.{
  update_if, first_where-cons, first_where-selects, first_where-update_where,
  first_where-update_none, first_where-narrower, first_where-cons_other, first_where-update_other,
  first_where-updated,
}
unfoldable pub use Counts.{count_where, AreUnique}
pub use Counts.{
  one_if, update_where-absent, count_where-found, count_where-update_where, AreUnique-update_where,
  count_where-none, count_where-absent, count_where-same, AreUnique-key,
  first_where-update_unselected,
}
pub use Prim.Native.Nat.{ℕ, zero, suc, ◌+◌, ◌-◌, ◌*◌, ◌/◌, ◌%◌, ◌^◌, ◌≤◌, ◌<◌}
pub use Prim.Native.String.{String}
pub use mathlib.Core.Path.{◌≡◌, refl, sym, ap, ◌∙◌}
pub use mathlib.Core.Logic.{◌≢◌, ◌↔◌, ◌⊎◌, inl, inr}
pub use mathlib.Core.Bool.{Bool, true, false, ◌&&◌, ◌||◌, not}
pub use mathlib.Core.Option.{Option, none, some}
pub use mathlib.Core.List.{List, [], ◌∷◌, ◌++◌, map}
pub use native.Mathlib.Omega.{arith}
pub use text.Mathlib.TextEquality.{eq_iff}
pub use text.Mathlib.Text.{◌==◌ as str_eq}
