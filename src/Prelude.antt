-- ===== src/Prelude.antt =====
-- The names that the other modules share: the libraries', passed on, and those of the children.
mod Tests
mod Lists
mod Text
mod Int
mod Dicts
mod Values
mod Keys
mod Trim
mod Search
pub use Tests.*
pub use Lists.*
unfoldable pub use Text.{strip, lower, cut, is_space, lower_char, lstrip, rstrip}
pub use Text.{strip-empty}
pub use Int.*
unfoldable pub use Dicts.{Dict, empty, get, put, pop, size, has, keys, values, map_values}
pub use Dicts.{
  get-empty, get-pop, get-put, get-map_values, dict_laws, IsUnique, IsUnique-put, IsUnique-pop,
  size-put, size-pop, size-pop-le, has-get, pop-absent,
}
pub use Values.{Value, Items, Fields}
unfoldable pub use Keys.{contains}
pub use Keys.*
pub use Trim.*
unfoldable pub use Search.{has_part, ends_with, before, rstrip_mark}
pub use Prim.Native.Nat.{ℕ, zero, suc, ◌+◌, ◌-◌, ◌*◌, ◌/◌, ◌%◌, ◌^◌, ◌≤◌, ◌<◌, min, max}
pub use Prim.Native.String.{String}
pub use mathlib.Core.Path.{◌≡◌, refl, sym, ap, ◌∙◌, subst}
pub use mathlib.Core.Logic.{◌≢◌, ◌↔◌, ◌⊎◌, inl, inr}
pub use mathlib.Core.Bool.{Bool, true, false, not, ◌&&◌, ◌||◌}
pub use mathlib.Core.Option.{Option, none, some}
pub use mathlib.Core.List.{List, [], ◌∷◌, ◌++◌, map}
pub use native.Mathlib.Omega.{arith}
pub use text.Mathlib.TextEquality.{eq_iff}
pub use text.Mathlib.TextPositions.{eq_refl}
