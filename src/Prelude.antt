-- ===== src/Prelude.antt =====
-- The names that all modules share: the libraries', passed on, and those of two children.
mod Tests
mod Lists
pub mod Int
pub mod Text
pub mod Codes
pub mod Float
pub mod Fixed
pub mod Outcome
pub use Tests.*
pub use Lists.{
  length, get_elem?, set, remove_at, modify, All, length-append, length-modify, length-remove_at,
  get_elem?_of_lt, lt_of_get_elem?, get_elem?-modify_self, get_elem?-modify_ne, length-map,
  index_func-some,
}
unfoldable pub use Lists.{index_func}
pub use Prim.Native.Nat.{ℕ, zero, suc, ◌+◌, ◌-◌, ◌*◌, ◌/◌, ◌%◌, ◌^◌, ◌≤◌, ◌<◌}
pub use Prim.Native.String.{String}
pub use mathlib.Core.Path.{◌≡◌, refl, sym, ap, ◌∙◌, subst}
pub use mathlib.Core.Logic.{◌≢◌, ◌↔◌, ◌⊎◌, inl, inr}
pub use mathlib.Core.Bool.{Bool, true, false, not, ◌&&◌, ◌||◌}
pub use mathlib.Core.Option.{Option, none, some}
pub use mathlib.Core.List.{List, [], ◌∷◌, ◌++◌, map}
pub use native.Mathlib.Omega.{arith}
pub use text.Mathlib.Text.{◌==◌ as str_eq}
pub use text.Mathlib.TextEquality.{eq_iff}
