-- ===== src/Prelude.antt =====
-- The names that the other modules share: the library's, passed on, and the helpers of the
-- children. `Tests` has Boolean tests and the equality interface, `Lists` the list functions,
-- `Result` and `Exec` the two ways in which the services raise, `Dict` Python's dictionaries.
mod Tests
mod Lists
pub mod Result
pub mod Exec
pub mod Dict
pub mod Int
pub mod Clock
pub mod Text
pub mod Sets
pub use Tests.*
unfoldable pub use Lists.*
pub use Prim.Native.Nat.{ℕ, zero, suc, ◌+◌, ◌-◌, ◌*◌, ◌≤◌, ◌<◌}
pub use Prim.Native.String.{String}
pub use mathlib.Core.Path.{◌≡◌, refl, sym, ap, ◌∙◌, subst}
pub use mathlib.Core.Logic.{◌≢◌, ◌↔◌, ◌⊎◌, inl, inr}
pub use mathlib.Core.Bool.{Bool, true, false, not, ◌&&◌, ◌||◌}
pub use mathlib.Core.Option.{Option, none, some}
pub use mathlib.Core.List.{List, [], ◌∷◌, ◌++◌, map}
pub use native.Mathlib.Omega.{arith}
pub use text.Mathlib.TextEquality.{eq_iff}
