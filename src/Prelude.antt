-- ===== src/Prelude.antt =====
-- The names that the other modules share: the libraries' names, and the tests, lists, results
-- and signed integers that the program's Go code uses everywhere.
mod Tests
mod Lists
mod Results
mod Select
mod Sorting
mod Int
mod Table
mod Counted
pub use Tests.*
pub use Lists.*
pub use Results.*
pub use Select.*
unfoldable pub use Sorting.*
pub use Int.*
pub use Table.*
pub use Counted.*
pub use Prim.Native.Nat.{ℕ, zero, suc, ◌+◌, ◌-◌, ◌*◌, ◌/◌, ◌%◌, ◌^◌, ◌≤◌, ◌<◌}
pub use Prim.Native.String.{String}
pub use text.Mathlib.Text.{◌==◌ as str_eq}
pub use text.Mathlib.TextEquality.{eq_iff}
pub use mathlib.Core.Path.{◌≡◌, refl, sym, ap, ◌∙◌}
pub use mathlib.Core.Logic.{◌≢◌, ◌↔◌, ◌⊎◌, inl, inr}
pub use mathlib.Core.Bool.{Bool, true, false, not, ◌&&◌, ◌||◌}
pub use mathlib.Core.Option.{Option, none, some}
pub use mathlib.Core.List.{List, [], ◌∷◌, ◌++◌, map, Perm}
pub use native.Mathlib.Omega.{arith}
