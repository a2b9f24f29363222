-- ===== src/Common.antt =====
-- The names that every part shares: the libraries', passed on, and those of the modules below.
mod Tests
mod Lists
mod Errors
mod Loops
mod Sums
pub mod Text
mod Integers
mod Mapping
pub use Tests.*
pub use Lists.*
pub use Errors.*
unfoldable pub use Loops.*
pub use Integers.*
unfoldable pub use Mapping.*
pub use Sums.*
pub use Prim.Native.Nat.{ℕ, zero, suc, ◌+◌, ◌-◌, ◌*◌, ◌/◌, ◌%◌, ◌^◌, ◌≤◌, ◌<◌}
pub use mathlib.Core.Path.{◌≡◌, refl, sym, ap, ◌∙◌}
pub use mathlib.Core.Logic.{◌≢◌, ◌↔◌, ◌⊎◌, inl, inr}
pub use mathlib.Core.Bool.{Bool, true, false, not, ◌&&◌, ◌||◌}
pub use mathlib.Core.Option.{Option, none, some}
pub use mathlib.Core.List.{List, [], ◌∷◌, ◌++◌, map}
pub use native.Mathlib.Omega.{arith}
