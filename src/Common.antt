-- ===== src/Common.antt =====
-- The names that the other modules share: the libraries' names passed on, Boolean tests,
-- decidable equality as an interface, lists measured by native numbers, and the integers.
mod Tests
mod Lists
mod Member
mod Subset
pub mod Int
pub use Tests.*
pub use Lists.*
pub use Member.*
pub use Subset.*
pub use Prim.Native.Nat.{ℕ, zero, suc, ◌+◌, ◌-◌, ◌*◌, ◌/◌, ◌%◌, ◌^◌, ◌≤◌, ◌<◌}
pub use mathlib.Core.Path.{◌≡◌, refl, sym, ap, ◌∙◌}
pub use mathlib.Core.Logic.{◌≢◌, ◌↔◌, ◌⊎◌, inl, inr}
pub use mathlib.Core.Bool.{Bool, true, false, not, ◌&&◌, ◌||◌}
pub use mathlib.Core.Option.{Option, none, some}
pub use mathlib.Core.List.{List, [], ◌∷◌, ◌++◌, map}
pub use native.Mathlib.Omega.{arith}
