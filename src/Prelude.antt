-- ===== src/Prelude.antt =====
-- Names that the other modules share: native numbers, tests, lists and outcomes.
mod Tests
mod Lists
mod Results
mod Counts
pub mod Order
pub mod Xor
pub mod Actions
pub mod Leaving
pub mod Pigeonhole
unfoldable pub use Tests.*
pub use Lists.*
pub use Results.*
unfoldable pub use Counts.*
pub use Prim.Native.Nat.{ℕ, zero, suc, ◌+◌, ◌-◌, ◌*◌, ◌/◌, ◌%◌, ◌^◌, ◌≤◌, ◌<◌}
pub use mathlib.Core.Path.{◌≡◌, refl, sym, ap, ap₂, subst, ◌∙◌}
pub use mathlib.Core.Logic.{◌≢◌, ◌↔◌, ◌⊎◌, inl, inr}
pub use mathlib.Core.Bool.{Bool, true, false, not, ◌&&◌, ◌||◌}
pub use mathlib.Core.Option.{Option, none, some}
pub use mathlib.Core.List.{List, [], ◌∷◌, ◌++◌, map}
pub use native.Mathlib.Omega.{arith}
