-- ===== src/Common.antt =====
-- Shared names: the libraries' ones passed on, Boolean tests, lists over native numbers, integers
-- and the result of a call that may throw.
mod Tests
mod Lists
mod Effects
mod Outcome
mod Maps
pub mod Int
pub use Tests.*
pub use Lists.*
pub use Effects.*
pub use Outcome.*
pub use Maps.*
pub use Prim.Native.Nat.{ℕ, zero, suc, ◌+◌, ◌-◌, ◌*◌, ◌/◌, ◌%◌, ◌≤◌, ◌<◌}
pub use mathlib.Core.Path.{◌≡◌, refl, sym, ap, subst, ◌∙◌}
pub use mathlib.Core.Logic.{◌≢◌, ◌↔◌, ◌⊎◌, inl, inr}
pub use mathlib.Core.Bool.{Bool, true, false, not, ◌&&◌, ◌||◌}
pub use mathlib.Core.Option.{Option, none, some}
pub use mathlib.Core.List.{List, [], ◌∷◌, ◌++◌, map}
pub use native.Mathlib.Omega.{arith}
