-- ===== src/Base.antt =====
-- What the other modules share: the libraries' names, passed on, and those of the children.
-- `Tests` has the Boolean tests, `Lists` the list helpers, `Strings` Python's text operations, and
-- `Outcome` the values and exceptions of a fallible call.
mod Tests
mod Lists
mod Strings
mod Outcome
pub use Tests.*
pub use Lists.*
unfoldable pub use Strings.*
pub use Outcome.*
pub use Prim.Native.Nat.{ℕ, zero, suc, ◌+◌, ◌-◌, ◌*◌, ◌/◌, ◌%◌, ◌≤◌, ◌<◌, ◌^◌}
pub use mathlib.Core.Path.{◌≡◌, refl, sym, ap, ◌∙◌}
pub use mathlib.Core.Logic.{◌≢◌, ◌↔◌, ◌⊎◌, inl, inr}
pub use mathlib.Core.Bool.{Bool, true, false, not, ◌&&◌, ◌||◌}
pub use mathlib.Core.Option.{Option, none, some, some-injective}
pub use mathlib.Core.List.{List, [], ◌∷◌, ◌++◌, map}
pub use native.Mathlib.Omega.{arith}
