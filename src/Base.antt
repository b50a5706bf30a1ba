-- ===== src/Base.antt =====
-- The names that every component shares: the libraries', passed on, and those of the children:
-- tests on numbers, arrays, signed integers, and the results of code that may fault.
mod Tests
mod Lists
mod Int
mod Outcome
mod BitOr
unfoldable pub use Tests.*
pub use Lists.*
pub use Int.*
pub use Outcome.*
pub use BitOr.*
pub use Prim.Native.Nat.{ℕ, zero, suc, ◌+◌, ◌-◌, ◌*◌, ◌/◌, ◌%◌, ◌^◌, ◌≤◌, ◌<◌, min}
pub use mathlib.Core.Path.{◌≡◌, refl, sym, ap, ap₂, subst, ◌∙◌, fun_ext}
pub use mathlib.Core.Logic.{◌≢◌, ◌↔◌, ◌⊎◌, inl, inr}
pub use mathlib.Core.Bool.{Bool, true, false, not, ◌&&◌, ◌||◌}
pub use mathlib.Core.Option.{Option, none, some}
pub use mathlib.Core.List.{List, [], ◌∷◌, ◌++◌, map}
pub use native.Mathlib.Omega.{arith}
