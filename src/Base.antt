-- ===== src/Base.antt =====
-- The names that the models share: numbers, texts, lists, options, tests, and exceptions as values.
-- They stand for the parts of Python that every script uses.
mod Tests
mod Lists
pub mod Dict
mod Errors
mod FloatOps
mod Text
mod Integers
mod Values
mod Sets
mod Sorting
unfoldable pub use Tests.*
pub use Lists.*
pub use FloatOps.*
unfoldable pub use Text.*
pub use Integers.*
pub use Errors.*
unfoldable pub use Values.*
pub use Sets.*
unfoldable pub use Sorting.*
pub use Prim.Native.Nat.{ℕ, zero, suc, ◌+◌, ◌-◌, ◌*◌, ◌/◌, ◌%◌, ◌≤◌, ◌<◌, min, max}
pub use Prim.Native.String.{String, ◌++◌ as ◌<>◌}
pub use mathlib.Core.Path.{◌≡◌, refl, sym, ap, ◌∙◌}
pub use mathlib.Core.Logic.{◌≢◌, ◌↔◌, ◌⊎◌, inl, inr}
pub use mathlib.Core.Bool.{Bool, true, false, not, ◌&&◌, ◌||◌}
pub use mathlib.Core.Option.{Option, none, some}
pub use mathlib.Core.List.{List, [], ◌∷◌, ◌++◌}
unfoldable pub use mathlib.Core.List.{map, reverse, foldl}
pub use native.Mathlib.Omega.{arith}
