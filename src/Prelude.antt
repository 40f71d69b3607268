-- ===== src/Prelude.antt =====
-- Names that every module shares: the libraries' numbers, lists, options and paths, passed on,
-- and those of the children, on tests, lists, byte strings and maps.
mod Tests
mod Lists
mod ByteStrings
mod Failure
mod Ints
pub mod Maps
pub mod Bits
pub mod Pow
pub use Tests.*
pub use Lists.*
unfoldable pub use ByteStrings.*
pub use Failure.*
unfoldable pub use Ints.*
pub use Prim.Native.Nat.{
  ℕ, zero, suc, ◌+◌, ◌-◌, ◌*◌, ◌/◌, ◌%◌, ◌^◌, ◌≤◌, ◌<◌, bit_and, bit_or, Ordering, compare,
}
pub use mathlib.Core.Path.{◌≡◌, refl, sym, ap, ap₂, ◌∙◌}
pub use mathlib.Core.Logic.{◌≢◌, ◌↔◌, ◌⊎◌, inl, inr}
pub use mathlib.Core.Bool.{Bool, true, false, not, ◌&&◌, ◌||◌}
pub use mathlib.Core.Option.{Option, none, some}
pub use mathlib.Core.List.{List, [], ◌∷◌, ◌++◌, map}
pub use native.Mathlib.Omega.{arith}
