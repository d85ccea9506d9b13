-- ===== src/Prelude.antt =====
-- Names that every component shares: the libraries', passed on, Boolean tests and the conditional,
-- lists under native indices, signed results, and the flat byte memory of the machine.
mod Tests
mod Lists
mod Ints
mod Bytes
mod Bits
mod Text
mod Words
pub use Tests.*
pub use Lists.*
pub use Ints.*
pub use Bytes.*
unfoldable pub use Bits.*
pub use Text.*
pub use Words.*
pub use Prim.Native.Nat.{ℕ, zero, suc, ◌+◌, ◌-◌, ◌*◌, ◌/◌, ◌%◌, ◌^◌, ◌≤◌, ◌<◌, min}
pub use Prim.Native.Nat.{bit_and, bit_or}
pub use mathlib.Core.Path.{◌≡◌, refl, sym, ap, ◌∙◌, fun_ext, subst}
pub use mathlib.Core.Logic.{◌≢◌, ◌↔◌, ◌⊎◌, inl, inr}
pub use mathlib.Core.Bool.{Bool, true, false, ◌&&◌, ◌||◌, not}
pub use mathlib.Core.Option.{Option, none, some}
pub use mathlib.Core.List.{List, [], ◌∷◌, ◌++◌, map, reverse}
pub use native.Mathlib.Omega.{arith}
