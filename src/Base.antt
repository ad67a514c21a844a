-- ===== src/Base.antt =====
-- The names that the other modules share: the libraries', passed on, and those of the children
-- below (Boolean tests, lists over native indices, blocks of memory, size_t arithmetic).
mod Tests
mod Lists
mod Block
mod Window
mod Members
mod Word
mod Bits
mod Pow2
mod Outcome
pub mod Integers
pub use Tests.*
pub use Lists.*
unfoldable pub use Block.*
pub use Window.*
pub use Members.*
pub use Word.*
pub use Bits.*
unfoldable pub use Pow2.*
pub use Outcome.*
pub use Prim.Native.Nat.{ℕ, zero, suc, ◌+◌, ◌-◌, ◌*◌, ◌/◌, ◌%◌, ◌^◌, ◌≤◌, ◌<◌, min, bit_and}
pub use mathlib.Core.Path.{◌≡◌, refl, sym, subst, ap, ap₂, ◌∙◌}
pub use mathlib.Core.Logic.{◌≢◌, ◌⊎◌, inl, inr}
pub use mathlib.Core.Bool.{Bool, true, false, not, ◌&&◌, ◌||◌}
pub use mathlib.Core.Option.{Option, none, some}
pub use mathlib.Core.List.{List, [], ◌∷◌, ◌++◌, map}
pub use native.Mathlib.Omega.{arith}
