-- ===== src/Common.antt =====
-- Shared names: the libraries', passed on, Boolean tests on numbers, C arrays as lists, C integers
-- and the bit operations.
mod Tests
mod Lists
mod Ints
mod Bits
mod Decimal
mod Bytes
pub use Tests.*
pub use Lists.*
pub use Ints.*
unfoldable pub use Bits.{holds_below}
pub use Bits.*
unfoldable pub use Decimal.{decimal}
pub use Decimal.*
pub use Bytes.*
pub use Prim.Native.Nat.{ℕ, zero, suc, ◌+◌, ◌-◌, ◌*◌, ◌/◌, ◌%◌, ◌^◌, ◌≤◌, ◌<◌, min, max}
pub use Prim.Native.Nat.{bit_and, bit_or, bit_xor}
pub use mathlib.Core.Path.{◌≡◌, refl, sym, ap, ap₂, subst, ◌∙◌, fun_ext}
pub use mathlib.Core.Logic.{◌≢◌, ◌↔◌, ◌⊎◌, inl, inr}
pub use mathlib.Core.Bool.{Bool, true, false, not, ◌&&◌, ◌||◌}
pub use mathlib.Core.Option.{Option, none, some}
pub use mathlib.Core.List.{List, [], ◌∷◌, ◌++◌, map, append-nil, append_assoc}
pub use native.Mathlib.Omega.{arith}
unfoldable pub use native.Mathlib.Decide.{dec_lt, ℕ_discrete}
