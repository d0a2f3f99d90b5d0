-- ===== src/Base.antt =====
-- Shared names, tests, lists, bytes and results of the whole development.
mod Tests
mod Lists
mod Bytes
mod Results
mod Bits
pub use Tests.*
pub use Lists.*
pub use Bytes.*
pub use Results.*
unfoldable pub use Bits.{test_bit, set_bit}
pub use Bits.{test_bit-set_bit, test_bit-mod, test_bit-shl, shl64}
pub use Prim.Native.Nat.{ℕ, zero, suc, ◌+◌, ◌-◌, ◌*◌, ◌/◌, ◌%◌, ◌^◌, ◌≤◌, ◌<◌, min, max}
pub use Prim.Native.Char.{code}
pub use Prim.Native.String.{String}
pub use mathlib.Core.Path.{◌≡◌, refl, sym, ap, ◌∙◌, subst}
pub use mathlib.Core.Logic.{◌≢◌, ◌↔◌, ◌⊎◌, inl, inr}
pub use mathlib.Core.Bool.{Bool, true, false, not, ◌&&◌, ◌||◌}
pub use mathlib.Core.Option.{Option, none, some}
pub use mathlib.Core.List.{List, [], ◌∷◌, ◌++◌, map}
pub use native.Mathlib.Omega.{arith}
