-- ===== src/Common.antt =====
-- Names shared by every module: the libraries', passed on, and those of the children. The children
-- model what the contracts take from the language and the host: i128 arithmetic, storage maps,
-- calls that commit or roll back, and the environment of an invocation.
mod Tests
mod Int
mod Host
mod Storage
mod Octets
mod Outside
mod Lists
mod Bits
pub use Tests.*
pub use Int.*
unfoldable pub use Int.{◌+ℤ◌, ◌-ℤ◌, ◌*ℤ◌, ◌/ℤ◌, ◌%ℤ◌, in_i128}
pub use Host.*
pub use Octets.*
pub use Lists.*
pub use Bits.{bit_xor_byte, bit_xor_below_byte, bit_xor_below_u16}
unfoldable pub use Octets.{length, get_elem?, eqb_bytes}
pub use Outside.{World, ask, invoke, invoke_for, update}
pub use Storage.*
unfoldable pub use Storage.{get, put, total}
pub use Prim.Native.Nat.{ℕ, zero, suc, ◌+◌, ◌-◌, ◌*◌, ◌/◌, ◌%◌, ◌^◌, ◌≤◌, ◌<◌}
pub use mathlib.Core.Path.{◌≡◌, refl, sym, ap, ◌∙◌}
pub use mathlib.Core.Logic.{◌≢◌, ◌⊎◌, inl, inr}
pub use mathlib.Core.Bool.{Bool, true, false, not, ◌&&◌, ◌||◌}
pub use mathlib.Core.Option.{Option, none, some}
pub use mathlib.Core.List.{List, [], ◌∷◌, ◌++◌}
pub use native.Mathlib.Omega.{arith}
