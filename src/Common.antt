-- ===== src/Common.antt =====
-- Names that all parts share: the libraries' and those of the children, passed on.
mod Tests
mod Lists
mod Status
mod Partial
mod Int
mod Bits
mod Range
pub use Tests.*
pub use Lists.*
pub use Status.*
pub use Partial.*
pub use Int.*
pub use Bits.*
unfoldable pub use Range.{all_below}
pub use Range.{all_below_sound}
pub use Prim.Native.Nat.{
  ℕ, zero, suc, ◌+◌, ◌-◌, ◌*◌, ◌/◌, ◌%◌, ◌^◌, ◌≤◌, ◌<◌, min, max, bit_and, bit_or,
}
pub use mathlib.Core.Path.{◌≡◌, refl, sym, ap, ap₂, ◌∙◌}
pub use mathlib.Core.Logic.{◌≢◌, ◌↔◌, ◌⊎◌, inl, inr}
pub use mathlib.Core.Bool.{Bool, true, false, not, ◌&&◌, ◌||◌}
pub use mathlib.Core.Option.{Option, none, some}
pub use mathlib.Core.List.{List, [], ◌∷◌, ◌++◌, append_assoc, append-nil}
pub use native.Mathlib.Omega.{arith}
