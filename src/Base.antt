-- ===== src/Base.antt =====
-- What the other modules share: the libraries' names, passed on, and those of the children.
mod Tests
mod Lists
mod Word
mod Digits
mod Bits
pub mod Result
pub mod Store
pub mod Flags
pub use Tests.*
pub use Lists.*
pub use Word.*
pub use Digits.{digit, digit-bit_and, digit-bit_or, digit-complement, digit-pow_self, digit-pow_ne}
pub use Digits.{digit_of_lt, digit-le_one, digit_ext}
pub use Bits.*
pub use Prim.Native.Nat.{ℕ, zero, suc, ◌+◌, ◌-◌, ◌*◌, ◌/◌, ◌%◌, ◌^◌, ◌≤◌, ◌<◌, min, max}
pub use Prim.Native.Nat.{bit_and, bit_or}
pub use mathlib.Core.Path.{◌≡◌, refl, sym, ap, ◌∙◌}
pub use mathlib.Core.Logic.{◌≢◌, ◌↔◌, ◌⊎◌, inl, inr}
pub use mathlib.Core.Bool.{Bool, true, false, not, ◌&&◌, ◌||◌, false≢true}
pub use mathlib.Core.Option.{Option, none, some}
pub use mathlib.Core.List.{List, [], ◌∷◌, ◌++◌, map}
pub use native.Mathlib.Omega.{arith}
unfoldable pub use native.Mathlib.Decide.{ℕ_discrete, dec_lt}
