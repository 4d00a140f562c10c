-- ===== src/Base.antt =====
-- The names the components share: the libraries', passed on, and those of the child modules
-- (tests, C arrays as lists, words, signed integers, bit operations, text).
mod Tests
mod Lists
mod Windows
mod Int
mod Bits
mod Words
mod Text
mod Numbers
pub use Tests.*
unfoldable pub use Lists.*
pub use Windows.*
unfoldable pub use Int.*
pub use Bits.*
pub use Words.*
pub use Text.*
pub use Numbers.*
pub use Prim.Native.Nat.{ℕ, zero, suc, ◌+◌, ◌-◌, ◌*◌, ◌/◌, ◌%◌, ◌^◌, ◌≤◌, ◌<◌}
pub use Prim.Native.Nat.{bit_and, bit_or, bit_xor, min, max}
pub use mathlib.Core.Path.{◌≡◌, refl, sym, ap, ap₂, ◌∙◌, ◌≡⟨◌⟩◌, ◌∎}
pub use mathlib.Core.Logic.{◌≢◌, ◌↔◌, ◌⊎◌, inl, inr}
pub use mathlib.Core.Bool.{Bool, true, false, not, ◌&&◌, ◌||◌}
pub use mathlib.Core.Option.{Option, none, some}
pub use mathlib.Core.List.{List, [], ◌∷◌, ◌++◌, map}
pub use native.Mathlib.Omega.{arith}
