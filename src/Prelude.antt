-- ===== src/Prelude.antt =====
-- The names that the other modules share: those of the libraries, passed on, and those of the
-- children. Strings of the source are lists of UTF-16 code units.
mod Tests
mod Lists
mod Strings
pub mod Order
pub mod Decimal
pub mod Sort
pub mod Result
pub mod Spaces
pub use Tests.*
unfoldable pub use Lists.{any}
pub use Lists.{length, get_elem?, drop, length-append, All, any-append}
unfoldable pub use Strings.{◌==◌, join}
pub use Strings.{Text, text, ==_iff, ==-refl, ==_sym, ==_eq, ==_ne}
pub use Prim.Native.Nat.{ℕ, zero, suc, ◌+◌, ◌-◌, ◌*◌, ◌/◌, ◌%◌, ◌≤◌, ◌<◌}
pub use mathlib.Core.Path.{◌≡◌, refl, sym, ap, ap₂, ◌∙◌}
pub use mathlib.Core.Logic.{◌≢◌, ◌↔◌, ◌⊎◌, inl, inr}
pub use mathlib.Core.Bool.{Bool, true, false, not, ◌&&◌, ◌||◌}
pub use mathlib.Core.Option.{Option, none, some}
pub use mathlib.Core.List.{List, [], ◌∷◌, ◌++◌, map, append_assoc, append-nil}
pub use native.Mathlib.Omega.{arith}
