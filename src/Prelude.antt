-- ===== src/Prelude.antt =====
-- The names that the other modules share: the libraries' names, passed on, and four children.
mod Tests
mod Lists
mod Fallible
mod Seen
pub mod Int
pub mod Bits
pub mod Run
unfoldable pub use Tests.*
unfoldable pub use Lists.*
pub use Fallible.*
unfoldable pub use Seen.*
pub use Prim.Native.Nat.{ℕ, zero, suc, ◌+◌, ◌-◌, ◌*◌, ◌/◌, ◌%◌, ◌^◌, ◌≤◌, ◌<◌}
pub use Prim.Native.String.{String}
pub use mathlib.Core.Path.{◌≡◌, refl, sym, ap, ◌∙◌}
pub use mathlib.Core.Logic.{◌≢◌, ◌↔◌, ◌⊎◌, inl, inr}
pub use mathlib.Core.Bool.{Bool, true, false, not, ◌&&◌, ◌||◌}
pub use mathlib.Core.Option.{Option, none, some}
pub use mathlib.Core.List.{List, [], ◌∷◌, ◌++◌, map, append_assoc, append-nil}
pub use native.Mathlib.Omega.{arith}
