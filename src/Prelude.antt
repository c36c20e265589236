-- ===== src/Prelude.antt =====
-- The names that the other modules share: the libraries' names passed on, Boolean tests and
-- conditionals, lists with native indices, and unsigned machine words.
mod Tests
mod Lists
mod Loops
mod Words
mod Bits
mod Int
pub use Tests.*
pub use Lists.*
unfoldable pub use Loops.*
pub use Words.*
pub use Bits.*
unfoldable pub use Int.*
pub use Prim.Native.Nat.{ℕ, zero, suc, ◌+◌, ◌-◌, ◌*◌, ◌/◌, ◌%◌, ◌^◌, ◌≤◌, ◌<◌}
pub use mathlib.Core.Path.{◌≡◌, refl, sym, ap, ◌∙◌}
pub use mathlib.Core.Logic.{◌≢◌, ◌↔◌, ◌⊎◌, inl, inr}
pub use mathlib.Core.Bool.{Bool, true, false, not, ◌&&◌, ◌||◌}
pub use mathlib.Core.Option.{Option, none, some}
pub use mathlib.Core.List.{List, [], ◌∷◌, ◌++◌}
pub use native.Mathlib.Omega.{arith}
