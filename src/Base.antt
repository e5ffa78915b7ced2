-- ===== src/Base.antt =====
-- The names that all modules share: the libraries', passed on, and those of the children.
mod Tests
mod Lists
mod Equality
mod Fallible
mod Word
mod Wire
pub mod Map
pub use Tests.*
unfoldable pub use Lists.*
pub use Fallible.*
unfoldable pub use Word.*
pub use Wire.*
pub use Prim.Native.Nat.{ℕ, zero, suc, ◌+◌, ◌-◌, ◌*◌, ◌/◌, ◌%◌, ◌^◌, ◌≤◌, ◌<◌}
pub use mathlib.Core.Path.{◌≡◌, refl, sym, ap, ◌∙◌, subst}
pub use mathlib.Core.Logic.{◌≢◌, ◌↔◌, ◌⊎◌, inl, inr}
pub use mathlib.Core.Bool.{Bool, true, false, not, ◌&&◌, ◌||◌}
pub use mathlib.Core.Option.{Option, none, some}
pub use mathlib.Core.List.{List, [], ◌∷◌, ◌++◌, map, foldl}
pub use native.Mathlib.Omega.{arith}
pub use Equality.{
  Eq, ◌==◌, nat_eq, bytes_eq, bytes_beq_iff, Bytes, bytes, beq_refl, beq_false, beq_comm,
}
unfoldable pub use Equality.{bytes_beq}
