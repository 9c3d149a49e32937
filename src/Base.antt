-- ===== src/Base.antt =====
-- The names that every part of the library shares: those of the libraries, passed on, and the
-- helpers on tests, lists and big-endian words of the children.
mod Tests
mod Lists
mod Words
mod Perm
mod Descent
pub use Tests.*
pub use Lists.*
unfoldable pub use Words.{to_be, from_be}
pub use Words.*
unfoldable pub use Perm.{rearranged}
pub use Perm.*
pub use Descent.*
pub use mathlib.Core.List.{Permᴰ}
pub use Prim.Native.Nat.{ℕ, zero, suc, ◌+◌, ◌-◌, ◌*◌, ◌/◌, ◌%◌, ◌^◌, ◌≤◌, ◌<◌, min}
pub use mathlib.Core.Path.{◌≡◌, refl, sym, ap, ◌∙◌}
pub use mathlib.Core.Logic.{◌≢◌, ◌↔◌, ◌⊎◌, inl, inr}
pub use mathlib.Core.Bool.{Bool, true, false, not, ◌&&◌, ◌||◌}
pub use mathlib.Core.Option.{Option, none, some}
pub use mathlib.Core.List.{List, [], ◌∷◌, ◌++◌, map, append_assoc, append-nil}
pub use native.Mathlib.Omega.{arith}
