-- ===== src/Base.antt =====
-- The names that every part shares: numbers, tests, lists and byte slices, passed on from the
-- libraries and from the children of this module.
mod Tests
mod Lists
mod Slices
mod Decimal
mod Strings
mod Outcome
mod Ints
pub use Tests.*
unfoldable pub use Lists.*
unfoldable pub use Slices.*
unfoldable pub use Decimal.*
unfoldable pub use Strings.{trim_space}
pub use Strings.{
  reverse_bytes, reverse_bytes-append, reverse_bytes-All, reverse_bytes_twice, Begins,
  trim_space_ends, trim_space-All, trim_space_visible, IsVisible,
}
pub use Ints.*
pub use Outcome.{Result, ok, err, ◌>>=◌, wrap, first_ok, Result-cases}
pub use Prim.Native.Nat.{ℕ, zero, suc, ◌+◌, ◌-◌, ◌*◌, ◌/◌, ◌%◌, ◌^◌, ◌≤◌, ◌<◌, min}
pub use mathlib.Core.Path.{◌≡◌, refl, sym, ap, ◌∙◌}
pub use mathlib.Core.Logic.{◌≢◌, ◌↔◌, ◌⊎◌, inl, inr, ite, if_pos, if_neg}
pub use mathlib.Core.Bool.{Bool, true, false, not, ◌&&◌, ◌||◌}
pub use mathlib.Core.Option.{Option, none, some}
pub use mathlib.Core.List.{List, [], ◌∷◌, ◌++◌, map}
pub use native.Mathlib.Omega.{arith}
unfoldable pub use native.Mathlib.Decide.{ℕ_discrete}
