-- ===== src/Base.antt =====
-- The names that every module shares: those of the libraries, passed on, and those of the children.
-- Tests are Booleans on the native numbers, Exceptions is Python's exceptions, Lists is list
-- comprehensions and `sorted`, Strings is `str` with its methods, and Json is the values of
-- `json.loads`. StringLaws and Sorted hold laws.
mod Tests
mod Exceptions
mod Lists
mod Strings
mod Names
mod StringLaws
mod Sorted
mod Json
pub use Tests.*
unfoldable pub use Exceptions.*
unfoldable pub use Lists.*
unfoldable pub use Strings.*
unfoldable pub use Names.*
unfoldable pub use StringLaws.*
unfoldable pub use Sorted.*
unfoldable pub use Json.*
pub use Prim.Native.Nat.{ℕ, zero, suc, ◌+◌, ◌-◌, ◌*◌, ◌/◌, ◌%◌, ◌≤◌, ◌<◌}
pub use mathlib.Core.Path.{◌≡◌, refl, sym, ap, ◌∙◌, subst}
pub use mathlib.Core.Logic.{◌≢◌, ◌↔◌, ◌⊎◌, inl, inr, ite}
pub use mathlib.Core.Bool.{Bool, true, false, not, ◌&&◌, ◌||◌}
pub use mathlib.Core.Option.{Option, none, some}
pub use mathlib.Core.List.{
  List, [], ◌∷◌, ◌++◌, map, Perm, append-nil, append_assoc, perm_middle, perm_append_singleton,
}
unfoldable pub use mathlib.Core.List.{flatten}
pub use native.Mathlib.Omega.{arith}
