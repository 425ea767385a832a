-- ===== src/Prelude.antt =====
-- The names that the other modules share: the libraries', passed on, and those of the children.
mod Tests
mod Lists
mod Results
mod Text
mod Decimal
mod Sorting
unfoldable pub use Tests.{all_below}
pub use Tests.*
pub use Lists.*
pub use Results.*
unfoldable pub use Text.{split_once, split, strip_prefix, join}
pub use Text.*
unfoldable pub use Decimal.{all_digits, digits_from, to_decimal}
pub use Decimal.*
unfoldable pub use Sorting.{insert_by, sort_by}
pub use Sorting.*
pub use mathlib.Core.List.{Permᴰ}
pub use Prim.Native.Nat.{ℕ, zero, suc, ◌+◌, ◌-◌, ◌*◌, ◌/◌, ◌%◌, ◌^◌, ◌≤◌, ◌<◌, min, max}
pub use Prim.Native.Nat.{bit_and, bit_or}
pub use mathlib.Core.Path.{◌≡◌, refl, sym, ap, ◌∙◌}
pub use mathlib.Core.Logic.{◌≢◌, ◌↔◌, ◌⊎◌, inl, inr}
pub use mathlib.Core.Bool.{Bool, true, false, not, ◌&&◌, ◌||◌}
pub use mathlib.Core.Option.{Option, none, some}
pub use mathlib.Core.List.{List, [], ◌∷◌, ◌++◌, map, append_assoc, append-nil}
pub use native.Mathlib.Omega.{arith}
