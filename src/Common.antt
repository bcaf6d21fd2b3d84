-- ===== src/Common.antt =====
-- Names shared by every module: the libraries', passed on, and those of the children: Boolean
-- tests, byte strings and finite maps.
mod Tests
mod ByteString
mod FiniteMap
pub use Tests.*
unfoldable pub use ByteString.{bytes_eq}
pub use ByteString.{
  Bytes, codes, length, length-append, bytes_eq_iff, bytes_eq_refl, take, drop, replicate,
  length-replicate,
}
unfoldable pub use FiniteMap.{lookup, insert, delete, total}
pub use FiniteMap.{
  Map, Keyed, lookup-insert, lookup-delete, total-insert, total-delete, Keyed-insert, Keyed-delete,
  weight, weight-le-total,
}
pub use Prim.Native.Nat.{ℕ, zero, suc, ◌+◌, ◌-◌, ◌*◌, ◌/◌, ◌%◌, ◌^◌, ◌≤◌, ◌<◌}
pub use Prim.Native.String.{String}
pub use mathlib.Core.Path.{◌≡◌, refl, sym, ap, subst, ◌∙◌}
pub use mathlib.Core.Logic.{◌≢◌, ◌↔◌, ◌⊎◌, inl, inr}
pub use mathlib.Core.Bool.{Bool, true, false, not, ◌&&◌, ◌||◌}
pub use mathlib.Core.Option.{Option, none, some}
pub use mathlib.Core.List.{List, [], ◌∷◌, ◌++◌, map}
pub use native.Mathlib.Omega.{arith}
