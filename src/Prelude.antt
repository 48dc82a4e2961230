-- ===== src/Prelude.antt =====
-- The names that the other modules share: the libraries', passed on, and those of the children.
mod Tests
mod Lists
mod Maps
mod Pairs
mod Entries
mod Words
mod Results
pub use Tests.*
pub use Lists.*
unfoldable pub use Maps.{lookup, insert, remove}
pub use Maps.{Assoc, lookup-insert, lookup-remove, map_laws}
unfoldable pub use Pairs.{lookup2, insert2, remove2}
pub use Pairs.{Table2, same_key, lookup2-insert2, lookup2-remove2}
pub use Entries.*
pub use Words.*
pub use Results.*
pub use Prim.Native.Nat.{ℕ, zero, suc, ◌+◌, ◌-◌, ◌*◌, ◌/◌, ◌%◌, ◌^◌, ◌≤◌, ◌<◌, max, min}
pub use mathlib.Core.Path.{◌≡◌, refl, sym, ap, ◌∙◌}
pub use mathlib.Core.Logic.{◌≢◌, ◌↔◌, ◌⊎◌, inl, inr}
pub use mathlib.Core.Bool.{Bool, true, false, not, ◌&&◌, ◌||◌}
pub use mathlib.Core.Option.{Option, none, some}
pub use mathlib.Core.List.{List, [], ◌∷◌, ◌++◌, map}
pub use native.Mathlib.Omega.{arith}
