-- ===== src/Common.antt =====
-- The names that the components share: the libraries' and those of four children, passed on.
mod Tests
mod Lists
mod Results
mod Maps
pub mod Texts
pub use Tests.*
pub use Lists.*
pub use Results.*
unfoldable pub use Maps.{lookup, insert, adjust, remove}
pub use Maps.{
  lookup-insert, lookup-adjust, lookup-remove, length-adjust, keys, keys-adjust, Absent,
  lookup-Absent, Absent-adjust, Absent-remove, IsDistinct, IsDistinct-insert, IsDistinct-adjust,
  IsDistinct-remove, Entries, Entries-insert, Entries-adjust, Entries-remove, Entries-lookup,
}
pub use Prim.Native.Nat.{ℕ, zero, suc, ◌+◌, ◌-◌, ◌*◌, ◌/◌, ◌%◌, ◌^◌, ◌≤◌, ◌<◌, min, max}
pub use Prim.Native.String.{String}
pub use mathlib.Core.Path.{◌≡◌, refl, sym, ap, subst, ◌∙◌}
pub use mathlib.Core.Logic.{◌≢◌, ◌↔◌, ◌⊎◌, inl, inr}
pub use mathlib.Core.Bool.{Bool, true, false, not, ◌&&◌, ◌||◌}
pub use mathlib.Core.Option.{Option, none, some}
pub use mathlib.Core.List.{List, [], ◌∷◌, ◌++◌, map}
pub use native.Mathlib.Omega.{arith}
pub use text.Mathlib.Text.{◌==◌ as str_eq}
pub use text.Mathlib.TextEquality.{eq_iff}
