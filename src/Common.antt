-- ===== src/Common.antt =====
-- Names that every module shares: library names passed on, and those of the children: Boolean
-- tests, results, texts, and the tables that stand for the rows of a SQLite table.
mod Tests
mod Lists
mod Outcome
mod Strings
mod Table
mod Rows
mod Places
mod Signed
pub use Tests.*
pub use Lists.*
pub use Outcome.*
unfoldable pub use Strings.*
pub use Table.*
pub use Rows.*
pub use Places.*
pub use Signed.*
pub use Prim.Native.Nat.{ℕ, zero, suc, ◌+◌, ◌-◌, ◌*◌, ◌/◌, ◌%◌, ◌^◌, ◌≤◌, ◌<◌, min, max}
pub use mathlib.Core.Path.{◌≡◌, refl, sym, ap, subst, ◌∙◌}
pub use mathlib.Core.Logic.{◌≢◌, ◌↔◌, ◌⊎◌, inl, inr}
pub use mathlib.Core.Bool.{Bool, true, false, not, ◌&&◌, ◌||◌}
pub use mathlib.Core.Option.{Option, none, some}
pub use mathlib.Core.List.{List, [], ◌∷◌, ◌++◌, map}
pub use native.Mathlib.Omega.{arith}
