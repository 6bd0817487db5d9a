-- ===== src/Base.antt =====
-- Names that every module shares: those of the libraries, passed on, and those of the children.
-- Tests holds the Boolean tests, Lists the lists over native numbers, Rows what an SQL statement
-- does to a table, Members what a SELECT returns, Text the comparison of Go strings, Results the
-- outcome of a fallible call, CodePoints the code points of a string.
mod Tests
mod Lists
mod Rows
mod Text
mod Results
mod Members
mod CodePoints
pub use Tests.*
pub use Lists.*
unfoldable pub use Rows.*
unfoldable pub use Text.*
pub use Results.*
pub use Members.*
unfoldable pub use CodePoints.*
pub use Prim.Native.Nat.{ℕ, zero, suc, ◌+◌, ◌-◌, ◌*◌, ◌/◌, ◌%◌, ◌^◌, ◌≤◌, ◌<◌, min, max}
pub use Prim.Native.String.{String}
pub use mathlib.Core.Path.{◌≡◌, refl, sym, ap, subst, ◌∙◌}
pub use mathlib.Core.Logic.{◌≢◌, ◌↔◌, ◌⊎◌, inl, inr}
pub use mathlib.Core.Bool.{Bool, true, false, not, ◌&&◌, ◌||◌, false≢true}
pub use mathlib.Core.Option.{Option, none, some}
pub use mathlib.Core.List.{List, [], ◌∷◌, ◌++◌, map, append_assoc, append-nil, reverse}
pub use native.Mathlib.Omega.{arith}
