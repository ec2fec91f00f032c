-- ===== src/Prelude.antt =====
-- The names that the modules share: those of the libraries that are passed on, and those of the
-- children (tests and the conditional, lists, sorting, texts, integers, calls that raise).
mod Tests
mod Lists
mod Sorting
mod Texts
mod Strip
mod Int
mod Outcomes
unfoldable pub use Int.*
pub use Tests.*
pub use Outcomes.*
unfoldable pub use Lists.*
pub use Sorting.*
unfoldable pub use Texts.*
unfoldable pub use Strip.*
pub use Prim.Native.Nat.{ℕ, zero, suc, ◌+◌, ◌-◌, ◌≤◌, ◌<◌}
pub use Prim.Native.String.{String}
pub use mathlib.Core.Path.{◌≡◌, refl, sym, ap, subst, ◌∙◌}
pub use mathlib.Core.Logic.{◌≢◌, ◌↔◌, ◌⊎◌, inl, inr}
pub use mathlib.Core.Bool.{Bool, true, false, not, ◌&&◌, ◌||◌}
pub use mathlib.Core.Option.{Option, none, some}
pub use mathlib.Core.List.{List, [], ◌∷◌, ◌++◌, map}
pub use native.Mathlib.Omega.{arith}
pub use text.Mathlib.Text.{◌==◌}
pub use text.Mathlib.TextEquality.{eq_iff}
pub use text.Mathlib.TextPositions.{eq_refl}
