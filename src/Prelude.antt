-- ===== src/Prelude.antt =====
-- The names that the other modules share: those of the libraries, passed on, Boolean tests and
-- lists over the native numbers, functions as C arrays, and the outcome of kernel code.
mod Tests
mod Lists
mod Arrays
mod Panics
mod Text
pub use Tests.*
pub use Lists.*
unfoldable pub use Arrays.{update}
pub use Arrays.{update_self, update_ne}
pub use Panics.*
unfoldable pub use Text.{c_str, lines}
pub use Text.{
  codes, newline, concat, IsText, AllNonempty, c_str-IsText, concat-lines, lines-AllNonempty,
}
pub use Text.{IsText-left, IsText-right}
pub use Prim.Native.Nat.{ℕ, zero, suc, ◌+◌, ◌-◌, ◌*◌, ◌/◌, ◌%◌, ◌^◌, ◌≤◌, ◌<◌}
pub use mathlib.Core.Path.{◌≡◌, refl, sym, ap, ap₂, subst, subst₂, ◌∙◌, fun_ext}
pub use mathlib.Core.Logic.{◌≢◌, ◌↔◌, ◌⊎◌, inl, inr}
pub use mathlib.Core.Bool.{Bool, true, false, not, ◌&&◌, ◌||◌}
pub use mathlib.Core.Option.{Option, none, some}
pub use mathlib.Core.List.{List, [], ◌∷◌, ◌++◌, map, append-nil, append_assoc}
pub use native.Mathlib.Omega.{arith}
unfoldable pub use native.Mathlib.Decide.{dec_lt, ℕ_discrete}
