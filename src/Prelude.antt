-- ===== src/Prelude.antt =====
-- The names that all modules share: those of the libraries, passed on, and those of its children.
mod Tests
mod Lists
mod Text
mod Chars
pub use Tests.*
pub use Lists.*
unfoldable pub use Text.{is_space, strip, decimal, fmt}
pub use Text.{str_len}
unfoldable pub use Chars.{
  any_char, starts_with, ends_with, has_infix, onto_first, split, first_piece, last_piece,
  lstrip_char, is_one_of,
}
pub use Prim.Native.Nat.{ℕ, zero, suc, ◌+◌, ◌-◌, ◌*◌, ◌≤◌, ◌<◌}
pub use Prim.Native.String.{String}
pub use mathlib.Core.Path.{◌≡◌, refl, sym, ap, ◌∙◌, subst}
pub use mathlib.Core.Logic.{◌≢◌, ◌↔◌, ◌⊎◌, inl, inr}
pub use mathlib.Core.Bool.{Bool, true, false, not, ◌&&◌, ◌||◌}
pub use mathlib.Core.Option.{Option, none, some}
pub use mathlib.Core.List.{List, [], ◌∷◌, ◌++◌, map}
pub use native.Mathlib.Omega.{arith}
pub use text.Mathlib.TextEquality.{eq_iff}
pub use text.Mathlib.Text.{◌==◌ as str_eq}
