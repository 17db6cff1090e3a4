-- ===== src/Prelude.antt =====
-- The names that the other modules share: those of the libraries, passed on, and those of the
-- children (Boolean tests, lists, texts and their stripping).
mod Tests
mod Lists
mod Texts
mod Lines
pub mod Strip
pub mod Int
mod Equal
pub use Tests.*
pub use Lists.*
pub use Equal.*
pub use Texts.{Text, codes, text_eq, nonempty, onto_first, flush}
unfoldable pub use Texts.{
  is_space, is_digit, is_word, to_lower, to_upper, lstrip, rstrip, strip, split_on, words, lower,
  capitalize, starts_with, contains, replace, partition, join, is_alpha_upper, is_alpha_lower,
}
unfoldable pub use Lines.{
  is_line_break, splitlines, ends_with, erase, rstrip_of, lstrip_of, strip_of, rpartition, int_of,
}
pub use Prim.Native.Nat.{ℕ, zero, suc, ◌+◌, ◌-◌, ◌*◌, ◌≤◌, ◌<◌}
pub use Prim.Native.String.{String}
pub use mathlib.Core.Path.{◌≡◌, refl, sym, ap, ◌∙◌, subst}
pub use mathlib.Core.Logic.{◌≢◌, ◌↔◌, ◌⊎◌, inl, inr}
pub use mathlib.Core.Bool.{Bool, true, false, not, ◌&&◌, ◌||◌}
pub use mathlib.Core.Option.{Option, none, some}
pub use mathlib.Core.List.{List, [], ◌∷◌, ◌++◌, map, append_assoc}
pub use native.Mathlib.Omega.{arith}
