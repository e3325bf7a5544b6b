-- ===== src/Common.antt =====
-- The names that the other modules share: the libraries', passed on, and those of the children.
pub mod Tests
pub mod Lists
pub mod Int
pub mod Panics
pub mod Maps
pub mod Decimal
pub mod Text
pub use Prim.Native.Nat.{ℕ, zero, suc, ◌+◌, ◌-◌, ◌*◌, ◌/◌, ◌%◌, ◌^◌, ◌≤◌, ◌<◌}
pub use Prim.Native.String.{String}
pub use mathlib.Core.Path.{◌≡◌, refl, sym, ap, subst, ◌∙◌}
pub use mathlib.Core.Logic.{◌≢◌, ◌↔◌, ◌⊎◌, inl, inr}
pub use mathlib.Core.Bool.{Bool, true, false, not, ◌&&◌, ◌||◌}
pub use mathlib.Core.Option.{Option, none, some}
pub use mathlib.Core.List.{List, [], ◌∷◌, ◌++◌, map}
pub use native.Mathlib.Omega.{arith}
pub use text.Mathlib.Text.{◌==◌ as str_eq}
pub use text.Mathlib.TextEquality.{eq_iff}
pub use Tests.*
pub use Lists.*
pub use Int.{ℤ, pos, negsuc, ltb_ℤ, eq_ℤ, uint_of_int64}
unfoldable pub use Int.{int64_of_uint, five_eighths}
pub use Panics.{
  Outcome, returns, panics, deref, ◌>>=◌, >>=-eq-returns, returns_of_ne, OnReturn, OnReturn-bind,
  OnReturn-map,
}
unfoldable pub use Text.{
  equal_fold, has_prefix, has_suffix, sort_texts, contains, trim_left_of, trim_right_of,
  trim_suffix, trim_prefix, replace_all,
}
unfoldable pub use Decimal.{decimal, decimal_padded}
pub use Maps.{Dict, lookup-insert}
unfoldable pub use Maps.{lookup, insert}

-- A sequence of bytes.
abbrev pub Bytes : Type 0
Bytes = List ℕ
