-- ===== src/Prelude.antt =====
-- The names that the other modules share: the libraries', passed on, and those of the children.
mod Tests
mod Lists
mod Bytes
mod Affixes
mod TextLines
mod Dicts
mod Results
mod Words
mod Decimal
pub use Tests.*
pub use Lists.*
pub use Bytes.*
pub use Affixes.*
unfoldable pub use Bytes.{
  text_eq, starts_with, strip_prefix?, ends_with, strip_suffix?, find?, be_bytes, replace,
  eq_ignore_ascii_case, from_utf8,
}
pub use TextLines.*
unfoldable pub use TextLines.{split_newlines, text_lines, join}
pub use Dicts.*
unfoldable pub use Dicts.{lookup, insert, remove}
pub use Results.*
pub use Words.*
pub use Decimal.*
unfoldable pub use Decimal.{show}
unfoldable pub use Words.{
  after_white?, trim, trim_start_from, trim_end, split_whitespace, split_once, parse_digits,
  parse_usize, words_from,
}
pub use Prim.Native.Nat.{ℕ, zero, suc, ◌+◌, ◌-◌, ◌*◌, ◌/◌, ◌%◌, ◌^◌, ◌≤◌, ◌<◌, min, max}
pub use Prim.Native.String.{String}
pub use mathlib.Core.Path.{◌≡◌, refl, sym, ap, ◌∙◌}
pub use mathlib.Core.Logic.{◌≢◌, ◌↔◌, ◌⊎◌, inl, inr}
pub use mathlib.Core.Bool.{Bool, true, false, not, ◌&&◌, ◌||◌}
pub use mathlib.Core.Option.{Option, none, some}
pub use mathlib.Core.List.{List, [], ◌∷◌, ◌++◌, map, append-nil, append_assoc}
pub use native.Mathlib.Omega.{arith}
