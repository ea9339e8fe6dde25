-- ===== src/Prelude.antt =====
-- The names that the other modules share: the libraries', passed on, and those of the children.
mod Tests
mod Lists
mod Int
mod Maps
mod Decimal
mod Strings
mod Options
mod Split
mod Trim
mod Parsing
mod Sort
mod Filters
mod Growth
pub use Tests.*
pub use Int.*
unfoldable pub use Maps.{lookup, store, remove, distinct_keys}
pub use Maps.{
  lookup-In, lookup-store, lookup-remove, store-distinct_keys, remove-distinct_keys, lookup-All,
  store-All, remove-All,
}
unfoldable pub use Strings.{upper_eq}
pub use Strings.*
pub use Options.*
pub use Growth.{
  HasKey, All-HasKey, store-HasKey, stored-HasKey, Grows, then_Grows, Grows-HasKey, Grows-All,
  Grows-distinct_keys,
}
pub use Parsing.{Atoi, is_int32, to_int32_same, int_mul, is_int64, to_int64-bounds, to_int64_same}
unfoldable pub use Parsing.{atoi, to_int32, to_int64}
unfoldable pub use Split.{split}
unfoldable pub use Trim.{trim_left, trim_right, trim_space, has_prefix, contains_text, all_chars}
pub use Trim.{is_space, is_digit, is_letter}
pub use Split.{split_whole, split-append, join, IsSplit, split-IsSplit}
unfoldable pub use Decimal.{itoa}
unfoldable pub use Sort.{sort}
pub use Sort.{IsSorted, sort-All, In-sort, sort-IsSorted, then_by, sort-lex}
unfoldable pub use Filters.{first, filter_map}
pub use Filters.{first_passes, In-filter_map, filter_map-All, filter_map-nothing}
pub use Lists.*
pub use Prim.Native.Nat.{ℕ, zero, suc, ◌+◌, ◌-◌, ◌≤◌, ◌<◌}
pub use Prim.Native.String.{String, ◌++◌ as text_append}
pub use mathlib.Core.Path.{◌≡◌, refl, sym, ap, subst, ◌∙◌}
pub use mathlib.Core.Logic.{◌≢◌, ◌↔◌, ◌⊎◌, inl, inr}
pub use mathlib.Core.Bool.{Bool, true, false, not, beq, ◌&&◌, ◌||◌}
pub use mathlib.Core.Option.{Option, none, some}
pub use mathlib.Core.List.{List, [], ◌∷◌, ◌++◌, map}
pub use native.Mathlib.Omega.{arith}
