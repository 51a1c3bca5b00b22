-- ===== src/Prelude.antt =====
-- The names that the other modules share: the libraries', passed on, and those of its children.
pub mod Tests
pub mod Errors
pub mod Text
pub mod Lists
pub mod Maps
pub mod Utf8
pub mod Substrings
pub use Tests.*
pub use Errors.*
unfoldable pub use Text.{
  codes, is_space, is_blank_codes, is_blank, is_hex, is_ascii_space, from_hex, length_codes,
  str_len, codes_leb, str_leb, opt_is, present,
}
unfoldable pub use Lists.{
  length, any, all, select, take, drop, str_mem, is_unique, str_insert, str_sort, str_distinct,
}
unfoldable pub use Substrings.{
  split_on, strip_prefix, starts_with, count_from, count_of, replace_first, is_within,
  is_line_break, line_step, lines_from, split_lines,
}
pub use Substrings.{IsReplaced, count-IsReplaced}
unfoldable pub use Maps.{Dict, lookup, has_key, put_key, keys, insert_key, sort_keys, is_subset}
pub use Maps.{
  lookup-put_key, lookup-sort_keys, lookup-absent, is_unique-sort_keys, is_unique-put_key,
  is_subset_iff,
}
unfoldable pub use Utf8.{Bytes, encode_char, encode, decode_from, decode, big_endian}
pub use Text.{
  opt_is-eq, opt_is-apart, str_leb_refl, String-discrete, codes_eq, codes_eq-eq, codes_eq_refl,
}
pub use Lists.{
  length-append, any-append, length-select, select-none, select-some, length-take, all-take,
  all-append, str_mem-append, str_mem-insert, str_mem-sort,
}
pub use Prim.Native.Nat.{ℕ, zero, suc, ◌+◌, ◌-◌, ◌*◌, ◌/◌, ◌%◌, ◌^◌, ◌≤◌, ◌<◌}
pub use Prim.Native.String.{String, ◌++◌ as str_append}
pub use text.Mathlib.Text.{◌==◌ as str_eq}
pub use text.Mathlib.TextEquality.{eq_iff}
pub use text.Mathlib.TextPositions.{eq_refl}
pub use mathlib.Core.Path.{◌≡◌, refl, subst, sym, ap, ◌∙◌}
pub use mathlib.Core.Logic.{◌≢◌, ◌↔◌, ◌⊎◌, inl, inr}
pub use mathlib.Core.Bool.{Bool, true, false, not, ◌&&◌, ◌||◌}
pub use mathlib.Core.Option.{Option, none, some}
pub use mathlib.Core.List.{List, [], ◌∷◌, ◌++◌, map, append-nil, append_assoc}
pub use native.Mathlib.Omega.{arith}
