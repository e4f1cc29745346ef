-- ===== src/Base.antt =====
-- The names that the other modules share: the libraries', passed on, and those of the children.
mod Tests
mod Lists
mod Text
mod Int
mod Decimal
mod Utf8
mod Last
mod Space
pub use Tests.*
pub use Lists.*
unfoldable pub use Text.{encode_hex, trim_suffix, is_plain, parts}
pub use Text.{
  trim_suffix-append, hex_digit, is_name, parts_plain, is_plain-append, is_name-json,
  trim_suffix-plain, is_plain-encode_hex,
}
pub use Int.*
unfoldable pub use Utf8.{bytes_of, split, join}
pub use Utf8.{Bytes, take, length-take, take-append, cut_twice, length-take_eq}
unfoldable pub use Decimal.{itoa, parse_digits}
pub use Decimal.{itoa_injective, parse_digits-itoa, itoa_cons}
pub use Last.*
unfoldable pub use Space.{trim_left, trim_right, trim_space}
pub use Space.{is_space}
pub use Prim.Native.Nat.{ℕ, zero, suc, ◌+◌, ◌-◌, ◌*◌, ◌/◌, ◌%◌, ◌^◌, ◌≤◌, ◌<◌}
pub use Prim.Native.String.{String}
pub use mathlib.Core.Path.{◌≡◌, refl, sym, ap, ◌∙◌, subst}
pub use mathlib.Core.Logic.{◌≢◌, ◌↔◌, ◌⊎◌, inl, inr}
pub use mathlib.Core.Bool.{Bool, true, false, not, ◌&&◌, ◌||◌}
pub use mathlib.Core.Option.{Option, none, some}
pub use mathlib.Core.List.{List, [], ◌∷◌, ◌++◌, map}
pub use native.Mathlib.Omega.{arith}
pub use text.Mathlib.Text.{◌==◌}
pub use text.Mathlib.TextEquality.{eq_iff}
pub use text.Mathlib.TextPositions.{eq_refl}
