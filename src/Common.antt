-- ===== src/Common.antt =====
-- Names, tests, lists, byte strings and integers that every module shares.
pub mod Tests
pub mod Lists
pub mod Int
pub mod Text
pub mod Partial
pub use Tests.*
unfoldable pub use Lists.{any, all}
pub use Lists.*
pub use Prim.Native.Nat.{ℕ, zero, suc, ◌+◌, ◌-◌, ◌*◌, ◌/◌, ◌%◌, ◌^◌, ◌≤◌, ◌<◌, min}
pub use Prim.Native.String.{String}
pub use mathlib.Core.Path.{◌≡◌, refl, sym, ap, subst, ◌∙◌}
pub use mathlib.Core.Logic.{◌≢◌, ◌↔◌, ◌⊎◌, inl, inr}
pub use mathlib.Core.Bool.{Bool, true, false, not, ◌&&◌, ◌||◌}
pub use mathlib.Core.Option.{Option, none, some}
pub use mathlib.Core.List.{List, [], ◌∷◌, ◌++◌, map, append-nil, append_assoc}
pub use native.Mathlib.Omega.{arith}
pub use Int.{ℤ, pos, negsuc, ==ℤ_iff, ⊖-pos, ⊖-negsuc}
unfoldable pub use Int.{◌==ℤ◌, ◌⊖◌, ◌+ℤ◌, shift_right_8, quarter, to_decimal, to_string}
pub use Text.{
  Bytes, equal_iff, equal_self, starts_with-drop, starts_with-append, find-split, find-starts_with,
  find-append, find_index-none, find_index-some, find_index-all, find_index-append,
}
unfoldable pub use Text.{bytes, equal, starts_with, find, find_index}
