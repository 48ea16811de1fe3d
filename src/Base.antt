-- ===== src/Base.antt =====
-- The names that all the modules share: the libraries', passed on, and those of the children.
mod Tests
mod Lists
mod Int
mod Text
mod Format
pub use Tests.*
unfoldable pub use Lists.*
pub use Int.*
pub use Lists.{map-append}
pub use Text.{str_eq→eq, str_eq_refl, starts_with-append, c_string, is_digit, is_space}
unfoldable pub use Text.{CStr, text, str_eq, starts_with, strstr, digits_value, skip_spaces, atoi}
pub use Format.{format_int-injective, decimal-value}
unfoldable pub use Format.{decimal, format_int, format_ℤ}
pub use Prim.Native.Nat.{ℕ, zero, suc, ◌+◌, ◌-◌, ◌*◌, ◌/◌, ◌%◌, ◌^◌, ◌≤◌, ◌<◌}
pub use Prim.Native.String.{String}
pub use mathlib.Core.Path.{◌≡◌, refl, sym, ap, ◌∙◌, fun_ext, subst}
pub use mathlib.Core.Logic.{◌≢◌, ◌↔◌, ◌⊎◌, inl, inr}
pub use mathlib.Core.Bool.{Bool, true, false, ◌&&◌, ◌||◌, not}
pub use mathlib.Core.Option.{Option, none, some}
pub use mathlib.Core.List.{List, [], ◌∷◌, ◌++◌, map, append-nil, append_assoc}
pub use native.Mathlib.Omega.{arith}
pub use mathlib.Core.Logic.{ite, dite, if_pos, if_neg}
unfoldable pub use native.Mathlib.Decide.{dec_lt, ℕ_discrete}
