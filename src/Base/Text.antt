-- ===== src/Base/Text.antt =====
-- C strings as lists of bytes, without the closing NUL, and the functions of the C library that
-- the program calls on them: strcmp, strstr, atoi.
use Prim.Native.Char.{code}
use Prim.Native.Nat.{ℕ, zero, suc, ◌+◌, ◌-◌, ◌*◌}
use Prim.Native.String.{String}
use mathlib.Core.Bool.{Bool, true, false, ◌&&◌, ◌||◌}
use mathlib.Core.Option.{Option, none, some}
use mathlib.Core.List.{List, [], ◌∷◌, ◌++◌}
use mathlib.Core.Path.{◌≡◌, refl}
use native.Mathlib.Omega.{arith}
use tsn.Base.Tests.{leb, ◌==◌, if◌then◌else◌}
use tsn.Base.Int.{ℤ, pos, negsuc}

abbrev pub CStr : Type 0
CStr = List ℕ

-- A literal of the source.
unfoldable pub text : String → CStr
text String.[] = []
text (String.◌∷◌ c s) = code c ∷ text s

-- The string that a buffer holds: its bytes up to the first NUL.
abbrev pub c_string : List ℕ → CStr
c_string [] = []
c_string (b ∷ bs) = if b == 0 then [] else b ∷ c_string bs

-- `strcmp (a, b) == 0`, and `xmlStrEqual`.
unfoldable pub str_eq : CStr → CStr → Bool
str_eq [] [] = true
str_eq (x ∷ a) (y ∷ b) = x == y && str_eq a b
str_eq _ _ = false

pub str_eq→eq : (a b : CStr) → str_eq a b ≡ true → a ≡ b
unfolding str_eq
str_eq→eq [] [] h = refl
str_eq→eq (x ∷ a) (y ∷ b) h = ground (arith, str_eq→eq a b)
str_eq→eq [] (y ∷ b) h = cc
str_eq→eq (x ∷ a) [] h = cc

pub str_eq_refl : (a : CStr) → str_eq a a ≡ true
unfolding str_eq
str_eq_refl [] = refl
str_eq_refl (x ∷ a) = ground (arith, str_eq_refl a)

-- Whether `s` begins with `key`.
unfoldable pub starts_with : CStr → CStr → Bool
starts_with s [] = true
starts_with [] (k ∷ key) = false
starts_with (c ∷ s) (k ∷ key) = c == k && starts_with s key

-- `strstr (s, key)`: the bytes before the first occurrence of `key`, and the bytes from there on.
unfoldable pub strstr : CStr → CStr → Option (CStr × CStr)
unfolding starts_with
strstr [] key = if starts_with [] key then some ([], []) else none
strstr (c ∷ s) key =
    let later = strstr s key in
    if starts_with (c ∷ s) key
    then some ([], c ∷ s)
    else elim later [ none ↦ none | some (before, from) ↦ some (c ∷ before, from) ]

abbrev pub is_digit : ℕ → Bool
is_digit c = leb b'0' c && leb c b'9'

-- `isspace` in the C locale.
abbrev pub is_space : ℕ → Bool
is_space c = c == 32 || (leb 9 c && leb c 13)

-- The number that the digits at the front of a string stand for, after those read into `acc`.
unfoldable pub digits_value : ℕ → CStr → ℕ
digits_value acc [] = acc
digits_value acc (c ∷ s) =
    let more = digits_value (acc * 10 + (c - b'0')) s in if is_digit c then more else acc

unfoldable pub skip_spaces : CStr → CStr
skip_spaces [] = []
skip_spaces (c ∷ s) = let rest = skip_spaces s in if is_space c then rest else c ∷ s

negate : ℕ → ℤ
negate zero = pos 0
negate (suc n) = negsuc n

signed : CStr → ℤ
unfolding digits_value negate
signed [] = pos 0
signed (c ∷ s) =
    if c == b'-'
    then negate (digits_value 0 s)
    else if c == b'+'
    then pos (digits_value 0 s)
    else pos (digits_value 0 (c ∷ s))

-- `atoi`, on values that an `int` can hold.
unfoldable pub atoi : CStr → ℤ
unfolding skip_spaces signed
atoi s = signed (skip_spaces s)

pub starts_with-append : (key rest : CStr) → starts_with (key ++ rest) key ≡ true
unfolding starts_with
starts_with-append [] rest = refl
starts_with-append (k ∷ key) rest = ground (arith, starts_with-append key rest)
