-- ===== src/Base/Format.antt =====
-- The conversions of printf that the program uses, `%d` and `%lu`, on numbers of at most 64 bits.
use tsn.Base.Tests.{ltb, lt→ltb, Bool-cases, if◌then◌else◌}
use tsn.Base.Lists.{All}
use tsn.Base.Int.{ℤ, pos, negsuc}
use tsn.Base.Text.{CStr, digits_value, is_digit}
use Prim.Native.Nat.{ℕ, zero, suc, ◌+◌, ◌-◌, ◌/◌, ◌%◌, ◌^◌, ◌<◌}
use mathlib.Core.Bool.{true}
use mathlib.Core.Logic.{inl, inr}
use mathlib.Core.List.{[], ◌∷◌}
use mathlib.Core.Path.{◌≡◌, sym, ◌∙◌, ap}
use native.Mathlib.Omega.{arith}
use native.Mathlib.Nat.{pow-suc}

-- The digits of `n` in front of `rest`, at most `fuel` of them.
digits_onto : ℕ → ℕ → CStr → CStr
digits_onto zero n rest = rest
digits_onto (suc fuel) n rest =
    let more = digits_onto fuel (n / 10) ((b'0' + n % 10) ∷ rest) in
    if ltb n 10 then (b'0' + n) ∷ rest else more

-- `%lu`. A number of 64 bits has at most 20 digits.
unfoldable pub decimal : ℕ → CStr
unfolding digits_onto
decimal n = digits_onto 20 n []

-- `%d` of a 32-bit word.
unfoldable pub format_int : ℕ → CStr
format_int n = if ltb n (2 ^ 31) then decimal n else b'-' ∷ decimal (2 ^ 32 - n)

-- `%d` of an `int`.
unfoldable pub format_ℤ : ℤ → CStr
format_ℤ (pos n) = decimal n
format_ℤ (negsuc n) = b'-' ∷ decimal (suc n)

digits_onto-value :
    (fuel n : ℕ) (rest : CStr)
    → n < 10 ^ fuel
    → All (λ c. is_digit c ≡ true) rest
    → (digits_value 0 (digits_onto fuel n rest) ≡ digits_value n rest)
      × All (λ c. is_digit c ≡ true) (digits_onto fuel n rest)
unfolding digits_onto digits_value
digits_onto-value zero n rest h d = ((let e : n ≡ 0 = omega arith in rw e), d)
digits_onto-value (suc fuel) n rest h d = elim (Bool-cases (ltb n 10)) [
  | inl small ↦ rw small (ground arith, (ground arith, d))
  | inr large ↦ rw large (
      let (value, digits) =
        digits_onto-value fuel (n / 10) ((b'0' + n % 10) ∷ rest) (omega (arith, pow-suc 10 fuel))
          (ground arith, d) in
      (value ∙ ground arith, digits))
]

-- The printed digits read back as the number.
pub decimal-value :
    (n : ℕ)
    → n < 2 ^ 64
    → (digits_value 0 (decimal n) ≡ n) × All (λ c. is_digit c ≡ true) (decimal n)
unfolding decimal digits_value
decimal-value n h = digits_onto-value 20 n [] (omega arith) tt

-- Numbers are told apart by their digits.
pub format_int-injective : (m n : ℕ) → m < 2 ^ 31 → n < 2 ^ 31 → format_int m ≡ format_int n → m ≡ n
unfolding format_int
format_int-injective m n hm hn e =
    sym ((decimal-value m (omega arith)).0)
    ∙ ap (digits_value 0) (rw (lt→ltb m _ hm, lt→ltb n _ hn) at e)
    ∙ (decimal-value n (omega arith)).0
