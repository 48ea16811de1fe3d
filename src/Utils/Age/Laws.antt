-- ===== src/Utils/Age/Laws.antt =====
-- utils.c: what `age_str2num` makes of an age `D day, H:M:S`.
use tsn.Base.{
  starts_with-append, ℕ, suc, ◌+◌, ◌-◌, ◌*◌, ◌%◌, ◌^◌, ◌<◌, ◌≡◌, ◌≢◌, refl, ◌∙◌, arith, some, true,
  false, [], ◌∷◌, ◌++◌, All, All-append, CStr, text, starts_with, strstr, digits_value, atoi,
  is_digit, pos, wrap, u64_mod,
}
use tsn.Utils.Age.{as_int, fields_loop, age_str2num}

abbrev pub IsDecimal : CStr → Type 0
IsDecimal ds = All (λ c. is_digit c ≡ true) ds

-- The first occurrence of a key lies behind any bytes other than the key's first.
strstr-append :
    (pre : CStr) (k : ℕ) (key rest : CStr)
    → All (λ c. c ≢ k) pre
    → strstr (pre ++ ((k ∷ key) ++ rest)) (k ∷ key) ≡ some (pre, (k ∷ key) ++ rest)
unfolding strstr starts_with
strstr-append [] k key rest h = ground (arith, starts_with-append key rest)
strstr-append (c ∷ pre) k key rest (ne, h) = ground (arith, strstr-append pre k key rest h)

ne_of_digit : (k : ℕ) (ds : CStr) → is_digit k ≡ false → IsDecimal ds → All (λ c. c ≢ k) ds
ne_of_digit k [] e h = tt
ne_of_digit k (c ∷ ds) e (d, h) = (ground arith, ne_of_digit k ds e h)

digits_value-append :
    (acc : ℕ) (ds : CStr) (c : ℕ) (rest : CStr)
    → IsDecimal ds
    → is_digit c ≡ false
    → digits_value acc (ds ++ (c ∷ rest)) ≡ digits_value acc ds
unfolding digits_value
digits_value-append acc [] c rest h e = ground arith
digits_value-append acc (d ∷ ds) c rest (digit, h) e =
    rw digit (digits_value-append (acc * 10 + (d - b'0')) ds c rest h e)

-- `atoi` of digits, and of digits with a blank in front or behind.
atoi-IsDecimal :
    (ds : CStr)
    → IsDecimal ds
    → (atoi ds ≡ pos (digits_value 0 ds))
      × (atoi (32 ∷ ds) ≡ pos (digits_value 0 ds))
      × (atoi (ds ++ (32 ∷ [])) ≡ pos (digits_value 0 ds))
unfolding atoi digits_value
atoi-IsDecimal [] h = (refl, refl, refl)
atoi-IsDecimal (d ∷ ds) (digit, h) =
    let plain = digits_value-append (0 * 10 + (d - b'0')) ds 32 [] h refl in
    (ground arith, ground arith, ground (arith, plain))

fields_loop-field :
    (rounds age : ℕ) (field rest : CStr)
    → All (λ c. c ≢ b':') field
    → fields_loop (suc rounds) age (field ++ (b':' ∷ rest))
      ≡ fields_loop rounds ((age + (age + wrap u64_mod (atoi field)) * 60) % u64_mod) rest
unfolding fields_loop text
fields_loop-field rounds age field rest h = rw (strstr-append field b':' [] rest h, fields_loop)

-- The string of an age: `D day, H:M:S`.
pub age_text : CStr → CStr → CStr → CStr → CStr
age_text days hours mins secs =
    (days ++ (b' ' ∷ [])) ++ (text "day," ++ ((b' ' ∷ hours) ++ (b':' ∷ (mins ++ (b':' ∷ secs)))))

-- The number of a field.
abbrev pub field_value : CStr → ℕ
field_value = digits_value 0

as_int-small : (n : ℕ) → n < 2 ^ 31 → as_int (pos n) ≡ pos n
unfolding as_int
as_int-small n h = ground arith

-- The days as `age_str2num` turns them into hours.
age_str2num-days :
    (days rest : CStr)
    → IsDecimal days
    → 24 * field_value days < 2 ^ 31
    → age_str2num ((days ++ (b' ' ∷ [])) ++ (text "day," ++ rest))
      ≡ fields_loop 2 (24 * field_value days % u64_mod) rest
unfolding age_str2num text
age_str2num-days days rest h small = rw (
  strstr-append (days ++ (b' ' ∷ [])) b'd' (text "ay,") rest
      (All-append (λ c. c ≢ b'd') days (b' ' ∷ []) (ne_of_digit b'd' days refl h) (omega arith)),
  (atoi-IsDecimal days h).2,
  as_int-small (24 * field_value days) small,
  age_str2num,
)

-- Of an age of D days, H hours, M minutes and S seconds, each written in decimal digits, with 24 *
-- D and the others below 2 ^ 31, so that no `int` overflows, the function returns ((24 * D + H) *
-- 60 + M) * 60 + S, the age in seconds, and 2904 * D + 60 * H more: it is right for ages below one
-- hour only.
pub age_str2num-age_text :
    (days hours mins secs : CStr)
    → IsDecimal days
    → IsDecimal hours
    → IsDecimal mins
    → IsDecimal secs
    → 24 * field_value days < 2 ^ 31
    → field_value hours < 2 ^ 31
    → field_value mins < 2 ^ 31
    → field_value secs < 2 ^ 31
    → age_str2num (age_text days hours mins secs)
      ≡ ((field_value days * 24 + field_value hours) * 60 + field_value mins) * 60
        + field_value secs
        + (2904 * field_value days + 60 * field_value hours)
unfolding age_text fields_loop
age_str2num-age_text days hours mins secs hd hh hm hs bd bh bm bs =
    age_str2num-days days _ hd bd
    ∙ fields_loop-field 1 _ (b' ' ∷ hours) _ (omega arith, ne_of_digit b':' hours refl hh)
    ∙ rw ((atoi-IsDecimal hours hh).1) (
        fields_loop-field 0 _ mins secs (ne_of_digit b':' mins refl hm)
        ∙ rw ((atoi-IsDecimal mins hm).0, (atoi-IsDecimal secs hs).0) (omega arith))
