-- ===== src/Utils/Age.antt =====
-- utils.c, age_str2num and get_age: from the age of a neighbour to the time it was first seen.
pub mod Laws
use tsn.Base.{
  ℕ, zero, suc, ◌+◌, ◌-◌, ◌*◌, ◌%◌, Option, none, some, CStr, text, strstr, atoi, drop, ℤ, scale,
  wrap, u32_mod, u64_mod, ltb, ◌^◌, pos, negsuc, if◌then◌else◌,
}

-- The conversion of an `int` to `uint64_t`, and the sum and product of such.
abbrev pub u64 : ℤ → ℕ
u64 i = wrap u64_mod i

-- A product of two `int`, which wraps around where it leaves them.
unfoldable pub as_int : ℤ → ℤ
as_int i = let n = wrap u32_mod i in if ltb n (2 ^ 31) then pos n else negsuc (u32_mod - 1 - n)

-- The loop over hours and minutes, from the string at `c`. The caller's string is cut at each
-- separator; nothing reads it afterwards.
fields_loop : ℕ → ℕ → CStr → ℕ
fields_loop zero age c = (age + u64 (atoi c)) % u64_mod
fields_loop (suc rounds) age c = elim (strstr c (text ":")) [
  | none ↦ age
  | some (field, from) ↦
      fields_loop rounds ((age + (age + u64 (atoi field)) * 60) % u64_mod) (drop 1 from)
]

unfoldable pub age_str2num : CStr → ℕ
unfolding fields_loop
age_str2num age_str = elim (strstr age_str (text "day,")) [
  | none ↦ 0
  | some (days, from) ↦ fields_loop 2 (u64 (as_int (scale 24 (atoi days)))) (drop 4 from)
]

-- `rawtime` is what `time` returned; `none` stands for -1.
unfoldable pub get_age : Option ℕ → CStr → ℕ
get_age none age_str = 0
get_age (some rawtime) age_str = (rawtime + u64_mod - age_str2num age_str) % u64_mod
