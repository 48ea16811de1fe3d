-- ===== src/Utils/Clock.antt =====
-- utils.c, get_iso8601_time, over the clock of the C library.
use tsn.Base.{ℕ, Option, none, some, CStr, text}

-- `time`, `localtime` and `strftime`: a broken-down time is what `localtime` points to.
pub record CTime : Type 1 where
  pub Tm : Type 0
  pub localtime : ℕ → Option Tm
  pub strftime : CStr → Tm → CStr

-- `none` is NULL, after a failure of `time` or `localtime`.
unfoldable pub get_iso8601_time : (c : CTime) → Option ℕ → Option CStr
get_iso8601_time c none = none
get_iso8601_time c (some rawtime) = elim (c.localtime rawtime) [
  | none ↦ none
  | some ptm ↦ some (c.strftime (text "%Y-%m-%dT%TZ") ptm)
]
