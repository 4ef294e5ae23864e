-- ===== src/Cadence.antt =====
-- When an item is next looked at (src/scheduler/cadence.ts). Durations are texts such as `5m`;
-- `none` is the thrown `Invalid duration`. Dates are milliseconds since the epoch. A count of
-- digits beyond 2 ^ 53 would be rounded by `Number`; here it stays exact.
pub mod Duration
pub mod Laws
use openronin.Common.{
  ℕ, ◌+◌, ◌-◌, ◌*◌, Bool, true, ◌&&◌, Option, none, some, List, [], ◌∷◌, Text, ltb, leb, ◌==◌,
  if◌then◌else◌,
}
use openronin.Stamp.{Stamp, to_iso, parse_date}

unfoldable pub is_digit : ℕ → Bool
is_digit c = leb b'0' c && leb c b'9'

-- `toLowerCase` on the letters that the pattern lets through
unfoldable pub to_lower : ℕ → ℕ
to_lower c = if leb b'A' c && leb c b'Z' then c + 32 else c

unfoldable pub unit_ms : ℕ → Option ℕ
unit_ms c =
    if c == b's'
    then some 1000
    else if c == b'm'
    then some 60_000
    else if c == b'h'
    then some 3_600_000
    else if c == b'd'
    then some 86_400_000
    else none

-- the unit that ends the text, after the number `n`
unfoldable pub finish : ℕ → Option ℕ → Text → Option ℕ
finish n (some factor) [] = some (n * factor)
finish n _ _ = none

-- the digits after the first, read into `n`
unfoldable pub scan : ℕ → Text → Option ℕ
scan n [] = none
scan n (c ∷ cs) =
    let more = scan (n * 10 + (c - b'0')) cs in
    if is_digit c then more else finish n (unit_ms (to_lower c)) cs

-- `/^(\d+)([smhd])$/i`
unfoldable pub parse_duration_ms : Text → Option ℕ
parse_duration_ms [] = none
parse_duration_ms (c ∷ cs) = let rest = scan (c - b'0') cs in if is_digit c then rest else none

pub data Bucket : Type 0 where
  hot default cold : Bucket

pub record Cadence : Type 0 where
  pub hot : Text
  pub default : Text
  pub cold : Text

abbrev pub day : ℕ
day = 86_400_000

abbrev pub hot_age_days : ℕ
hot_age_days = 30

abbrev pub default_age_days : ℕ
default_age_days = 90

-- `now - created < limit`, written without the difference, which may be negative
unfoldable pub bucket_for : ℕ → ℕ → Bucket
bucket_for created now =
    if ltb now (created + hot_age_days * day)
    then hot
    else if ltb now (created + default_age_days * day)
    then default
    else cold

unfoldable pub interval : Cadence → Bucket → Text
interval c hot = c.hot
interval c default = c.default
interval c cold = c.cold

unfoldable pub compute_next_due_at : ℕ → Cadence → ℕ → Option Stamp
compute_next_due_at created cadence now =
    elim (parse_duration_ms (interval cadence (bucket_for created now))) [
      | none ↦ none
      | some ms ↦ some (to_iso (now + ms))
    ]

-- `isDue`: an absent date is due
unfoldable pub is_due : (ℕ → ℕ) → Option Stamp → ℕ → Bool
is_due local none now = true
is_due local (some due) now = leb (parse_date local due) now
