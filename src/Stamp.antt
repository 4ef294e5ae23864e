-- ===== src/Stamp.antt =====
-- Timestamps as the database stores them: text. JavaScript writes `YYYY-MM-DDTHH:MM:SS.sssZ`
-- (`toISOString`) and SQLite writes `YYYY-MM-DD HH:MM:SS` (`datetime('now')`), and a comparison in
-- SQL compares these texts (src/storage, src/scheduler/queue.ts; src/lib/time.ts reads both).
-- A text is kept as its day, its separator and its time of day. Dates are milliseconds since the
-- epoch, for the years 0000 to 9999, where a text has the lengths above.
pub mod Laws
use openronin.Common.{ℕ, ◌+◌, ◌*◌, ◌/◌, ◌%◌, Bool, true, false, ltb, leb, ◌==◌, if◌then◌else◌}

pub data Format : Type 0 where
  sql iso : Format

pub record Stamp : Type 0 where
  pub day : ℕ
  pub format : Format
  pub time : ℕ

abbrev pub day_ms : ℕ
day_ms = 86_400_000

-- `new Date(ms).toISOString()`
unfoldable pub to_iso : ℕ → Stamp
to_iso ms = record { day = ms / day_ms; format = iso; time = ms % day_ms }

-- `datetime(…)` at that moment: seconds, no fraction
unfoldable pub sql_datetime : ℕ → Stamp
sql_datetime ms = record { day = ms / day_ms; format = sql; time = ms % day_ms / 1000 * 1000 }

-- The separator: a space sorts before `T`.
abbrev pub separator : Format → ℕ
separator sql = b' '
separator iso = b'T'

-- `a <= b` of two such texts: the days, then the separators, then the times of day.
unfoldable pub stamp_leb : Stamp → Stamp → Bool
stamp_leb a b =
    if ltb a.day b.day
    then true
    else if ltb b.day a.day
    then false
    else if ltb (separator a.format) (separator b.format)
    then true
    else if ltb (separator b.format) (separator a.format)
    then false
    else leb a.time b.time

-- The moment that a text stands for, read as UTC.
unfoldable pub utc_ms : Stamp → ℕ
utc_ms s = s.day * day_ms + s.time

-- `new Date(text).getTime()`: a text with no `Z` is local time, so the host's reading of a local
-- date and time is a parameter.
unfoldable pub parse_date : (ℕ → ℕ) → Stamp → ℕ
unfolding utc_ms
parse_date local s = elim s.format [ sql ↦ local (utc_ms s) | iso ↦ utc_ms s ]

-- `parseSqliteUtc(text).getTime()` of src/lib/time.ts, for a text that is not empty.
unfoldable pub parse_sqlite_utc : Stamp → ℕ
unfolding utc_ms
parse_sqlite_utc s = utc_ms s
