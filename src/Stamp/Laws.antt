-- ===== src/Stamp/Laws.antt =====
-- Lemmas on the comparison of timestamps as texts (src/storage).
use openronin.Common.{ℕ, ◌≤◌, ◌≡◌, ◌↔◌, true, false, leb, arith}
use openronin.Sql.Order.{IsOrder}
use openronin.Stamp.{Stamp, to_iso, sql_datetime, stamp_leb, utc_ms, parse_date}

stamp_leb_total : (a b : Stamp) → stamp_leb a b ≡ false → stamp_leb b a ≡ true
unfolding stamp_leb
stamp_leb_total a b h = ground arith

stamp_leb_trans :
    (a b c : Stamp) → stamp_leb a b ≡ true → stamp_leb b c ≡ true → stamp_leb a c ≡ true
unfolding stamp_leb
stamp_leb_trans a b c h k = ground arith

pub stamp_leb-IsOrder : IsOrder stamp_leb
stamp_leb-IsOrder = record { total = stamp_leb_total; trans = stamp_leb_trans }

-- The texts of two JavaScript dates sort like the dates.
pub stamp_leb-to_iso : (a b : ℕ) → stamp_leb (to_iso a) (to_iso b) ≡ leb a b
unfolding stamp_leb to_iso
stamp_leb-to_iso a b = ground arith

pub stamp_leb-to_iso_iff : (a b : ℕ) → (stamp_leb (to_iso a) (to_iso b) ≡ true) ↔ (a ≤ b)
stamp_leb-to_iso_iff a b = ground (arith, stamp_leb-to_iso a b)

pub utc_ms-to_iso : (ms : ℕ) → utc_ms (to_iso ms) ≡ ms
unfolding utc_ms to_iso
utc_ms-to_iso ms = omega arith

pub parse_date-to_iso : (local : ℕ → ℕ) (ms : ℕ) → parse_date local (to_iso ms) ≡ ms
unfolding parse_date to_iso
parse_date-to_iso local ms = omega arith

-- A SQLite text of a day sorts before each JavaScript text of that day, whatever the times.
pub stamp_leb-sql_iso_same_day :
    (s t : ℕ)
    → (sql_datetime s).day ≡ (to_iso t).day
    → stamp_leb (to_iso t) (sql_datetime s) ≡ false
unfolding stamp_leb sql_datetime to_iso
stamp_leb-sql_iso_same_day s t h = ground arith
