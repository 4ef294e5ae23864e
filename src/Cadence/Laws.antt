-- ===== src/Cadence/Laws.antt =====
-- Lemmas on the age buckets and the next due date (src/scheduler/cadence.ts).
use openronin.Common.{ℕ, ◌+◌, ◌≤◌, ◌≡◌, some, arith, leb}
use openronin.Stamp.{Stamp, to_iso, stamp_leb}
use openronin.Stamp.Laws.{parse_date-to_iso, stamp_leb-to_iso}
use openronin.Cadence.{
  Bucket, hot, default, cold, Cadence, bucket_for, interval, parse_duration_ms, compute_next_due_at,
  is_due,
}

abbrev pub bucket_rank : Bucket → ℕ
bucket_rank hot = 0
bucket_rank default = 1
bucket_rank cold = 2

-- As time passes, an item only moves from hot to default to cold, and never back.
pub bucket_for_ages :
    (created now later : ℕ)
    → now ≤ later
    → bucket_rank (bucket_for created now) ≤ bucket_rank (bucket_for created later)
unfolding bucket_for
bucket_for_ages created now later h = ground arith

-- The next due date is a text in the JavaScript format; the item is due at `t` exactly when the
-- interval of its bucket has passed since `now`. It is so for the worker, which compares texts, and
-- for `isDue`, which compares dates, whatever the host's time zone.
pub compute_next_due_at_due :
    (local : ℕ → ℕ) (created now t ms : ℕ) (c : Cadence) {due : Stamp}
    → parse_duration_ms (interval c (bucket_for created now)) ≡ some ms
    → compute_next_due_at created c now ≡ some due
    → (stamp_leb due (to_iso t) ≡ leb (now + ms) t) × (is_due local (some due) t ≡ leb (now + ms) t)
unfolding compute_next_due_at is_due
compute_next_due_at_due local created now t ms c e h =
    ground (arith, stamp_leb-to_iso (now + ms) t, parse_date-to_iso local (now + ms))
