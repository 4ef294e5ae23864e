-- ===== src/Worker.antt =====
-- One round of the worker (`processOne`, `drain` and `drainRepo` of src/scheduler/worker.ts).
-- The provider's `getItem` and the lanes are parameters: a lane returns its outcome, or throws, with
-- the database as it leaves it. So are `isPaused` (a file on disk), `JSON.parse`, `Number` on an
-- external id, and the pattern that finds a 404 in a message. `now` is the moment of the dequeue and
-- `later` that of the writes that follow. The `detail` texts of a result go to the log only.
pub mod Base
pub mod Lanes
pub mod Settles
pub mod Drains
pub mod Outcomes
unfoldable pub use Base.*
unfoldable pub use Lanes.*
use openronin.Common.{
  ℕ, zero, suc, ◌+◌, ◌-◌, ◌*◌, String, Bool, true, false, ◌&&◌, ◌||◌, Option, none, some, List, [],
  ◌∷◌, ◌++◌, ◌==◌, Text, codes, max, str_eq, if◌then◌else◌,
}
use openronin.Sql.{select, update}
use openronin.Stamp.{Stamp, to_iso, sql_datetime}
use openronin.Cadence.{Cadence, parse_duration_ms, compute_next_due_at}
use openronin.Store.{
  Task, Branch, Db, Kind, issue, pull_request, TaskStatus, pending, high, BranchStatus,
}
use openronin.Store.Tasks.{RepoRef, ensure_repo}
use openronin.Store.Branches.{get_pr_branch_by_pr_number}
use openronin.Queue.{QueuedTask, dequeue, mark_done, mark_error, requeue_paused}
use openronin.Lane.{
  Lane, triage, analyze, deep_review, patch, patch_multi, pr_dialog, RepoConfig, Item, ItemState,
  Stored, is_closed, is_closed_item, pick_lane,
}

abbrev until_reset : Option ℕ → ℕ → ℕ
until_reset none now = 0
until_reset (some reset_at) now = reset_at - now

abbrev cooldown_of : Option ℕ → ℕ
cooldown_of none = 0
cooldown_of (some ms) = ms

-- how long the `catch` makes the task wait; the cooldown's text was validated when it was loaded
unfoldable pub retry_delay : World → Thrown → Cause → ℕ → ℕ
retry_delay w e cost_cap_exceeded now = hour
retry_delay w e (rate_limited reset_at) now =
    max (cooldown_of (parse_duration_ms w.rate_limit_cooldown)) (until_reset reset_at now)
retry_delay w e (other status) now = if is_vcs_404 w e status then 365 * day else hour

-- the text that a 404 is stored with
unfoldable pub gone_text : String → Text
gone_text external_id =
    codes "VCS returned 404 — issue/PR " ++ (codes external_id ++ codes " no longer exists")

-- the text that is stored as the task's error
unfoldable pub error_text : World → Thrown → Cause → String → Text
unfolding gone_text
error_text w e (other status) external_id =
    if is_vcs_404 w e status then gone_text external_id else e.message
error_text w e _ external_id = e.message

-- the `catch`
unfoldable pub settle : World → Task → ℕ → Ran WorkResult → Db × WorkResult
unfolding retry_delay error_text
settle w t now (returned r db) = (db, r)
settle w t now (threw e db) = (
  mark_error db t.id (error_text w e e.cause t.external_id) (retry_delay w e e.cause now) now,
  record { task_id = t.id; status = WorkStatus.error; lane = none },
)

abbrev skip : ℕ → WorkResult
skip id = record { task_id = id; status = skipped; lane = none }

-- what is done with a task that was dequeued
unfoldable pub work : World → QueuedTask → ℕ → Db → Db × WorkResult
work w q now db =
    if w.paused then (requeue_paused db q.task.id, skip q.task.id) else elim (find_repo w.repos q) [
      | none ↦ (
        mark_error db q.task.id (codes "repo not in current config (unwatched)") day now,
        skip q.task.id,
      )
      | some repo ↦
          if repo.hidden
          then (
            mark_error db q.task.id (codes "repo is hidden — not processing") day now,
            skip q.task.id,
          )
          else settle w q.task now (attempt w repo q now db)
    ]

abbrev pub with_task : World → ℕ → Db × Option QueuedTask → Db × Option WorkResult
with_task w later (db, none) = (db, none)
with_task w later (db, some q) = let (after, r) = work w q later db in (after, some r)

unfoldable pub process_one : World → Db → Option ℕ → ℕ → ℕ → Db × Option WorkResult
process_one w db repo_id now later = with_task w later (dequeue db now repo_id)

-- what one round of a drain meets: the world at that time, and its two moments
pub record Round : Type 0 where
  pub world : World
  pub now : ℕ
  pub later : ℕ

abbrev pub next_round : (Db → Db × List WorkResult) → Db × Option WorkResult → Db × List WorkResult
next_round rest (db, none) = (db, [])
next_round rest (db, some r) = let (db', rs) = rest db in (db', r ∷ rs)

-- `drain` (for `none`) and `drainRepo`; there are as many rounds as the limit
unfoldable pub drain : Option ℕ → List Round → Db → Db × List WorkResult
drain repo_id [] db = (db, [])
drain repo_id (r ∷ rs) db =
    next_round (drain repo_id rs) (process_one r.world db repo_id r.now r.later)
