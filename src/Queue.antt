-- ===== src/Queue.antt =====
-- The task queue over the tasks table (src/scheduler/queue.ts). `now` is the moment at which an
-- operation runs; `dequeue` is one transaction, so it is one step.
pub mod Order
pub mod Claims
pub mod Dispatch
pub mod Delays
use openronin.Common.{
  ℕ, ◌+◌, String, Bool, true, false, ◌&&◌, Option, none, some, List, [], ◌∷◌, ◌==◌, leb, Text,
  if◌then◌else◌,
}
use openronin.Sql.{select, select_all, update, count, first_by, then_by}
use openronin.Stamp.{Stamp, to_iso, stamp_leb, sql_datetime}
use openronin.Store.{
  Task, Repo, Db, Priority, high, normal, low, TaskStatus, pending, running, done, is_pending,
  is_running, is_done,
}

pub record QueuedTask : Type 0 where
  pub task : Task
  -- joined from repos
  pub provider : String
  pub owner : String
  pub repo_name : String

unfoldable pub enqueue : Db → ℕ → Priority → Option Stamp → Db
enqueue db task_id priority next_due_at = record db {
  tasks =
      update (λ t. t.id == task_id)
        (λ t. record t { status = pending; priority = priority; next_due_at = next_due_at })
        db.tasks;
}

abbrev pub rank : Priority → ℕ
rank high = 0
rank normal = 1
rank low = 2

abbrev pub null_first : Option Stamp → ℕ
null_first none = 0
null_first (some _) = 1

-- `next_due_at IS NULL OR next_due_at <= ?`
abbrev pub due_by : Stamp → Option Stamp → Bool
due_by now none = true
due_by now (some due) = stamp_leb due now

-- NULL sorts before every text.
unfoldable pub due_leb : Option Stamp → Option Stamp → Bool
due_leb none _ = true
due_leb (some a) none = false
due_leb (some a) (some b) = stamp_leb a b

-- the four terms of the ORDER BY
unfoldable pub by_priority : QueuedTask → QueuedTask → Bool
by_priority a b = leb (rank a.task.priority) (rank b.task.priority)

unfoldable pub by_null : QueuedTask → QueuedTask → Bool
by_null a b = leb (null_first a.task.next_due_at) (null_first b.task.next_due_at)

unfoldable pub by_due : QueuedTask → QueuedTask → Bool
by_due a b = due_leb a.task.next_due_at b.task.next_due_at

unfoldable pub by_id : QueuedTask → QueuedTask → Bool
by_id a b = leb a.task.id b.task.id

unfoldable pub queue_leb : QueuedTask → QueuedTask → Bool
queue_leb = then_by by_priority (then_by by_null (then_by by_due by_id))

-- the WHERE clause, with the repository if one is asked for
abbrev pub in_scope : Option ℕ → Task → Bool
in_scope none t = true
in_scope (some repo_id) t = t.repo_id == repo_id

abbrev pub is_candidate : ℕ → Option ℕ → Task → Bool
is_candidate now repo_id t =
    is_pending t.status && (due_by (to_iso now) t.next_due_at && in_scope repo_id t)

-- `JOIN repos r ON r.id = t.repo_id`; a task whose repository is gone has no row
unfoldable pub join_repos : List Repo → List Task → List QueuedTask
join_repos repos [] = []
join_repos repos (t ∷ ts) = elim (select (λ r. r.id == t.repo_id) repos) [
  | none ↦ join_repos repos ts
  | some r ↦
      record { task = t; provider = r.provider; owner = r.owner; repo_name = r.name }
      ∷ join_repos repos ts
]

unfoldable pub candidates : Db → ℕ → Option ℕ → List QueuedTask
candidates db now repo_id = join_repos db.repos (select_all (is_candidate now repo_id) db.tasks)

abbrev pub mark_running : ℕ → Db → Db
mark_running id db = record db {
  tasks = update (λ t. t.id == id) (λ t. record t { status = running }) db.tasks;
}

abbrev pub as_running : QueuedTask → QueuedTask
as_running row = record row { task = record (row.task) { status = running } }

unfoldable pub dequeue : Db → ℕ → Option ℕ → Db × Option QueuedTask
dequeue db now repo_id = elim (first_by queue_leb (candidates db now repo_id)) [
  | none ↦ (db, none)
  | some row ↦ (mark_running row.task.id db, some (as_running row))
]

unfoldable pub mark_done : Db → ℕ → Option Stamp → ℕ → Db
mark_done db task_id next_due_at now = record db {
  tasks =
      update (λ t. t.id == task_id)
        (λ t. record t {
          status = done;
          last_run_at = some (sql_datetime now);
          next_due_at = next_due_at;
          last_error = none;
        })
        db.tasks;
}

unfoldable pub requeue_paused : Db → ℕ → Db
requeue_paused db task_id = record db {
  tasks = update (λ t. t.id == task_id) (λ t. record t { status = pending }) db.tasks;
}

unfoldable pub mark_error : Db → ℕ → Text → ℕ → ℕ → Db
mark_error db task_id error retry_in_ms now = record db {
  tasks =
      update (λ t. t.id == task_id)
        (λ t. record t {
          status = pending;
          last_error = some error;
          next_due_at = some (to_iso (now + retry_in_ms));
        })
        db.tasks;
}

pub record QueueStats : Type 0 where
  pub pending : ℕ
  pub due : ℕ
  pub running : ℕ
  pub done : ℕ
  pub error : ℕ

abbrev pub has_error : Option Text → Bool
has_error none = false
has_error (some _) = true

unfoldable pub queue_stats : Db → ℕ → QueueStats
queue_stats db now = record {
  pending = count (λ t. is_pending t.status) db.tasks;
  due = count (λ t. is_pending t.status && due_by (to_iso now) t.next_due_at) db.tasks;
  running = count (λ t. is_running t.status) db.tasks;
  done = count (λ t. is_done t.status) db.tasks;
  error = count (λ t. has_error t.last_error) db.tasks;
}
