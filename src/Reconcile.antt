-- ===== src/Reconcile.antt =====
-- What reconciliation does with one open item (`planTask` of src/scheduler/reconcile.ts). The hash of
-- an item (src/lib/snapshot.ts), `String` of its number and the host's reading of a local time are
-- parameters. `computeNextDueAt` throws on a malformed duration; what was written before stays.
pub mod Wanted
pub mod Plans
use openronin.Common.{
  ℕ, String, Bool, true, false, not, ◌&&◌, ◌||◌, Option, none, some, List, [], ◌∷◌, ◌==◌, ltb, leb,
  str_eq, has_text, if◌then◌else◌,
}
use openronin.Sql.{select, update}
use openronin.Stamp.{Stamp, sql_datetime, parse_date}
use openronin.Cadence.{Cadence, compute_next_due_at, is_due}
use openronin.Store.{
  Task, Db, Branch, BranchStatus, guardrail_blocked, cancelled, Priority, high, normal, is_pending,
  is_running,
}
use openronin.Store.Tasks.{upsert_task}
use openronin.Queue.{enqueue}
use openronin.Lane.{Item}

pub data Planned : Type 0 where
  planned : Bool → Db → Planned
  threw : Db → Planned

pub record Scan : Type 0 where
  pub snapshot : Item → String
  pub id_text : ℕ → String
  pub local : ℕ → ℕ
  pub cadence : Cadence
  pub patch_trigger_label : String

abbrev pub is_blocked : BranchStatus → Bool
is_blocked guardrail_blocked = true
is_blocked _ = false

-- `patchTriggerLabel && !item.labels.includes(patchTriggerLabel)`
abbrev pub lost_label : String → Item → Bool
lost_label label item = not (str_eq label "") && not (has_text label item.labels)

unfoldable pub cancel_blocked : Db → ℕ → ℕ → Db
cancel_blocked db task_id now = record db {
  branches =
      update (λ b. b.task_id == task_id && is_blocked b.status)
        (λ b. record b { status = cancelled; updated_at = some (sql_datetime now) }) db.branches;
}

-- `new Date(next_due_at).getTime() > now.getTime()`, for a date that is there
abbrev pub is_later : (ℕ → ℕ) → ℕ → Option Stamp → Bool
is_later local now none = false
is_later local now (some due) = ltb now (parse_date local due)

-- already running, or pending and not yet due
abbrev pub is_waiting : (ℕ → ℕ) → ℕ → Task → Bool
is_waiting local now t =
    is_running t.status || (is_pending t.status && is_later local now t.next_due_at)

-- `!existing.snapshot_hash`
abbrev pub is_new : Option String → Bool
is_new none = true
is_new (some hash) = str_eq hash ""

abbrev pub is_hash : String → Option String → Bool
is_hash hash none = false
is_hash hash (some stored) = str_eq stored hash

abbrev pub set_due : Db → ℕ → Stamp → Db
set_due db task_id due = record db {
  tasks = update (λ t. t.id == task_id) (λ t. record t { next_due_at = some due }) db.tasks;
}

abbrev pub requeue : Db → ℕ → Option Stamp → Planned
requeue db id none = threw db
requeue db id (some due) = planned true (enqueue db id normal (some due))

abbrev pub postpone : Db → ℕ → Option Stamp → Planned
postpone db id none = threw db
postpone db id (some due) = planned false (set_due db id due)

-- the decision for a row `t` as it was read
unfoldable pub plan_row : Scan → Item → ℕ → Task → Db → Planned
plan_row s item now t db =
    if is_waiting s.local now t
    then planned false db
    else if is_new t.snapshot_hash
    then planned true (enqueue db t.id high none)
    else if is_due s.local t.next_due_at now
    then (if is_hash (s.snapshot item) t.snapshot_hash
        then postpone db t.id (compute_next_due_at item.created_at s.cadence now)
        else requeue db t.id (compute_next_due_at item.created_at s.cadence now))
    else planned false db

abbrev pub cancel_if : Bool → Db → ℕ → ℕ → Db
cancel_if true db id now = cancel_blocked db id now
cancel_if false db id now = db

abbrev pub plan_found : Scan → Item → ℕ → Db → Option Task → Planned
plan_found s item now db none = planned false db
plan_found s item now db (some t) =
    plan_row s item now t (cancel_if (lost_label s.patch_trigger_label item) db t.id now)

abbrev pub plan_upserted : Scan → Item → ℕ → Db × ℕ → Planned
plan_upserted s item now (db, id) = plan_found s item now db (select (λ t. t.id == id) db.tasks)

unfoldable pub plan_task : Scan → Db → ℕ → Item → ℕ → Planned
plan_task s db repo_id item now =
    plan_upserted s item now (upsert_task db repo_id (s.id_text item.number) item.kind)
