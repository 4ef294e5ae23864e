-- ===== src/Worker/Outcomes.antt =====
-- A round of a paused scheduler, of an inert repository and with an error
-- (src/scheduler/worker.ts).
use openronin.Common.{
  ℕ, ◌+◌, ◌≤◌, ◌<◌, ◌≡◌, ◌≢◌, refl, true, false, Option, none, some, All, arith, max, inl, inr, ap,
  ◌∙◌, ◌⊎◌,
}
use openronin.Cadence.{parse_duration_ms}
use openronin.Store.{Db}
use openronin.Queue.{QueuedTask, dequeue, requeue_paused, candidates}
use openronin.Queue.Delays.{mark_error_waits, HasUniqueIds, requeue_paused-dequeue}
use openronin.Lane.{RepoConfig}
use openronin.Worker.{
  World, threw, Thrown, rate_limited, WorkResult, WorkStatus, skipped, attempt, settle, work,
  process_one, with_task, find_repo, retry_delay, error_text, day,
}

-- The task is not handed out, for any repository, before the moment.
abbrev pub WaitsUntil : ℕ → ℕ → Db → Type 0
WaitsUntil k moment db =
    (t : ℕ) (repo_id : Option ℕ)
    → t < moment
    → All (λ (row : QueuedTask). row.task.id ≢ k) (candidates db t repo_id)

skipped_result : ℕ → WorkResult
skipped_result id = record { task_id = id; status = skipped; lane = none }

work-paused :
    (w : World) (q : QueuedTask) (now : ℕ) (db : Db)
    → w.paused ≡ true
    → work w q now db ≡ (requeue_paused db q.task.id, skipped_result q.task.id)
unfolding work skipped_result
work-paused w q now db p = ground arith

-- While the scheduler is paused a round that finds a task leaves the database as it was, where the
-- ids of tasks are unique, and reports the task as skipped.
pub process_one-paused :
    (w : World) (db : Db) (repo_id : Option ℕ) (now later : ℕ) {db' : Db} {taken : QueuedTask}
    → w.paused ≡ true
    → HasUniqueIds db.tasks
    → dequeue db now repo_id ≡ (db', some taken)
    → process_one w db repo_id now later
      ≡ (db, some (record { task_id = taken.task.id; status = skipped; lane = none }))
unfolding process_one skipped_result
process_one-paused w db repo_id now later {db'} {taken} p keys h =
    ap (with_task w later) h
    ∙ ap (λ p. (p.0, some p.1)) (work-paused w taken later db' p)
    ∙ ap (λ d. (d, some (skipped_result taken.task.id)))
        (requeue_paused-dequeue db now repo_id keys h)

-- Where the scheduler is not paused, a task of a repository that is hidden, or that the
-- configuration does not name, is reported as skipped with no lane, and not handed out again for
-- a day.
pub work-inert :
    (w : World) (q : QueuedTask) (now t : ℕ) (repo_id : Option ℕ) (db : Db)
    → w.paused ≡ false
    → (find_repo w.repos q ≡ none)
      ⊎ ((repo : RepoConfig) × (find_repo w.repos q ≡ some repo) × (repo.hidden ≡ true))
    → t < now + day
    → ((work w q now db).1 ≡ record { task_id = q.task.id; status = skipped; lane = none })
      × All (λ row. row.task.id ≢ q.task.id) (candidates (work w q now db).0 t repo_id)
unfolding work
work-inert w q now t repo_id db p (inl n) h =
    rw (p, n, work) (refl, mark_error_waits db q.task.id _ day now t repo_id h)
work-inert w q now t repo_id db p (inr (repo, s, hidden)) h =
    rw (p, s, hidden, work) (refl, mark_error_waits db q.task.id _ day now t repo_id h)

-- What the catch does with a thrown value.
work-threw_lem :
    (w : World) (q : QueuedTask) (now : ℕ) (db : Db) (repo : RepoConfig) (e : Thrown) (db' : Db)
    → w.paused ≡ false
    → find_repo w.repos q ≡ some repo
    → repo.hidden ≡ false
    → attempt w repo q now db ≡ threw e db'
    → work w q now db ≡ settle w q.task now (threw e db')
unfolding work
work-threw_lem w q now db repo e db' p s v h = ground arith

rate_limited_delay :
    (w : World) (e : Thrown) (now reset cooldown : ℕ)
    → parse_duration_ms w.rate_limit_cooldown ≡ some cooldown
    → max reset (now + cooldown) ≤ now + retry_delay w e (rate_limited (some reset)) now
unfolding retry_delay
rate_limited_delay w e now reset cooldown h = rw h (omega arith)

-- Where the scheduler is not paused and the task's repository is configured and not hidden: a
-- task whose lane or provider throws is reported as an error and not handed out again before the
-- delay that the kind of error calls for.
pub work-threw :
    (w : World) (q : QueuedTask) (now t : ℕ) (repo_id : Option ℕ) (db : Db) (repo : RepoConfig)
    (e : Thrown) (db' : Db)
    → w.paused ≡ false
    → find_repo w.repos q ≡ some repo
    → repo.hidden ≡ false
    → attempt w repo q now db ≡ threw e db'
    → t < now + retry_delay w e e.cause now
    → ((work w q now db).1.status ≡ WorkStatus.error)
      × All (λ row. row.task.id ≢ q.task.id) (candidates (work w q now db).0 t repo_id)
unfolding settle
work-threw w q now t repo_id db repo e db' p s v h lt =
    rw (work-threw_lem w q now db repo e db' p s v h) (
      refl,
      mark_error_waits db' q.task.id (error_text w e e.cause q.task.external_id) _ now t repo_id lt,
    )

-- Where the scheduler is not paused and the task's repository is configured and not hidden: after
-- a rate limit with a known reset the task is reported as an error and waits for the reset and
-- for the configured cooldown, whichever is later.
pub work-rate_limited :
    (w : World) (q : QueuedTask) (now t : ℕ) (repo_id : Option ℕ) (db : Db) (repo : RepoConfig)
    (e : Thrown) (db' : Db) (reset cooldown : ℕ)
    → w.paused ≡ false
    → find_repo w.repos q ≡ some repo
    → repo.hidden ≡ false
    → attempt w repo q now db ≡ threw e db'
    → e.cause ≡ rate_limited (some reset)
    → parse_duration_ms w.rate_limit_cooldown ≡ some cooldown
    → t < max reset (now + cooldown)
    → ((work w q now db).1.status ≡ WorkStatus.error)
      × All (λ row. row.task.id ≢ q.task.id) (candidates (work w q now db).0 t repo_id)
unfolding retry_delay
work-rate_limited w q now t repo_id db repo e db' reset cooldown p s v h limited known lt =
    work-threw w q now t repo_id db repo e db' p s v h
      (rw limited (omega (arith, rate_limited_delay w e now reset cooldown known)))
