-- ===== src/Worker/Settles.antt =====
-- The row of the task that a round of the worker took (src/scheduler/worker.ts).
use openronin.Common.{
  ℕ, ◌≡◌, refl, true, false, Option, none, some, ◌==◌, All, arith, Text, Bool-cases, Option-cases,
  inl, inr, if_intro,
}
use openronin.Sql.{update}
use openronin.Sql.Laws.{All-update, All-intro, updated}
use openronin.Stamp.{Stamp}
use openronin.Store.{Db, Task, is_running}
use openronin.Queue.{QueuedTask, dequeue, mark_done, mark_error, requeue_paused}
use openronin.Lane.{Lane, analyze, patch, patch_multi, pr_dialog, RepoConfig, Item}
use openronin.Worker.{
  World, Ran, returned, threw, WorkResult, Fetched, got, failed, AnalyzeOutcome, PatchOutcome,
  enqueue_immediate, next_due, after_analyze, after_patch, run_lane, attempt, settle, work,
  process_one, with_task, ◌>>=◌, find_repo, is_parking,
}

-- No row with this id is running.
abbrev pub IsSettled : ℕ → Db → Type 0
IsSettled k db = All (λ t. (t.id == k) ≡ true → is_running t.status ≡ false) db.tasks

IsSettled-update :
    (db : Db) (k : ℕ) (f : Task → Task)
    → ((t : Task) → (f t).id ≡ t.id)
    → ((t : Task) → is_running (f t).status ≡ false)
    → IsSettled k (record db { tasks = update (λ t. t.id == k) f db.tasks })
IsSettled-update db k f same idle =
    All-update (λ t. (t.id == k) ≡ true → is_running t.status ≡ false) (λ t. t.id == k) f db.tasks
      (All-intro _ db.tasks λ t. row t)
  where
    row :
        (t : Task)
        → ((updated (λ x. x.id == k) f t).id == k) ≡ true
        → is_running (updated (λ x. x.id == k) f t).status ≡ false
    row t h = ground (arith, same t, idle t)

pub mark_done-IsSettled :
    (db : Db) (k : ℕ) (due : Option Stamp) (now : ℕ) → IsSettled k (mark_done db k due now)
unfolding mark_done
mark_done-IsSettled db k due now = IsSettled-update db k _ (λ t. refl) (λ t. refl)

pub mark_error-IsSettled :
    (db : Db) (k : ℕ) (e : Text) (ms now : ℕ) → IsSettled k (mark_error db k e ms now)
unfolding mark_error
mark_error-IsSettled db k e ms now = IsSettled-update db k _ (λ t. refl) (λ t. refl)

pub requeue_paused-IsSettled : (db : Db) (k : ℕ) → IsSettled k (requeue_paused db k)
unfolding requeue_paused
requeue_paused-IsSettled db k = IsSettled-update db k _ (λ t. refl) (λ t. refl)

pub enqueue_immediate-IsSettled : (db : Db) (k : ℕ) → IsSettled k (enqueue_immediate db k)
unfolding enqueue_immediate
enqueue_immediate-IsSettled db k = IsSettled-update db k _ (λ t. refl) (λ t. refl)

-- A run of a lane that returns a result has put the task back, and the result names the task.
abbrev Settles : ℕ → Ran WorkResult → Type 0
Settles k (returned r db) = IsSettled k db × (r.task_id ≡ k)
Settles k (threw e db) = Unit

>>=-Settles :
    {A : Type 0} (k : ℕ) (m : Ran A) (f : A → Db → Ran WorkResult)
    → ((a : A) (db : Db) → Settles k (f a db))
    → Settles k (m >>= f)
>>=-Settles k (returned a db) f h = h a db
>>=-Settles k (threw e db) f h = tt

module _ (w : World) (repo : RepoConfig) (item : Item) (id now : ℕ) where
  after_analyze-Settles :
      (o : AnalyzeOutcome) (db : Db) → Settles id (after_analyze w repo item id now o db)
  unfolding after_analyze
  after_analyze-Settles AnalyzeOutcome.ready db = (enqueue_immediate-IsSettled _ id, refl)
  after_analyze-Settles _ db =
      >>=-Settles id (next_due w repo now now db) _
        (λ due db. (mark_done-IsSettled db id _ now, refl))

  after_patch-Settles :
      (lane : Lane) (o : PatchOutcome) (db : Db)
      → Settles id (after_patch w repo item id now lane o db)
  unfolding after_patch
  after_patch-Settles lane o db = elim (Bool-cases (is_parking o)) [
    | inl e ↦ rw e (mark_done-IsSettled db id _ now, refl)
    | inr e ↦ rw e (
        >>=-Settles id (next_due w repo item.created_at now db) _
          (λ due db. (mark_done-IsSettled db id _ now, refl)))
  ]

  run_lane-Settles :
      (lane : Option Lane) (db : Db) → Settles id (run_lane w repo item id now lane db)
  unfolding run_lane
  run_lane-Settles none db =
      >>=-Settles id (next_due w repo now now db) _
        (λ due db. (mark_done-IsSettled db id _ now, refl))
  run_lane-Settles (some analyze) db =
      >>=-Settles id (w.run_analyze repo item db) _ after_analyze-Settles
  run_lane-Settles (some patch) db =
      >>=-Settles id (w.run_patch repo item db) _ (after_patch-Settles patch)
  run_lane-Settles (some patch_multi) db =
      >>=-Settles id (w.run_patch_multi repo item db) _ (after_patch-Settles patch_multi)
  run_lane-Settles (some pr_dialog) db = >>=-Settles id (w.run_pr_dialog repo item db) _ λ o db.
      >>=-Settles id (next_due w repo now now db) _
        (λ due db. (mark_done-IsSettled db id _ now, refl))
  run_lane-Settles (some _) db = >>=-Settles id (w.run_review repo item db) _ λ o db.
      >>=-Settles id (next_due w repo item.created_at now db) _
        (λ due db. (mark_done-IsSettled db id _ now, refl))

attempt-Settles :
    (w : World) (repo : RepoConfig) (q : QueuedTask) (now : ℕ) (db : Db)
    → Settles q.task.id (attempt w repo q now db)
unfolding attempt
attempt-Settles w repo q now db = go (w.get_item repo q.task.external_id) refl
  where
    go :
        (o : Fetched)
        → w.get_item repo q.task.external_id ≡ o
        → Settles q.task.id (attempt w repo q now db)
    go (failed e) h = rw (h, attempt) tt
    go (got item) h = rw (h, attempt) (run_lane-Settles w repo item q.task.id now _ _)

settle-IsSettled :
    (w : World) (t : Task) (now : ℕ) (r : Ran WorkResult)
    → Settles t.id r
    → IsSettled t.id (settle w t now r).0 × ((settle w t now r).1.task_id ≡ t.id)
unfolding settle
settle-IsSettled w t now (returned r db) h = h
settle-IsSettled w t now (threw e db) h = (mark_error-IsSettled db t.id _ _ now, refl)

-- The task has been put back, and the result names it.
abbrev Put : ℕ → Db × WorkResult → Type 0
Put k p = IsSettled k p.0 × (p.1.task_id ≡ k)

work-IsSettled : (w : World) (q : QueuedTask) (now : ℕ) (db : Db) → Put q.task.id (work w q now db)
unfolding work
work-IsSettled w q now db =
    if_intro (Put q.task.id) w.paused (requeue_paused-IsSettled db q.task.id, refl)
      (elim (Option-cases (find_repo w.repos q)) [
        | inl n ↦ rw (n, work) (mark_error-IsSettled db q.task.id _ _ now, refl)
        | inr (repo, s) ↦
            rw (s, work)
              (if_intro (Put q.task.id) repo.hidden
                (mark_error-IsSettled db q.task.id _ _ now, refl)
                (settle-IsSettled w q.task now (attempt w repo q now db)
                  (attempt-Settles w repo q now db)))
      ])

with_task_cases :
    (w : World) (later : ℕ) (d : Db × Option QueuedTask) {after : Db} {r : WorkResult}
    → with_task w later d ≡ (after, some r)
    → (taken : QueuedTask) × (db' : Db) × (d ≡ (db', some taken))
      × (work w taken later db' ≡ (after, r))
with_task_cases w later (db', none) h = cc
with_task_cases w later (db', some q) h = (q, db', refl, ground arith)

process_one_cases :
    (w : World) (db : Db) (repo_id : Option ℕ) (now later : ℕ) {after : Db} {r : WorkResult}
    → process_one w db repo_id now later ≡ (after, some r)
    → (taken : QueuedTask) × (db' : Db) × (dequeue db now repo_id ≡ (db', some taken))
      × (work w taken later db' ≡ (after, r))
unfolding process_one
process_one_cases w db repo_id now later h = with_task_cases w later (dequeue db now repo_id) h

-- Whatever the provider answers, whatever the lane does to the database, returns or throws, a
-- round that reports on a task took it from the queue, and does not leave it running.
pub process_one-IsSettled :
    (w : World) (db : Db) (repo_id : Option ℕ) (now later : ℕ) {after : Db} {r : WorkResult}
    → process_one w db repo_id now later ≡ (after, some r)
    → (taken : QueuedTask) × (db' : Db) × (dequeue db now repo_id ≡ (db', some taken))
      × (r.task_id ≡ taken.task.id)
      × IsSettled taken.task.id after
process_one-IsSettled w db repo_id now later {after} {r} h =
    let (taken, db', deq, worked) = process_one_cases w db repo_id now later h in
    let (idle, named) = work-IsSettled w taken later db' in
    (taken, db', deq, rw worked at named, rw worked at idle)
