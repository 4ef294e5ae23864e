-- ===== src/Queue/Delays.antt =====
-- Lemmas on putting a task back: `markDone`, `markError`, `requeuePaused` (src/scheduler/queue.ts).
use openronin.Common.{
  ℕ, ◌+◌, ◌<◌, ◌≡◌, ◌≢◌, refl, true, false, Option, some, List, [], ◌∷◌, All, Memᴰ, arith, ◌==◌,
  sym, ap, ◌∙◌, Text, All-mem,
}
use openronin.Sql.{update}
use openronin.Sql.Laws.{
  All-update, All-select_all, All-intro, update-update, update_id, updated, All-imp,
}
use openronin.Stamp.{Stamp}
use openronin.Stamp.Laws.{stamp_leb-to_iso}
use openronin.Store.{Db, Task, running, pending}
use openronin.Queue.{
  QueuedTask, candidates, dequeue, mark_running, is_candidate, requeue_paused, mark_error,
  mark_done,
}
use openronin.Queue.Dispatch.{All-join_repos, dequeue-Dequeued}

-- The tasks that no update of a row brings in front of a worker.
pub update_waits :
    (db : Db) (k later : ℕ) (repo_id : Option ℕ) (f : Task → Task)
    → ((t : Task) → (f t).id ≡ t.id)
    → ((t : Task) → is_candidate later repo_id (f t) ≡ false)
    → All
        (λ (row : QueuedTask). row.task.id ≢ k)
        (candidates (record db { tasks = update (λ t. t.id == k) f db.tasks }) later repo_id)
unfolding candidates
update_waits db k later repo_id f same idle =
    All-join_repos (λ t. t.id ≢ k) db.repos _
      (All-select_all (λ t. t.id ≢ k) (is_candidate later repo_id) _
        (All-update (λ t. is_candidate later repo_id t ≡ true → t.id ≢ k) (λ t. t.id == k) f
          db.tasks (All-intro _ db.tasks λ t. waits t)))
  where
    waits :
        (t : Task)
        → is_candidate later repo_id (updated (λ x. x.id == k) f t) ≡ true
        → (updated (λ x. x.id == k) f t).id ≢ k
    waits t h e = ground (arith, same t, idle t)

-- After `mark_error` a task is not handed out before the retry delay has passed.
pub mark_error_waits :
    (db : Db) (k : ℕ) (error : Text) (retry now later : ℕ) (repo_id : Option ℕ)
    → later < now + retry
    → All
        (λ (row : QueuedTask). row.task.id ≢ k)
        (candidates (mark_error db k error retry now) later repo_id)
unfolding mark_error
mark_error_waits db k error retry now later repo_id h =
    update_waits db k later repo_id _ (λ t. refl)
      (λ t. ground (arith, stamp_leb-to_iso (now + retry) later))

-- After `mark_done` a task is not handed out at all until something makes it pending again.
pub mark_done_waits :
    (db : Db) (k now later : ℕ) (next : Option Stamp) (repo_id : Option ℕ)
    → All
        (λ (row : QueuedTask). row.task.id ≢ k)
        (candidates (mark_done db k next now) later repo_id)
unfolding mark_done
mark_done_waits db k now later next repo_id =
    update_waits db k later repo_id _ (λ t. refl) (λ t. refl)

-- Ids are a primary key.
abbrev pub HasUniqueIds : List Task → Type 0
HasUniqueIds [] = Unit
HasUniqueIds (t ∷ ts) = All (λ u. u.id ≢ t.id) ts × HasUniqueIds ts

-- The other rows with the id of a row: none.
same_id_same_status :
    (ts : List Task) (t : Task)
    → HasUniqueIds ts
    → Memᴰ t ts
    → t.status ≡ pending
    → All (λ u. (u.id == t.id) ≡ true → u.status ≡ pending) ts
same_id_same_status [] t h m e = tt
same_id_same_status (u ∷ us) t (fresh, h) (Memᴰ.head same) e = (
  λ _. ap (λ x. x.status) (sym same) ∙ e,
  All-imp (λ v. v.id ≢ u.id) _ us (λ v ne eq. absurd (ground (arith, ap (λ x. x.id) same))) fresh,
)
same_id_same_status (u ∷ us) t (fresh, h) (Memᴰ.tail m) e = (
  λ eq. absurd (ground (arith, All-mem (λ v. v.id ≢ u.id) us fresh m)),
  same_id_same_status us t h m e,
)

requeue_row : (t : Task) → t.status ≡ pending → record t { status = pending } ≡ t
requeue_row t e = λ i. record t { status = sym e i }

requeue_paused-mark_running :
    (db : Db) (t : Task)
    → HasUniqueIds db.tasks
    → Memᴰ t db.tasks
    → t.status ≡ pending
    → requeue_paused (mark_running t.id db) t.id ≡ db
unfolding requeue_paused
requeue_paused-mark_running db t keys m e =
    let was = same_id_same_status db.tasks t keys m e in
    let twice =
      update-update (λ u. u.id == t.id) (λ u. record u { status = running })
        (λ u. record u { status = pending }) db.tasks (λ u. refl) in
    let once =
      update_id (λ u. u.id == t.id) (λ u. record u { status = pending }) db.tasks
        (All-imp (λ u. (u.id == t.id) ≡ true → u.status ≡ pending) _ db.tasks
          (λ u h eq. requeue_row u (h eq)) was) in
    λ i. record db { tasks = (twice ∙ once) i }

-- Dequeuing a task and putting it back because the scheduler is paused leaves the database as it
-- was, where the ids of tasks are unique.
pub requeue_paused-dequeue :
    (db : Db) (now : ℕ) (repo_id : Option ℕ) {after : Db} {taken : QueuedTask}
    → HasUniqueIds db.tasks
    → dequeue db now repo_id ≡ (after, some taken)
    → requeue_paused after taken.task.id ≡ db
requeue_paused-dequeue db now repo_id {after} {taken} keys h =
    let d = dequeue-Dequeued db now repo_id h in
    let same : taken.task.id ≡ d.row.task.id = ap (λ q. q.task.id) d.returned in
    rw (same, d.stored) (requeue_paused-mark_running db d.row.task keys d.from_table d.allowed.0)
