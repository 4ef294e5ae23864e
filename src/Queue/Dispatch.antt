-- ===== src/Queue/Dispatch.antt =====
-- Lemmas on `dequeue` (src/scheduler/queue.ts).
use openronin.Common.{
  ℕ, ◌≡◌, ◌≢◌, ◌↔◌, refl, true, Option, none, some, List, [], ◌∷◌, All, Memᴰ, arith, inl, inr, ◌==◌,
  Option-cases, ap, sym, ◌∙◌, subst, Bool-cases, All-mem,
}
use openronin.Sql.{first_by, select}
use openronin.Sql.Order.{first_by-IsLeast}
use openronin.Sql.Laws.{
  mem_image, All-update, All-select_all, All-intro, mem-select_all, select_all-mem, updated,
  mem_cases,
}
use openronin.Store.{Db, Task, Repo, running}
use openronin.Queue.Order.{queue_leb-IsOrder}
use openronin.Queue.Claims.{MayTake, HasRepo, Precedes, is_candidate_iff, queue_leb-Precedes}
use openronin.Queue.{
  QueuedTask, queue_leb, candidates, dequeue, as_running, mark_running, join_repos, is_candidate,
}

-- What holds of all tasks holds of all joined rows.
pub All-join_repos {κ} :
    (P : Task → Type κ) (repos : List Repo) (ts : List Task)
    → All P ts
    → All (λ row. P row.task) (join_repos repos ts)
unfolding join_repos
All-join_repos P repos [] h = tt
All-join_repos P repos (t ∷ ts) (h, hs) =
    elim (Option-cases (select (λ r. r.id == t.repo_id) repos)) [
      | inl e ↦ rw (e, join_repos) (All-join_repos P repos ts hs)
      | inr (r, e) ↦ rw (e, join_repos) (h, All-join_repos P repos ts hs)
    ]

mem-join_repos :
    (repos : List Repo) (ts : List Task) {row : QueuedTask}
    → Memᴰ row (join_repos repos ts)
    → Memᴰ row.task ts
unfolding join_repos
mem-join_repos repos [] m = elim m [ ]
mem-join_repos repos (t ∷ ts) {row} m =
    elim (Option-cases (select (λ r. r.id == t.repo_id) repos)) [
      | inl e ↦ Memᴰ.tail (mem-join_repos repos ts (rw (e, join_repos) at m))
      | inr (r, e) ↦
          mem_image (λ (q : QueuedTask). q.task) (mem-join_repos repos ts) (rw (e, join_repos) at m)
    ]

mem-candidates :
    (db : Db) (now : ℕ) (repo_id : Option ℕ) {row : QueuedTask}
    → Memᴰ row (candidates db now repo_id)
    → Memᴰ row.task db.tasks × (is_candidate now repo_id row.task ≡ true)
unfolding candidates
mem-candidates db now repo_id m =
    mem-select_all (is_candidate now repo_id) db.tasks (mem-join_repos db.repos _ m)

select-stored :
    (repos : List Repo) (t : Task) (r : Repo)
    → Memᴰ r repos
    → r.id ≡ t.repo_id
    → (q : Repo) × (select (λ x. x.id == t.repo_id) repos ≡ some q)
unfolding select
select-stored [] t r m e = elim m [ ]
select-stored (x ∷ xs) t r m e = elim (Bool-cases (x.id == t.repo_id)) [
  | inl h ↦ (x, rw h refl)
  | inr h ↦ elim (mem_cases m) [
    | inl same ↦ ground (arith, h, e, ap (λ (z : Repo). z.id) same)
    | inr later ↦ let (q, found) = select-stored xs t r later e in (q, rw h found)
  ]
]

join_repos-mem :
    (repos : List Repo) (ts : List Task) (t : Task)
    → Memᴰ t ts
    → (r : Repo) × Memᴰ r repos × (r.id ≡ t.repo_id)
    → (row : QueuedTask) × Memᴰ row (join_repos repos ts) × (row.task ≡ t)
unfolding join_repos
join_repos-mem repos [] t m h = elim m [ ]
join_repos-mem repos (x ∷ xs) t m (r, n, e) =
    elim (Option-cases (select (λ r. r.id == x.repo_id) repos)) [
      | inl none_found ↦ elim (mem_cases m) [
        | inl same ↦
            let (q, found) = select-stored repos x r n (e ∙ ap (λ (z : Task). z.repo_id) same) in
            ground (arith, sym none_found ∙ found)
        | inr later ↦ rw (none_found, join_repos) (join_repos-mem repos xs t later (r, n, e))
      ]
      | inr (q, found) ↦ elim (mem_cases m) [
        | inl same ↦ rw (found, join_repos) (_, Memᴰ.head refl, sym same)
        | inr later ↦
            let (row, k, eq) = join_repos-mem repos xs t later (r, n, e) in
            rw (found, join_repos) (row, Memᴰ.tail k, eq)
      ]
    ]

candidates-mem :
    (db : Db) (now : ℕ) (repo_id : Option ℕ) (t : Task)
    → Memᴰ t db.tasks
    → is_candidate now repo_id t ≡ true
    → HasRepo db t
    → (row : QueuedTask) × Memᴰ row (candidates db now repo_id) × (row.task ≡ t)
unfolding candidates
candidates-mem db now repo_id t m h r =
    join_repos-mem db.repos _ t (select_all-mem (is_candidate now repo_id) db.tasks m h) r

-- What a `dequeue` that returned a row did.
pub record Dequeued (db : Db) (now : ℕ) (repo_id : Option ℕ) (after : Db) (taken : QueuedTask)
    : Type 0 where
  pub row : QueuedTask
  pub from_table : Memᴰ row.task db.tasks
  pub allowed : MayTake now repo_id row.task
  pub first :
      (t : Task) → Memᴰ t db.tasks → MayTake now repo_id t → HasRepo db t → Precedes row.task t
  pub returned : taken ≡ as_running row
  pub stored : after ≡ mark_running row.task.id db

dequeue_cases :
    (db : Db) (now : ℕ) (repo_id : Option ℕ) {after : Db} {taken : QueuedTask}
    → dequeue db now repo_id ≡ (after, some taken)
    → (row : QueuedTask) × (first_by queue_leb (candidates db now repo_id) ≡ some row)
      × (taken ≡ as_running row)
      × (after ≡ mark_running row.task.id db)
unfolding dequeue
dequeue_cases db now repo_id h = ground arith

-- The task that `dequeue` returns is a pending task of the table, without a due date or due by `now`,
-- of the repository that was asked for if one was. It is before every other such task whose repository
-- is stored: of higher priority; or of the same priority and without a due date where the other has
-- one, or with an earlier one; or, level in both, with no greater id. It is returned and stored as
-- running, and the other rows are unchanged.
pub dequeue-Dequeued :
    (db : Db) (now : ℕ) (repo_id : Option ℕ) {after : Db} {taken : QueuedTask}
    → dequeue db now repo_id ≡ (after, some taken)
    → Dequeued db now repo_id after taken
dequeue-Dequeued db now repo_id h =
    let (row, first, returned, stored) = dequeue_cases db now repo_id h in
    let (found, least) = first_by-IsLeast queue_leb-IsOrder (candidates db now repo_id) first in
    let (from_table, due) = mem-candidates db now repo_id found in
    record {
      row = row;
      from_table = from_table;
      allowed = (is_candidate_iff now repo_id row.task).0 due;
      first = λ t m may stored_repo.
          let (c, in_queue, same) =
            candidates-mem db now repo_id t m ((is_candidate_iff now repo_id t).1 may)
              stored_repo in
          subst (Precedes row.task) same (
            queue_leb-Precedes row c (
              All-mem (λ (q : QueuedTask). queue_leb row q ≡ true) (candidates db now repo_id) least
                in_queue));
      returned = returned;
      stored = stored;
    }

first_by-none : (xs : List QueuedTask) → (first_by queue_leb xs ≡ none) ↔ (xs ≡ [])
unfolding first_by
first_by-none [] = (λ h. refl, λ h. refl)
first_by-none (x ∷ xs) = (λ h. ground arith, λ h. cc)

-- `dequeue` returns nothing exactly when no task is due in the scope, and then changes nothing.
pub dequeue-none_iff :
    (db : Db) (now : ℕ) (repo_id : Option ℕ)
    → (dequeue db now repo_id ≡ (db, none)) ↔ (candidates db now repo_id ≡ [])
unfolding dequeue
dequeue-none_iff db now repo_id = ground (arith, first_by-none (candidates db now repo_id))

abbrev set_running : Task → Task
set_running t = record t { status = running }

not_again :
    (k now : ℕ) (repo_id : Option ℕ) (t : Task)
    → is_candidate now repo_id (updated (λ x. x.id == k) set_running t) ≡ true
    → (updated (λ x. x.id == k) set_running t).id ≢ k
not_again k now repo_id t h = ground arith

pub mark_running_taken :
    (db : Db) (k now : ℕ) (repo_id : Option ℕ)
    → All (λ (row : QueuedTask). row.task.id ≢ k) (candidates (mark_running k db) now repo_id)
unfolding candidates
mark_running_taken db k now repo_id =
    All-join_repos (λ t. t.id ≢ k) db.repos _
      (All-select_all (λ t. t.id ≢ k) (is_candidate now repo_id) _
        (All-update (λ t. is_candidate now repo_id t ≡ true → t.id ≢ k) (λ t. t.id == k) set_running
          db.tasks (All-intro _ db.tasks (not_again k now repo_id))))

-- A task that was dequeued is not a candidate again, at any time and for any repository, while
-- the table stays as `dequeue` left it.
pub dequeue_once :
    (db : Db) (now later : ℕ) (repo_id repo_id' : Option ℕ) {after : Db} {taken : QueuedTask}
    → dequeue db now repo_id ≡ (after, some taken)
    → All (λ row. row.task.id ≢ taken.task.id) (candidates after later repo_id')
dequeue_once db now later repo_id repo_id' {after} {taken} h =
    let d = dequeue-Dequeued db now repo_id h in
    let same : taken.task.id ≡ d.row.task.id = ap (λ q. q.task.id) d.returned in
    rw (same, d.stored) (mark_running_taken db d.row.task.id later repo_id')
