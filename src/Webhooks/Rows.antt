-- ===== src/Webhooks/Rows.antt =====
-- The row that an event leaves in the queue (src/server/webhooks.ts, src/storage/tasks.ts,
-- src/scheduler/queue.ts).
use openronin.Common.{
  ℕ, suc, String, Bool, true, ◌≡◌, refl, sym, ◌∙◌, ap, none, some, List, [], ◌∷◌, ◌==◌,
  Option-cases, inl, inr, Memᴰ, ==_refl, Bool-cases,
}
use openronin.Sql.{select}
use openronin.Sql.Laws.{select-mem, select-update_same, append-mem_last}
use openronin.Store.{Db, Task, Kind, Source, Priority, TaskStatus}
use openronin.Store.Tasks.{RepoRef, get_repo_id, ensure_repo, is_task, upsert}
use openronin.Queue.{enqueue}

-- a row has the id
abbrev pub HasTask : Db → ℕ → Type 0
HasTask db id = (t : Task) × (select (λ (x : Task). x.id == id) db.tasks ≡ some t)

-- The first row with the id waits at this priority, with no due date.
abbrev pub IsQueued : Db → ℕ → Priority → Type 0
IsQueued db id priority =
    (t : Task) × (select (λ (x : Task). x.id == id) db.tasks ≡ some t)
    × (t.status ≡ TaskStatus.pending)
    × (t.priority ≡ priority)
    × (t.next_due_at ≡ none)

mem-select {ℓ} :
    {A : Type ℓ} (p : A → Bool) {x : A} (xs : List A)
    → Memᴰ x xs
    → p x ≡ true
    → (y : A) × (select p xs ≡ some y)
unfolding select
mem-select p [] m h = elim m [ ]
mem-select p (y ∷ xs) (Memᴰ.head e) h = (y, rw (sym (ap p e) ∙ h) refl)
mem-select p (y ∷ xs) (Memᴰ.tail m) h = elim (Bool-cases (p y)) [
  | inl t ↦ (y, rw t refl)
  | inr t ↦ let (z, e) = mem-select p xs m h in (z, rw t e)
]

-- The id that an upsert returns is that of a row.
pub upsert-HasTask :
    (db : Db) (repo_id : ℕ) (external_id : String) (kind : Kind) (source : Source)
    → HasTask
        (upsert db repo_id external_id kind source).0
        (upsert db repo_id external_id kind source).1
unfolding upsert
upsert-HasTask db repo_id external_id kind source =
    elim (Option-cases (select (is_task repo_id external_id) db.tasks)) [
      | inl e ↦
          rw (e, upsert) (mem-select _ _ (append-mem_last db.tasks _) (==_refl (suc db.task_seq)))
      | inr (t, e) ↦
          rw (e, upsert) (mem-select _ db.tasks (select-mem _ db.tasks e).0 (==_refl t.id))
    ]

pub enqueue-IsQueued :
    (db : Db) (id : ℕ) (priority : Priority)
    → HasTask db id
    → IsQueued (enqueue db id priority none) id priority
unfolding enqueue
enqueue-IsQueued db id priority (t, e) =
    (_, select-update_same _ _ db.tasks (λ _. refl) e, refl, refl, refl)

-- A repository that has a row gets no other.
pub ensure_repo-same :
    (db : Db) (ref : RepoRef) (id : ℕ)
    → get_repo_id db ref ≡ some id
    → ensure_repo db ref ≡ (db, id)
unfolding ensure_repo
ensure_repo-same db ref id e = rw (e, ensure_repo) refl
