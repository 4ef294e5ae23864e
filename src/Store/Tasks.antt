-- ===== src/Store/Tasks.antt =====
-- Repositories and tasks by their natural keys (src/storage/tasks.ts).
use openronin.Common.{
  ℕ, suc, String, Bool, ◌&&◌, false, Option, none, some, [], ◌∷◌, ◌++◌, ◌==◌, str_eq,
}
use openronin.Sql.{select, update}
use openronin.Stamp.{sql_datetime}
use openronin.Store.{Task, Repo, Db, Kind, issue, Source, vcs, jira, todoist, TaskStatus, Priority}

-- the reference that `getRepoId` and `ensureRepo` take
pub record RepoRef : Type 0 where
  pub provider : String
  pub owner : String
  pub name : String

abbrev pub is_repo : RepoRef → Repo → Bool
is_repo ref r =
    str_eq r.provider ref.provider && (str_eq r.owner ref.owner && str_eq r.name ref.name)

abbrev id_of_repo : Option Repo → Option ℕ
id_of_repo none = none
id_of_repo (some r) = some r.id

unfoldable pub get_repo_id : Db → RepoRef → Option ℕ
get_repo_id db ref = id_of_repo (select (is_repo ref) db.repos)

unfoldable pub ensure_repo : Db → RepoRef → Db × ℕ
unfolding get_repo_id
ensure_repo db ref = elim (get_repo_id db ref) [
  | some id ↦ (db, id)
  | none ↦ (
    record db {
      repos =
          db.repos
          ++ record {
            id = suc db.repo_seq;
            provider = ref.provider;
            owner = ref.owner;
            name = ref.name;
            watched = false;
          }
            ∷ [];
      repo_seq = suc db.repo_seq;
    },
    suc db.repo_seq,
  )
]

-- the key that the table holds unique
abbrev pub is_task : ℕ → String → Task → Bool
is_task repo_id external_id t = t.repo_id == repo_id && str_eq t.external_id external_id

-- a row as INSERT leaves it, the columns not named at their defaults
abbrev pub new_task : ℕ → ℕ → String → Kind → Source → Task
new_task id repo_id external_id kind source = record {
  id = id;
  repo_id = repo_id;
  external_id = external_id;
  kind = kind;
  status = TaskStatus.pending;
  priority = Priority.normal;
  next_due_at = none;
  last_run_at = none;
  snapshot_hash = none;
  decision_json = none;
  last_error = none;
  source = source;
}

-- the body that the three upserts share: the id of the row, inserted if it is not there
unfoldable pub upsert : Db → ℕ → String → Kind → Source → Db × ℕ
upsert db repo_id external_id kind source = elim (select (is_task repo_id external_id) db.tasks) [
  | some t ↦ (db, t.id)
  | none ↦ (
    record db {
      tasks = db.tasks ++ new_task (suc db.task_seq) repo_id external_id kind source ∷ [];
      task_seq = suc db.task_seq;
    },
    suc db.task_seq,
  )
]

unfoldable pub upsert_task : Db → ℕ → String → Kind → Db × ℕ
unfolding upsert
upsert_task db repo_id external_id kind = upsert db repo_id external_id kind vcs

unfoldable pub upsert_jira_task : Db → ℕ → String → Db × ℕ
unfolding upsert
upsert_jira_task db repo_id external_id = upsert db repo_id external_id issue jira

unfoldable pub upsert_todoist_task : Db → ℕ → String → Db × ℕ
unfolding upsert
upsert_todoist_task db repo_id external_id = upsert db repo_id external_id issue todoist

unfoldable pub record_task_decision : Db → ℕ → String → String → ℕ → Db
record_task_decision db task_id snapshot_hash decision_json now = record db {
  tasks =
      update (λ t. t.id == task_id)
        (λ t. record t {
          snapshot_hash = some snapshot_hash;
          last_run_at = some (sql_datetime now);
          decision_json = some decision_json;
        })
        db.tasks;
}
