-- ===== src/Store/Branches.antt =====
-- The branches that the patch lanes push, and their pull requests (src/storage/pr-branches.ts).
pub mod Rows
use openronin.Common.{
  ℕ, suc, String, Bool, true, false, ◌&&◌, Option, none, some, [], ◌∷◌, ◌++◌, ◌==◌, str_eq, leb,
  ltb, Text,
}
use openronin.Sql.{select, select_all, update, count, first_by}
use openronin.Stamp.{sql_datetime}
use openronin.Store.{Task, Branch, Db, BranchStatus, created, cancelled, error, dirty}

-- the arguments of `recordPrBranch`
pub record NewBranch : Type 0 where
  pub task_id : ℕ
  pub branch : String
  pub base_sha : Option String
  pub head_sha : Option String
  pub pr_number : Option ℕ
  pub pr_url : Option String
  pub status : Option BranchStatus
  pub last_error : Option Text

abbrev pub status_or : Option BranchStatus → BranchStatus
status_or none = created
status_or (some s) = s

abbrev pub is_branch : NewBranch → Branch → Bool
is_branch args b = b.task_id == args.task_id && str_eq b.branch args.branch

-- `DO UPDATE SET … = excluded.…`
abbrev pub overwrite : NewBranch → ℕ → Branch → Branch
overwrite args now b = record b {
  base_sha = args.base_sha;
  head_sha = args.head_sha;
  pr_number = args.pr_number;
  pr_url = args.pr_url;
  status = status_or args.status;
  last_error = args.last_error;
  updated_at = some (sql_datetime now);
}

abbrev pub new_branch : ℕ → NewBranch → ℕ → Branch
new_branch id args now = record {
  id = id;
  task_id = args.task_id;
  branch = args.branch;
  base_sha = args.base_sha;
  head_sha = args.head_sha;
  pr_number = args.pr_number;
  pr_url = args.pr_url;
  status = status_or args.status;
  iterations = 0;
  conflict_resolutions_count = 0;
  last_error = args.last_error;
  created_at = sql_datetime now;
  updated_at = some (sql_datetime now);
}

-- `recordPrBranch`, without the row id that it returns and no caller reads
unfoldable pub record_pr_branch : Db → NewBranch → ℕ → Db
record_pr_branch db args now = elim (select (is_branch args) db.branches) [
  | some _ ↦ record db { branches = update (is_branch args) (overwrite args now) db.branches }
  | none ↦ record db {
    branches = db.branches ++ new_branch (suc db.branch_seq) args now ∷ [];
    branch_seq = suc db.branch_seq;
  }
]

unfoldable pub bump_iteration : Db → ℕ → ℕ → Db
bump_iteration db branch_id now = record db {
  branches =
      update (λ b. b.id == branch_id)
        (λ b. record b { iterations = suc b.iterations; updated_at = some (sql_datetime now) })
        db.branches;
}

unfoldable pub bump_conflict_resolutions : Db → ℕ → ℕ → Db
bump_conflict_resolutions db branch_id now = record db {
  branches =
      update (λ b. b.id == branch_id)
        (λ b. record b {
          conflict_resolutions_count = suc b.conflict_resolutions_count;
          updated_at = some (sql_datetime now);
        })
        db.branches;
}

unfoldable pub update_branch_head_sha : Db → ℕ → String → ℕ → Db
update_branch_head_sha db branch_id head_sha now = record db {
  branches =
      update (λ b. b.id == branch_id)
        (λ b. record b { head_sha = some head_sha; updated_at = some (sql_datetime now) })
        db.branches;
}

-- `ORDER BY id DESC`
abbrev pub newer : Branch → Branch → Bool
newer a b = leb b.id a.id

unfoldable pub get_pr_branch_by_task : Db → ℕ → Option Branch
get_pr_branch_by_task db task_id =
    first_by newer (select_all (λ b. b.task_id == task_id) db.branches)

abbrev in_repo : ℕ → Option Task → Bool
in_repo repo_id none = false
in_repo repo_id (some t) = t.repo_id == repo_id

abbrev has_number : ℕ → Option ℕ → Bool
has_number n none = false
has_number n (some k) = k == n

-- the JOIN with tasks, which are unique by id
abbrev is_pr_of : Db → ℕ → ℕ → Branch → Bool
is_pr_of db repo_id pr_number b =
    in_repo repo_id (select (λ t. t.id == b.task_id) db.tasks) && has_number pr_number b.pr_number

unfoldable pub get_pr_branch_by_pr_number : Db → ℕ → ℕ → Option Branch
get_pr_branch_by_pr_number db repo_id pr_number =
    first_by newer (select_all (is_pr_of db repo_id pr_number) db.branches)

abbrev pub is_transient : BranchStatus → Bool
is_transient error = true
is_transient dirty = true
is_transient _ = false

abbrev pub transient_of : ℕ → Branch → Bool
transient_of task_id b = b.task_id == task_id && is_transient b.status

unfoldable pub lift_transient_park : Db → ℕ → ℕ → Db × Bool
lift_transient_park db task_id now = (
  record db {
    branches =
        update (transient_of task_id)
          (λ b. record b { status = cancelled; updated_at = some (sql_datetime now) }) db.branches;
  },
  ltb 0 (count (transient_of task_id) db.branches),
)
