-- ===== src/Store.antt =====
-- The tables of src/storage/db.ts that the scheduler works on, as lists of rows in id order, with
-- the counters that AUTOINCREMENT takes ids from. A text column that only holds a known set of
-- words is a data type; `last_error`, which is searched and cut, is a list of code points.
pub mod Tasks
pub mod Branches
pub mod Runs
use openronin.Common.{
  ℕ, suc, String, Bool, true, false, Option, none, some, List, [], ◌∷◌, ◌++◌, Text,
}
use openronin.Stamp.{Stamp}

pub data Priority : Type 0 where
  high normal low : Priority

pub data TaskStatus : Type 0 where
  pending running done error : TaskStatus

pub data Kind : Type 0 where
  issue pull_request : Kind

pub data Source : Type 0 where
  vcs jira todoist : Source

pub record Task : Type 0 where
  pub id : ℕ
  pub repo_id : ℕ
  pub external_id : String
  pub kind : Kind
  pub status : TaskStatus
  pub priority : Priority
  pub next_due_at : Option Stamp
  pub last_run_at : Option Stamp
  pub snapshot_hash : Option String
  pub decision_json : Option String
  pub last_error : Option Text
  pub source : Source

pub record Repo : Type 0 where
  pub id : ℕ
  pub provider : String
  pub owner : String
  pub name : String
  pub watched : Bool

-- The words that the lanes, the webhooks and the queue write into `pr_branches.status`.
pub data BranchStatus : Type 0 where
  created opened closed cancelled error dirty guardrail_blocked no_changes needs_human :
      BranchStatus

pub record Branch : Type 0 where
  pub id : ℕ
  pub task_id : ℕ
  pub branch : String
  pub base_sha : Option String
  pub head_sha : Option String
  pub pr_number : Option ℕ
  pub pr_url : Option String
  pub status : BranchStatus
  pub iterations : ℕ
  pub conflict_resolutions_count : ℕ
  pub last_error : Option Text
  pub created_at : Stamp
  pub updated_at : Option Stamp

pub record Db : Type 0 where
  pub tasks : List Task
  pub task_seq : ℕ
  pub repos : List Repo
  pub repo_seq : ℕ
  pub branches : List Branch
  pub branch_seq : ℕ

abbrev pub is_pending : TaskStatus → Bool
is_pending pending = true
is_pending _ = false

abbrev pub is_running : TaskStatus → Bool
is_running running = true
is_running _ = false

abbrev pub is_done : TaskStatus → Bool
is_done done = true
is_done _ = false
