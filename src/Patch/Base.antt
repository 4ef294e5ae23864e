-- ===== src/Patch/Base.antt =====
-- The guardrails, the rows and the parts of a run of the patch lane (src/lanes/patch.ts).
use openronin.Common.{
  ℕ, ◌+◌, String, Bool, true, false, ◌&&◌, Option, none, some, List, [], ◌∷◌, ◌++◌, ◌==◌, ltb, leb,
  Text, if◌then◌else◌,
}
use openronin.Sql.{select_all, count, first_by}
use openronin.Store.{Db, Branch, Kind, BranchStatus, created, opened, closed}
use openronin.Store.Tasks.{RepoRef}
use openronin.Store.Branches.{NewBranch}
use openronin.Messages.{starts_with}

pub record DiffStats : Type 0 where
  pub has_changes : Bool
  pub files_changed : List Text
  pub lines_added : ℕ
  pub lines_removed : ℕ

pub data Blocked : Type 0 where
  too_large : (total max : ℕ) → Blocked
  touches : (file path : Text) → Blocked

-- the first protected path that the file is or begins with
unfoldable pub matched_path : Text → List Text → Option Text
matched_path file [] = none
matched_path file (p ∷ ps) =
    let rest = matched_path file ps in if starts_with file p then some p else rest

unfoldable pub touched : List Text → List Text → Option Blocked
touched [] paths = none
touched (f ∷ fs) paths = elim (matched_path f paths) [
  | some p ↦ some (touches f p)
  | none ↦ touched fs paths
]

unfoldable pub check_guardrails : DiffStats → List Text → ℕ → Option Blocked
check_guardrails stats protected_paths max_diff_lines =
    let total = stats.lines_added + stats.lines_removed in
    if ltb max_diff_lines total
    then some (too_large total max_diff_lines)
    else touched stats.files_changed protected_paths

pub data PatchOutcome : Type 0 where
  pr_opened no_changes guardrail_blocked error : PatchOutcome

pub data Why : Type 0 where
  lane_disabled no_token active_pr worktree_dirty no_commits : Why
  blocked : Blocked → Why
  raised : Text → Why
  pr : ℕ → Why

pub record PatchResult : Type 0 where
  pub outcome : PatchOutcome
  pub task_id : Option ℕ
  pub detail : Why

-- what may fail gives the message of the error
pub data Tried (A : Type 0) : Type 0 where
  done : A → Tried A
  threw : Text → Tried A

-- what the commit of leftover edits comes to
pub data Leftover : Type 0 where
  commit_failed still_dirty : Leftover
  clean : (head_sha : String) → Leftover

pub record Workdir : Type 0 where
  -- the clone, the identity and the SHA of the base
  pub base_sha : Tried String
  pub checked_out : Tried (Unit {0})
  -- the agent's run, then the SHA of HEAD and the state of the worktree
  pub agent : Tried (String × DiffStats)
  pub leftover : Leftover
  pub committed : Tried DiffStats
  pub push : Tried (Unit {0})
  pub pull_request : Tried (ℕ × String)

pub data Effect : Type 0 where
  acknowledged agent_ran leftovers_committed pushed pr_requested told_blocked told_failed
        told_opened label_removed cleaned_up :
      Effect

pub record PatchRepo : Type 0 where
  pub ref : RepoRef
  pub has_lane : Bool
  pub has_token : Bool
  pub protected_paths : List Text
  pub max_diff_lines : ℕ

-- the issue: the text of its number, its kind, and the name of its first branch
pub record PatchItem : Type 0 where
  pub id_text : String
  pub kind : Kind
  pub base_branch : String

pub record PatchState : Type 0 where
  pub db : Db
  pub log : List Effect

abbrev pub is_active : BranchStatus → Bool
is_active created = true
is_active opened = true
is_active _ = false

abbrev pub is_closed : BranchStatus → Bool
is_closed closed = true
is_closed _ = false

-- the active branch of the task
unfoldable pub active_branch : Db → ℕ → Option Branch
active_branch db task_id =
    first_by (λ (a b : Branch). leb b.id a.id)
      (select_all (λ (b : Branch). b.task_id == task_id && is_active b.status) db.branches)

abbrev pub closed_count : Db → ℕ → ℕ
closed_count db task_id =
    count (λ (b : Branch). b.task_id == task_id && is_closed b.status) db.branches

abbrev pub emit : Effect → PatchState → PatchState
emit e s = record s { log = s.log ++ e ∷ [] }

-- the SHA that is stored with the decision
abbrev pub head_or : Option String → Option String → String
head_or base (some head) = head
head_or none none = ""
head_or (some base) none = base

abbrev pub branch_of :
    ℕ
    → String
    → Option String
    → Option String
    → Option ℕ
    → Option String
    → BranchStatus
    → Option Text
    → NewBranch
branch_of task_id branch base head pr_number pr_url status last_error = record {
  task_id = task_id;
  branch = branch;
  base_sha = base;
  head_sha = head;
  pr_number = pr_number;
  pr_url = pr_url;
  status = some status;
  last_error = last_error;
}

abbrev pub end : PatchOutcome → ℕ → Why → PatchState → PatchState × PatchResult
end outcome task_id why s =
    (emit cleaned_up s, record { outcome = outcome; task_id = some task_id; detail = why })

-- `lang.patch_blocked`, the label for attention, the label of progress taken off
abbrev pub tell : Effect → PatchState → PatchState
tell e s = emit label_removed (emit e s)
