-- ===== src/Lane.antt =====
-- Which lane a task goes through (`pickLane` of src/scheduler/worker.ts), over the parts of a
-- repository's configuration that the scheduler reads (src/config/schema.ts). `JSON.parse` of a
-- stored decision is a parameter: `none` where it throws or gives nothing that has fields.
pub mod Laws
use openronin.Common.{
  ℕ, String, Bool, true, false, ◌&&◌, ◌||◌, Option, none, some, List, [], ◌∷◌, str_eq, has_text,
  if◌then◌else◌,
}
use openronin.Sql.{select}
use openronin.Cadence.{Cadence}
use openronin.Store.{
  Task, Branch, Db, Kind, issue, pull_request, BranchStatus, guardrail_blocked, no_changes,
  needs_human,
}
use openronin.Store.Tasks.{is_task}
use openronin.Store.Branches.{get_pr_branch_by_task, get_pr_branch_by_pr_number}

pub data Lane : Type 0 where
  triage analyze deep_review patch patch_multi pr_dialog : Lane

pub record RepoConfig : Type 0 where
  pub provider : String
  pub owner : String
  pub name : String
  pub watched : Bool
  pub hidden : Bool
  pub lanes : List Lane
  pub cadence : Option Cadence
  pub patch_trigger_label : String
  pub pr_dialog_skip_authors : List String
  pub auto_merge_enabled : Bool

pub data ItemState : Type 0 where
  opened closed : ItemState

-- what a provider reports of an issue or a pull request
pub record Item : Type 0 where
  pub number : ℕ
  pub kind : Kind
  pub state : ItemState
  pub labels : List String
  -- `new Date(item.createdAt)`, in milliseconds
  pub created_at : ℕ

-- the fields of a stored decision that are read back
pub record Stored : Type 0 where
  pub lane : Option String
  pub state : Option String

abbrev pub lane_eq : Lane → Lane → Bool
lane_eq triage triage = true
lane_eq analyze analyze = true
lane_eq deep_review deep_review = true
lane_eq patch patch = true
lane_eq patch_multi patch_multi = true
lane_eq pr_dialog pr_dialog = true
lane_eq _ _ = false

abbrev pub includes : List Lane → Lane → Bool
includes [] l = false
includes (x ∷ xs) l = lane_eq x l || includes xs l

-- `TERMINAL_BRANCH_STATUSES`
abbrev pub is_terminal : BranchStatus → Bool
is_terminal guardrail_blocked = true
is_terminal no_changes = true
is_terminal needs_human = true
is_terminal _ = false

abbrev pub is_closed : BranchStatus → Bool
is_closed BranchStatus.closed = true
is_closed _ = false

abbrev pub is_closed_item : ItemState → Bool
is_closed_item ItemState.closed = true
is_closed_item _ = false

abbrev pub terminal_branch : Option Branch → Bool
terminal_branch none = false
terminal_branch (some b) = is_terminal b.status

abbrev live_branch : Option Branch → Bool
live_branch none = false
live_branch (some b) = if is_closed b.status then false else true

abbrev is_word : String → Option String → Bool
is_word w none = false
is_word w (some v) = str_eq v w

-- `hasTrigger`
unfoldable pub has_trigger : RepoConfig → Item → Bool
has_trigger repo item =
    (includes repo.lanes patch || includes repo.lanes patch_multi)
    && has_text repo.patch_trigger_label item.labels

-- an earlier attempt of the task that waits for a human
unfoldable pub is_parked : Db → ℕ → String → Bool
is_parked db repo_id external_id = elim (select (is_task repo_id external_id) db.tasks) [
  | none ↦ false
  | some t ↦ terminal_branch (get_pr_branch_by_task db t.id)
]

unfoldable pub stored_decision : (String → Option Stored) → Db → ℕ → String → Option Stored
stored_decision parse db repo_id external_id =
    elim (select (is_task repo_id external_id) db.tasks) [
      | none ↦ none
      | some t ↦ elim t.decision_json [ none ↦ none | some json ↦ parse json ]
    ]

abbrev patch_lane : RepoConfig → Lane
patch_lane repo = if includes repo.lanes patch_multi then patch_multi else patch

-- analyze until it has said `ready`, then patch
unfoldable pub analyze_first : RepoConfig → Option Stored → Lane
analyze_first repo none = analyze
analyze_first repo (some stored) =
    if is_word "analyze" stored.lane && is_word "ready" stored.state
    then patch_lane repo
    else analyze

unfoldable pub pick_issue_lane :
    (String → Option Stored) → RepoConfig → Item → Db → ℕ → String → Option Lane
unfolding has_trigger
pick_issue_lane parse repo item db repo_id external_id =
    if has_trigger repo item && is_parked db repo_id external_id
    then none
    else if has_trigger repo item && includes repo.lanes analyze
    then some (analyze_first repo (stored_decision parse db repo_id external_id))
    else if has_trigger repo item
    then some (patch_lane repo)
    else if includes repo.lanes triage
    then some triage
    else none

unfoldable pub pick_pr_lane : RepoConfig → Db → ℕ → ℕ → Option Lane
pick_pr_lane repo db repo_id number =
    if includes repo.lanes pr_dialog
    then (if live_branch (get_pr_branch_by_pr_number db repo_id number)
        then some pr_dialog
        else none)
    else none

abbrev by_kind {ℓ} : {A : Type ℓ} → Kind → A → A → A
by_kind issue a b = a
by_kind pull_request a b = b

-- `number` is `Number(task.external_id)`, and `external_id` is `String(number)`
unfoldable pub pick_lane :
    (String → Option Stored) → RepoConfig → Item → Db → ℕ → ℕ → String → Option Lane
unfolding pick_issue_lane pick_pr_lane
pick_lane parse repo item db repo_id number external_id =
    if is_closed_item item.state
    then none
    else by_kind item.kind (pick_issue_lane parse repo item db repo_id external_id)
        (pick_pr_lane repo db repo_id number)
