-- ===== src/Director/Types.antt =====
-- Modes, authority, decisions and chat messages (src/director/types.ts,
-- src/director/decision-schema.ts). A text that the code only builds from parts and stores is a
-- constructor that holds the parts.
use openronin.Common.{ℕ, String, Bool, Option, List, Text}

pub data Mode : Type 0 where
  disabled dry_run propose semi_auto full_auto : Mode

pub record Authority : Type 0 where
  pub can_create_issues : Bool
  pub can_label : Bool
  pub can_close_issues : Bool
  pub can_comment : Bool
  pub can_approve_pr : Bool
  pub can_merge : Bool
  pub can_modify_charter : Bool

pub data IssuePriority : Type 0 where
  low normal high : IssuePriority

pub data MergeStrategy : Type 0 where
  merge squash rebase : MergeStrategy

-- A decision by its type, with the payload of that type.
pub data Payload : Type 0 where
  no_op : Payload
  create_issue : (title body : String) (labels : List String) (priority : IssuePriority) → Payload
  comment_on_issue : (issue_number : ℕ) (body : String) → Payload
  comment_on_pr : (pr_number : ℕ) (body : String) → Payload
  label_issue : (issue_number : ℕ) (add remove : List String) → Payload
  label_pr : (pr_number : ℕ) (add remove : List String) → Payload
  close_issue : (issue_number : ℕ) (reason : String) → Payload
  approve_pr : (pr_number : ℕ) (body : Option String) → Payload
  merge_pr : (pr_number : ℕ) (strategy : MergeStrategy) → Payload
  ask_user : (question : String) (context : Option String) → Payload
  amend_charter : (proposed_changes rationale : String) → Payload
  remember_preference : (body kind : String) → Payload

pub data Outcome : Type 0 where
  pending executed rejected expired failed dry_run skipped : Outcome

-- the `can_*` flag that a skipped decision lacked
pub data Flag : Type 0 where
  can_create_issues can_label can_close_issues can_comment can_approve_pr can_merge
        can_modify_charter :
      Flag

-- `outcome_details`
pub data Detail : Type 0 where
  not_executed : Detail
  flag_off : Flag → Detail
  queued : Detail
  nothing_done : Detail
  question_posted : Detail
  issue_created : (number : ℕ) (url : String) → Detail
  comment_posted : (number : ℕ) (url : String) → Detail
  pr_comment_posted : (number : ℕ) (url : String) → Detail
  labelled : (number : ℕ) → Detail
  pr_labelled : (number : ℕ) → Detail
  issue_closed : (number : ℕ) → Detail
  pr_approved : (number : ℕ) → Detail
  pr_merged : (number : ℕ) (sha : Option String) → Detail
  noted : (id : ℕ) (kind : String) → Detail
  message : Text → Detail
  rejected_by_human : (reason : Option String) → Detail
  duplicate_of : (id : ℕ) → Detail
  expired_after : (days : ℕ) → Detail

pub data Role : Type 0 where
  director user system : Role

pub data MessageType : Type 0 where
  status proposal question directive answer veto report tick_log error : MessageType

-- why the budget gate refuses a tick; the amounts in the texts are left out
pub data Refusal : Type 0 where
  paused : (reason : Option String) → Refusal
  failure_streak : (streak limit : ℕ) → Refusal
  think_budget_exhausted daily_budget_exhausted weekly_budget_exhausted : Refusal

-- where the retrospective moves the caps
pub data Verdict : Type 0 where
  climb shrink : Verdict

-- what the body of a chat message says
pub data Body : Type 0 where
  decision_skipped : Flag → Body
  failed_to_execute : Payload → ℕ → Text → Body
  ask : (question : String) (context : Option String) → Body
  proposal_of : Payload → ℕ → Body
  approval_skipped : Flag → Body
  approved_decision : ℕ → Body
  executed_report : ℕ → Detail → Body
  failed_on_approval : ℕ → Text → Body
  rejected_decision : ℕ → Option String → Body
  tick_skipped : Refusal → Body
  budget_recalibrated : Verdict → Body
  cannot_start : Text → Body
  llm_call_failed : Text → Body
  schema_invalid : Text → Body
  tick_status : (mode : Mode) (decisions : List Payload) → Body
  trust_ramp : Mode → Mode → Body
  expired_proposals : ℕ → Body
  user_text : String → Body

pub record Message : Type 0 where
  pub id : ℕ
  pub repo_id : ℕ
  pub ts : ℕ
  pub role : Role
  pub type : MessageType
  pub body : Body
  pub decision_id : Option ℕ

pub record Note : Type 0 where
  pub id : ℕ
  pub repo_id : ℕ
  pub kind : String
  pub body : String
