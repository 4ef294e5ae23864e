-- ===== src/Director/Approval.antt =====
-- Approving and rejecting a pending decision (src/director/executor.ts). The repository of the
-- request is looked up by its id, if it has a row; the actor only goes into metadata, which is not
-- modelled.
pub mod Once
pub mod Runs
use openronin.Common.{
  ℕ, suc, String, Bool, true, false, not, Option, none, some, List, [], ◌∷◌, ◌==◌, Text, codes,
  if◌then◌else◌,
}
use openronin.Director.Types.{
  Payload, no_op, create_issue, comment_on_issue, comment_on_pr, label_issue, label_pr, close_issue,
  approve_pr, merge_pr, ask_user, amend_charter, remember_preference, IssuePriority, MergeStrategy,
  Outcome, Flag, Detail, Role, MessageType, Body,
}
use openronin.Director.Decisions.{
  Decision, set_decision_payload, set_decision_outcome, get_decision_by_id, is_pending,
}
use openronin.Director.Executor.{
  Context, State, Ran, ok, err, authority_for, post_chat, attempt, finalize,
}

-- the fields that a form may carry, each if it is there
pub record Overrides : Type 0 where
  pub title : Option String
  pub body : Option String
  pub labels : Option (List String)
  pub priority : Option IssuePriority
  pub add : Option (List String)
  pub remove : Option (List String)
  pub reason : Option String
  pub strategy : Option MergeStrategy
  pub question : Option String
  pub context : Option String
  pub proposed_changes : Option String
  pub rationale : Option String
  pub kind : Option String

-- `merged[f] = overrides[f]` where the form has `f`
abbrev pub or_else : {A : Type 0} → A → Option A → A
or_else a none = a
or_else a (some b) = b

abbrev or_keep : {A : Type 0} → Option A → Option A → Option A
or_keep a none = a
or_keep a (some b) = some b

unfoldable pub merge_payload_overrides : Payload → Overrides → Payload
merge_payload_overrides no_op o = no_op
merge_payload_overrides (create_issue title body labels priority) o =
    create_issue (or_else title o.title) (or_else body o.body) (or_else labels o.labels)
      (or_else priority o.priority)
merge_payload_overrides (comment_on_issue n body) o = comment_on_issue n (or_else body o.body)
merge_payload_overrides (comment_on_pr n body) o = comment_on_pr n (or_else body o.body)
merge_payload_overrides (label_issue n add remove) o =
    label_issue n (or_else add o.add) (or_else remove o.remove)
merge_payload_overrides (label_pr n add remove) o =
    label_pr n (or_else add o.add) (or_else remove o.remove)
merge_payload_overrides (close_issue n reason) o = close_issue n (or_else reason o.reason)
merge_payload_overrides (approve_pr n body) o = approve_pr n (or_keep body o.body)
merge_payload_overrides (merge_pr n strategy) o = merge_pr n (or_else strategy o.strategy)
merge_payload_overrides (ask_user question context) o =
    ask_user (or_else question o.question) (or_keep context o.context)
merge_payload_overrides (amend_charter changes rationale) o =
    amend_charter (or_else changes o.proposed_changes) (or_else rationale o.rationale)
merge_payload_overrides (remember_preference body kind) o =
    remember_preference (or_else body o.body) (or_else kind o.kind)

pub data Refusal : Type 0 where
  not_found : ℕ → Refusal
  not_pending : ℕ → Outcome → Refusal
  other_repo : ℕ → Refusal

pub data ApproveResult : Type 0 where
  done : Outcome → Detail → ApproveResult
  refusal : Refusal → ApproveResult

abbrev pub same_repo : Decision → Option ℕ → Bool
same_repo d none = false
same_repo d (some repo_id) = d.repo_id == repo_id

-- the checks that approving and rejecting share
unfoldable pub check : Option Decision → ℕ → Option ℕ → Option Refusal
check none decision_id repo = some (not_found decision_id)
check (some d) decision_id repo =
    if not (is_pending d.outcome)
    then some (not_pending decision_id d.outcome)
    else if same_repo d repo
    then none
    else some (other_repo decision_id)

-- the payload that an approval executes; edits are stored
abbrev edited : Decision → Option Overrides → Payload
edited d none = d.payload
edited d (some o) = merge_payload_overrides d.payload o

abbrev store_edits : ℕ → Decision → Option Overrides → State → State
store_edits decision_id d none s = s
store_edits decision_id d (some o) s = record s {
  db = set_decision_payload s.db decision_id (merge_payload_overrides d.payload o);
}

unfoldable pub concluded : Context → ℕ → Decision → Ran Detail → State × ApproveResult
concluded c decision_id d (ok detail s) = (
  post_chat d.repo_id Role.director MessageType.report (Body.executed_report decision_id detail)
      decision_id
      (record s { db = set_decision_outcome s.db decision_id Outcome.executed detail c.now }),
  done Outcome.executed detail,
)
concluded c decision_id d (err e s) = (
  post_chat d.repo_id Role.system MessageType.error (Body.failed_on_approval decision_id e)
      decision_id
      (record s {
        db = set_decision_outcome s.db decision_id Outcome.failed (Detail.message e) c.now;
      }),
  done Outcome.failed (Detail.message e),
)

-- an approval that passed the checks: `p` is the payload, `s` has it stored
unfoldable pub run_approved : Context → ℕ → Decision → Payload → State → State × ApproveResult
run_approved c decision_id d p s = elim (authority_for p c.authority) [
  | some flag ↦ (
    post_chat d.repo_id Role.system MessageType.tick_log (Body.approval_skipped flag) decision_id
        (record s {
          db = set_decision_outcome s.db decision_id Outcome.skipped (Detail.flag_off flag) c.now;
        }),
    done Outcome.skipped (Detail.flag_off flag),
  )
  | none ↦ concluded c decision_id d (
      attempt c decision_id d.repo_id p (
        post_chat d.repo_id Role.user MessageType.answer (Body.approved_decision decision_id)
          decision_id s))
]

-- the state is left alone where the checks refuse
unfoldable pub checked :
    Option Decision
    → ℕ
    → Option ℕ
    → (Decision → State → State × ApproveResult)
    → State
    → State × ApproveResult
checked found decision_id repo go s = elim (check found decision_id repo) [
  | some r ↦ (s, refusal r)
  | none ↦ elim found [ none ↦ (s, refusal (not_found decision_id)) | some d ↦ go d s ]
]

unfoldable pub approve_decision :
    Context → ℕ → Option ℕ → Option Overrides → State → State × ApproveResult
approve_decision c decision_id repo overrides s =
    checked (get_decision_by_id s.db decision_id) decision_id repo
      (λ d s.
        run_approved c decision_id d (edited d overrides) (store_edits decision_id d overrides s))
      s

unfoldable pub run_rejected : Context → ℕ → Option String → Decision → State → State × ApproveResult
run_rejected c decision_id reason d s = (
  post_chat d.repo_id Role.user MessageType.veto (Body.rejected_decision decision_id reason)
      decision_id
      (record s {
        db =
            set_decision_outcome s.db decision_id Outcome.rejected (Detail.rejected_by_human reason)
              c.now;
      }),
  done Outcome.rejected (Detail.rejected_by_human reason),
)

unfoldable pub reject_decision :
    Context → ℕ → Option ℕ → Option String → State → State × ApproveResult
reject_decision c decision_id repo reason s =
    checked (get_decision_by_id s.db decision_id) decision_id repo
      (run_rejected c decision_id reason) s
