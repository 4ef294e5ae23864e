-- ===== src/Director/Executor.antt =====
-- Carrying out a decision (src/director/executor.ts). The provider is a parameter: it answers a call
-- given the calls made before it. So is the test of a message for a transient error, and the text of
-- an error that building the provider throws. An effect returns its answer or an error, with the
-- calls made and the tables as they are then; waiting between two attempts has no effect.
pub mod Provider
pub mod Actions
pub mod Gates
pub mod Effects
unfoldable pub use Provider.*
unfoldable pub use Actions.*
use openronin.Common.{
  ℕ, suc, String, Bool, true, false, not, ◌&&◌, ◌||◌, Option, none, some, List, [], ◌∷◌, ◌++◌, ◌==◌,
  Text, codes, if◌then◌else◌,
}
use openronin.Director.Types.{
  Mode, disabled, dry_run, propose, semi_auto, full_auto, Authority, Payload, no_op, create_issue,
  comment_on_issue, comment_on_pr, label_issue, label_pr, close_issue, approve_pr, merge_pr,
  ask_user, amend_charter, remember_preference, Outcome, Flag, Detail, Role, MessageType, Body,
  MergeStrategy,
}
use openronin.Director.Decisions.{
  Tables, Decision, append_message, record_note, set_decision_outcome, set_decision_payload,
  get_decision_by_id, is_pending,
}

-- ── Authority and approval ──

abbrev pub gate : Bool → Flag → Option Flag
gate true flag = none
gate false flag = some flag

-- `authorityFor`: the flag that the decision lacks
unfoldable pub authority_for : Payload → Authority → Option Flag
authority_for (create_issue _ _ _ _) a = gate a.can_create_issues Flag.can_create_issues
authority_for (comment_on_issue _ _) a = gate a.can_comment Flag.can_comment
authority_for (comment_on_pr _ _) a = gate a.can_comment Flag.can_comment
authority_for (label_issue _ _ _) a = gate a.can_label Flag.can_label
authority_for (label_pr _ _ _) a = gate a.can_label Flag.can_label
authority_for (close_issue _ _) a = gate a.can_close_issues Flag.can_close_issues
authority_for (approve_pr _ _) a = gate a.can_approve_pr Flag.can_approve_pr
authority_for (merge_pr _ _) a = gate a.can_merge Flag.can_merge
authority_for (amend_charter _ _) a = gate a.can_modify_charter Flag.can_modify_charter
authority_for (remember_preference _ _) a = none
authority_for (ask_user _ _) a = none
authority_for no_op a = none

abbrev is_merge : Payload → Bool
is_merge (merge_pr _ _) = true
is_merge _ = false

abbrev approval_by_mode : Payload → Mode → Bool
approval_by_mode d propose = true
approval_by_mode d semi_auto = is_merge d
approval_by_mode d full_auto = false
approval_by_mode d Mode.dry_run = true
approval_by_mode d disabled = true

unfoldable pub decision_needs_approval : Payload → Mode → Bool
decision_needs_approval no_op mode = false
decision_needs_approval (ask_user _ _) mode = false
decision_needs_approval (remember_preference _ _) mode = false
decision_needs_approval (amend_charter _ _) mode = true
decision_needs_approval d mode = approval_by_mode d mode

-- ── Execution ──

pub record Context : Type 0 where
  pub vcs : Vcs
  pub mode : Mode
  pub authority : Authority
  pub now : ℕ

pub record ExecuteResult : Type 0 where
  pub outcome : Outcome
  pub details : Detail

unfoldable pub finalize : ℕ → Outcome → Detail → ℕ → State → State × ExecuteResult
finalize decision_id outcome details now s = (
  record s { db = set_decision_outcome s.db decision_id outcome details now },
  record { outcome = outcome; details = details },
)

abbrev pub conclude : Context → ℕ → ℕ → Payload → Ran Detail → State × ExecuteResult
conclude c decision_id repo_id d (ok detail s) =
    finalize decision_id Outcome.executed detail c.now s
conclude c decision_id repo_id d (err e s) =
    finalize decision_id Outcome.failed (Detail.message e) c.now (
      post_chat repo_id Role.system MessageType.error (Body.failed_to_execute d decision_id e)
        decision_id s)

abbrev pub is_dry_run : Mode → Bool
is_dry_run Mode.dry_run = true
is_dry_run _ = false

-- the run with its retries
unfoldable pub attempt : Context → ℕ → ℕ → Payload → Exec Detail
attempt c decision_id repo_id d =
    with_transient_retry (c.vcs).is_transient delays_ms (run_decision c.vcs decision_id repo_id d)

unfoldable pub execute_decision : Context → ℕ → ℕ → Payload → State → State × ExecuteResult
execute_decision c decision_id repo_id d s =
    if is_dry_run c.mode
    then finalize decision_id Outcome.dry_run Detail.not_executed c.now s
    else elim (authority_for d c.authority) [
      | some flag ↦ finalize decision_id Outcome.skipped (Detail.flag_off flag) c.now (
          post_chat repo_id Role.system MessageType.tick_log (Body.decision_skipped flag)
            decision_id s)
      | none ↦
          if decision_needs_approval d c.mode
          then finalize decision_id Outcome.pending Detail.queued c.now (
              post_chat repo_id Role.director MessageType.proposal (Body.proposal_of d decision_id)
                decision_id s)
          else conclude c decision_id repo_id d (attempt c decision_id repo_id d s)
    ]
