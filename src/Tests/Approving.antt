-- ===== src/Tests/Approving.antt =====
-- Approving and rejecting decisions on concrete data.
use openronin.Common.{◌≡◌, inr, refl, true, false, none, some, []}
use openronin.Sql.{select}
use openronin.Director.Types.{semi_auto, full_auto, amend_charter, Outcome}
use openronin.Director.Decisions.{get_decision_by_id}
use openronin.Director.Approval.{
  Overrides, approve_decision, reject_decision, refusal, Refusal, checked, check, run_rejected,
}
use openronin.Director.Approval.Once.{is_done, approve_decision_once}
use openronin.Director.Approval.Runs.{was_executed, approve_decision-amend_charter}
use openronin.Tests.Provider.{a_context, proposed, merging}

abbrev no_edits : Overrides
no_edits = record {
  title = none;
  body = none;
  labels = none;
  priority = none;
  add = none;
  remove = none;
  reason = none;
  strategy = none;
  question = none;
  context = none;
  proposed_changes = none;
  rationale = none;
  kind = none;
}

rejects :
    is_done (reject_decision (a_context semi_auto) 1 (some 1) none (proposed merging)).1 ≡ true
unfolding reject_decision checked check get_decision_by_id select run_rejected
rejects = refl

approve_decision_once_example :
    (r : Refusal) × (approve_decision
        (a_context full_auto)
        1
        (some 1)
        none
        (reject_decision (a_context semi_auto) 1 (some 1) none (proposed merging)).0
      ≡ ((reject_decision (a_context semi_auto) 1 (some 1) none (proposed merging)).0, refusal r))
    × (reject_decision
          (a_context full_auto)
          1
          (some 1)
          none
          (reject_decision (a_context semi_auto) 1 (some 1) none (proposed merging)).0
        ≡ ((reject_decision (a_context semi_auto) 1 (some 1) none (proposed merging)).0, refusal r))
approve_decision_once_example =
    approve_decision_once (a_context semi_auto) (a_context full_auto) 1 (some 1) (some 1) none none
      none none (proposed merging)
      (reject_decision (a_context semi_auto) 1 (some 1) none (proposed merging)).0
      (inr (refl, rejects))

approve_decision-amend_charter_example :
    ((approve_decision
        (a_context full_auto)
        1
        (some 1)
        none
        (proposed (amend_charter "c" "r"))).0.log
      ≡ [])
    × (was_executed
          (approve_decision
            (a_context full_auto)
            1
            (some 1)
            none
            (proposed (amend_charter "c" "r"))).1
        ≡ false)
unfolding get_decision_by_id select
approve_decision-amend_charter_example =
    approve_decision-amend_charter (a_context full_auto) 1 (some 1) none
      (proposed (amend_charter "c" "r"))
      (record {
        id = 1;
        repo_id = 1;
        ts = 0;
        rationale = "because";
        payload = amend_charter "c" "r";
        payload_hash = none;
        outcome = Outcome.pending;
        outcome_ts = none;
        outcome_details = none;
      })
      refl refl
