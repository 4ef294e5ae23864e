-- ===== src/Director/Executor/Gates.antt =====
-- What mode and authority let `executeDecision` do (src/director/executor.ts).
use openronin.Common.{
  ℕ, ◌≡◌, ◌⊎◌, inl, inr, refl, Bool, true, false, none, some, arith, Option-cases, Bool-cases,
  if_intro, All, ◌==◌,
}
use openronin.Director.Types.{
  Mode, semi_auto, full_auto, Authority, Payload, no_op, create_issue, comment_on_issue,
  comment_on_pr, label_issue, label_pr, close_issue, approve_pr, merge_pr, ask_user,
  remember_preference, Outcome, Detail,
}
use openronin.Sql.Laws.{All-update, All-intro}
use openronin.Director.Decisions.{Decision, set_decision_outcome}
use openronin.Director.Executor.{
  State, Context, ExecuteResult, authority_for, decision_needs_approval, execute_decision, finalize,
  post_chat, run_decision, attempt, with_transient_retry, Ran, ok, err, conclude, is_dry_run,
}

-- The permission that an operator gives for a decision of this type.
abbrev pub Permitted : Payload → Authority → Type 0
Permitted (create_issue _ _ _ _) a = a.can_create_issues ≡ true
Permitted (comment_on_issue _ _) a = a.can_comment ≡ true
Permitted (comment_on_pr _ _) a = a.can_comment ≡ true
Permitted (label_issue _ _ _) a = a.can_label ≡ true
Permitted (label_pr _ _ _) a = a.can_label ≡ true
Permitted (close_issue _ _) a = a.can_close_issues ≡ true
Permitted (approve_pr _ _) a = a.can_approve_pr ≡ true
Permitted (merge_pr _ _) a = a.can_merge ≡ true
Permitted _ a = ⊥

-- The modes that let a decision of this type reach the provider with nobody asked.
abbrev pub Unattended : Payload → Mode → Type 0
Unattended (merge_pr _ _) mode = mode ≡ full_auto
Unattended _ mode = (mode ≡ semi_auto) ⊎ (mode ≡ full_auto)

-- The decisions that concern the Director alone.
abbrev pub is_local : Payload → Bool
is_local no_op = true
is_local (ask_user _ _) = true
is_local (remember_preference _ _) = true
is_local _ = false

authority_for-Permitted :
    (d : Payload) (a : Authority) (mode : Mode)
    → authority_for d a ≡ none
    → decision_needs_approval d mode ≡ false
    → is_local d ≡ false
    → Permitted d a × Unattended d mode
unfolding authority_for decision_needs_approval
authority_for-Permitted no_op a mode h n l = cc
authority_for-Permitted _ a mode h n l = ground arith

module _ (c : Context) (decision_id repo_id : ℕ) where
  -- A decision that concerns the Director alone calls nothing.
  local_calls_nothing :
      (d : Payload) (s : State)
      → is_local d ≡ true
      → (conclude c decision_id repo_id d (attempt c decision_id repo_id d s)).0.log ≡ s.log
  unfolding attempt with_transient_retry run_decision post_chat finalize
  local_calls_nothing no_op s h = refl
  local_calls_nothing (ask_user _ _) s h = refl
  local_calls_nothing (remember_preference _ _) s h = refl
  local_calls_nothing _ s h = cc

  -- Executing a decision calls the provider only if the operator gave the permission for its type,
  -- and the mode is one that acts unattended: semi_auto or full_auto, and for a merge full_auto
  -- alone. An amendment of the charter calls nothing in any mode.
  pub execute_decision-calls :
      (d : Payload) (s : State)
      → ((execute_decision c decision_id repo_id d s).0.log ≡ s.log)
        ⊎ (Permitted d c.authority × Unattended d c.mode)
  unfolding execute_decision finalize post_chat
  execute_decision-calls d s = elim (Option-cases (authority_for d c.authority)) [
    | inr (flag, e) ↦ inl (if_intro quiet (is_dry_run c.mode) refl (rw e refl))
    | inl e ↦ elim (Bool-cases (decision_needs_approval d c.mode)) [
      | inl n ↦ inl (if_intro quiet (is_dry_run c.mode) refl (rw e (rw n refl)))
      | inr n ↦ elim (Bool-cases (is_local d)) [
        | inr l ↦ inr (authority_for-Permitted d c.authority c.mode e n l)
        | inl l ↦
            inl (if_intro quiet (is_dry_run c.mode) refl (rw e (rw n (local_calls_nothing d s l))))
      ]
    ]
  ]
    where
      quiet : State × ExecuteResult → Type 0
      quiet r = r.0.log ≡ s.log

  -- The rows of the decision hold the outcome and the details that were returned.
  pub IsRecorded : State × ExecuteResult → Type 0
  IsRecorded r =
      All
        (λ (row : Decision).
          (row.id == decision_id) ≡ true
          → (row.outcome ≡ r.1.outcome) × (row.outcome_details ≡ some r.1.details))
        (r.0).db.decisions

  finalize-IsRecorded :
      (o : Outcome) (detail : Detail) (now : ℕ) (s : State)
      → IsRecorded (finalize decision_id o detail now s)
  unfolding IsRecorded finalize set_decision_outcome
  finalize-IsRecorded o detail now s =
      All-update _ _ _ s.db.decisions (All-intro _ s.db.decisions λ row. ground arith)

  conclude-IsRecorded :
      (d : Payload) (r : Ran Detail) → IsRecorded (conclude c decision_id repo_id d r)
  conclude-IsRecorded d (ok detail s) = finalize-IsRecorded Outcome.executed detail c.now s
  conclude-IsRecorded d (err e s) = finalize-IsRecorded Outcome.failed (Detail.message e) c.now _

  -- Whatever executing a decision comes to, its outcome and details are what the decision's row
  -- holds afterwards.
  pub execute_decision-IsRecorded :
      (d : Payload) (s : State) → IsRecorded (execute_decision c decision_id repo_id d s)
  unfolding execute_decision
  execute_decision-IsRecorded d s =
      if_intro IsRecorded (is_dry_run c.mode) (finalize-IsRecorded _ _ _ _)
        (elim (Option-cases (authority_for d c.authority)) [
          | inr (flag, e) ↦ rw e (finalize-IsRecorded _ _ _ _)
          | inl e ↦ rw e (
              if_intro IsRecorded (decision_needs_approval d c.mode) (finalize-IsRecorded _ _ _ _)
                (conclude-IsRecorded d _))
        ])
