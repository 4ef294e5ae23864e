-- ===== src/Director/Executor/Actions.antt =====
-- The side effect of each decision, and its retries (src/director/executor.ts).
use openronin.Common.{ℕ, Bool, Option, none, some, List, [], ◌∷◌, Text, codes, if◌then◌else◌}
use openronin.Director.Types.{
  Payload, no_op, create_issue, comment_on_issue, comment_on_pr, label_issue, label_pr, close_issue,
  approve_pr, merge_pr, ask_user, amend_charter, remember_preference, Detail, Role, MessageType,
  Body,
}
use openronin.Director.Decisions.{append_message, record_note}
use openronin.Director.Executor.Provider.{
  create_issue_call, post_comment, add_labels, remove_labels, close_item, approve_pull_request,
  merge_pull_request, Reply, Vcs, State, ok, err, Exec, ◌>>=◌, ◌>>◌, pure, throw, call, get_vcs,
}

unfoldable pub post_chat : ℕ → Role → MessageType → Body → ℕ → State → State
unfolding append_message
post_chat repo_id role type body decision_id s = record s {
  db = append_message s.db repo_id role type body (some decision_id);
}

-- `r.message ?? "merge refused"`
abbrev refusal : Option Text → Text
refusal none = codes "merge refused"
refusal (some e) = e

abbrev merge_result : ℕ → Reply → Exec Detail
merge_result number r =
    if r.merged then pure (Detail.pr_merged number r.sha) else throw (refusal r.reason)

-- `runDecision`
unfoldable pub run_decision : Vcs → ℕ → ℕ → Payload → Exec Detail
unfolding call get_vcs
run_decision vcs decision_id repo_id no_op = pure Detail.nothing_done
run_decision vcs decision_id repo_id (ask_user question context) = λ s.
    ok Detail.question_posted (
      post_chat repo_id Role.director MessageType.question (Body.ask question context) decision_id
        s)
run_decision vcs decision_id repo_id (create_issue title body labels priority) = do
  get_vcs vcs
  r ← call vcs (create_issue_call title body labels)
  pure (Detail.issue_created r.number r.url)
run_decision vcs decision_id repo_id (comment_on_issue number body) = do
  get_vcs vcs
  r ← call vcs (post_comment number body)
  pure (Detail.comment_posted number r.url)
run_decision vcs decision_id repo_id (comment_on_pr number body) = do
  get_vcs vcs
  r ← call vcs (post_comment number body)
  pure (Detail.pr_comment_posted number r.url)
run_decision vcs decision_id repo_id (label_issue number add remove) = do
  get_vcs vcs
  call vcs (add_labels number add)
  call vcs (remove_labels number remove)
  pure (Detail.labelled number)
run_decision vcs decision_id repo_id (label_pr number add remove) = do
  get_vcs vcs
  call vcs (add_labels number add)
  call vcs (remove_labels number remove)
  pure (Detail.pr_labelled number)
run_decision vcs decision_id repo_id (close_issue number reason) = do
  get_vcs vcs
  call vcs (post_comment number reason)
  call vcs (close_item number)
  pure (Detail.issue_closed number)
run_decision vcs decision_id repo_id (approve_pr number body) = do
  get_vcs vcs
  call vcs (approve_pull_request number body)
  pure (Detail.pr_approved number)
run_decision vcs decision_id repo_id (merge_pr number strategy) = do
  get_vcs vcs
  r ← call vcs (merge_pull_request number strategy)
  merge_result number r
run_decision vcs decision_id repo_id (amend_charter _ _) = do
  get_vcs vcs
  throw (codes "amend_charter cannot auto-execute (must be human-applied)")
run_decision vcs decision_id repo_id (remember_preference body kind) = λ s.
    let (db, id) = record_note s.db repo_id kind body in
    ok (Detail.noted id kind) (record s { db = db })

-- `withTransientRetry`, with a list entry for each delay
unfoldable pub with_transient_retry : {A : Type 0} → (Text → Bool) → List ℕ → Exec A → Exec A
with_transient_retry is_transient [] fn s = fn s
with_transient_retry is_transient (delay ∷ delays) fn s = elim (fn s) [
  | ok a s' ↦ ok a s'
  | err e s' ↦
      let again = with_transient_retry is_transient delays fn s' in
      if is_transient e then again else err e s'
]

abbrev pub delays_ms : List ℕ
delays_ms = 1000 ∷ 5000 ∷ 20_000 ∷ []
