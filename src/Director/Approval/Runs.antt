-- ===== src/Director/Approval/Runs.antt =====
-- What edits may change, and what an approval runs (src/director/executor.ts).
use openronin.Common.{
  ℕ, ◌≡◌, inl, inr, refl, ap, sym, ◌∙◌, Bool, true, false, Option, none, some, List, [], ◌∷◌, arith,
  Option-cases, if_intro, Text, codes,
}
use openronin.Director.Types.{
  Mode, Authority, Payload, no_op, create_issue, comment_on_issue, comment_on_pr, label_issue,
  label_pr, close_issue, approve_pr, merge_pr, ask_user, amend_charter, remember_preference,
  Outcome, Detail, Role, MessageType, Body,
}
use openronin.Director.Decisions.{Decision, get_decision_by_id}
use openronin.Director.Executor.{
  State, Context, Exec, err, authority_for, decision_needs_approval, attempt, with_transient_retry,
  run_decision, post_chat, delays_ms, get_vcs,
}
use openronin.Director.Approval.{
  Overrides, merge_payload_overrides, edited, store_edits, ApproveResult, done, approve_decision,
  run_approved, concluded,
}
use openronin.Director.Approval.Once.{checked-cases}

-- the issue or pull request that a decision is about
abbrev pub target : Payload → Option ℕ
target (comment_on_issue n _) = some n
target (comment_on_pr n _) = some n
target (label_issue n _ _) = some n
target (label_pr n _ _) = some n
target (close_issue n _) = some n
target (approve_pr n _) = some n
target (merge_pr n _) = some n
target _ = none

-- The edits of a form change neither the issue or pull request that a decision is about, nor the
-- permission that it needs, nor whether a mode wants an approval for it.
pub merge_payload_overrides-authority_for :
    (d : Payload) (o : Overrides) (a : Authority) (mode : Mode)
    → (target (merge_payload_overrides d o) ≡ target d)
      × (authority_for (merge_payload_overrides d o) a ≡ authority_for d a)
      × (decision_needs_approval (merge_payload_overrides d o) mode
          ≡ decision_needs_approval d mode)
unfolding merge_payload_overrides authority_for decision_needs_approval
merge_payload_overrides-authority_for no_op o a mode = (refl, refl, refl)
merge_payload_overrides-authority_for (create_issue _ _ _ _) o a mode = (refl, refl, refl)
merge_payload_overrides-authority_for (comment_on_issue _ _) o a mode = (refl, refl, refl)
merge_payload_overrides-authority_for (comment_on_pr _ _) o a mode = (refl, refl, refl)
merge_payload_overrides-authority_for (label_issue _ _ _) o a mode = (refl, refl, refl)
merge_payload_overrides-authority_for (label_pr _ _ _) o a mode = (refl, refl, refl)
merge_payload_overrides-authority_for (close_issue _ _) o a mode = (refl, refl, refl)
merge_payload_overrides-authority_for (approve_pr _ _) o a mode = (refl, refl, refl)
merge_payload_overrides-authority_for (merge_pr _ _) o a mode = (refl, refl, refl)
merge_payload_overrides-authority_for (ask_user _ _) o a mode = (refl, refl, refl)
merge_payload_overrides-authority_for (amend_charter _ _) o a mode = (refl, refl, refl)
merge_payload_overrides-authority_for (remember_preference _ _) o a mode = (refl, refl, refl)

store_edits-log :
    (id : ℕ) (d : Decision) (o : Option Overrides) (s : State) → (store_edits id d o s).log ≡ s.log
store_edits-log id d none s = refl
store_edits-log id d (some o) s = refl

abbrev pub was_executed : ApproveResult → Bool
was_executed (done Outcome.executed _) = true
was_executed _ = false

abbrev pub is_amend : Payload → Bool
is_amend (amend_charter _ _) = true
is_amend _ = false

payload_is_amend : Option Decision → Bool
payload_is_amend none = false
payload_is_amend (some d) = is_amend d.payload

edited_amend :
    (d : Decision) (o : Option Overrides) → is_amend d.payload ≡ true → is_amend (edited d o) ≡ true
unfolding merge_payload_overrides
edited_amend d none h = h
edited_amend d (some o) h = is_amend-merge d.payload h
  where
    is_amend-merge :
        (p : Payload) → is_amend p ≡ true → is_amend (merge_payload_overrides p o) ≡ true
    is_amend-merge (amend_charter _ _) h = refl
    is_amend-merge _ h = ground arith

-- A run whose every try fails in the same way, and changes nothing, fails so.
retries_fail :
    (is_transient : Text → Bool) (fn : Exec Detail) (s : State) (e : Text)
    → fn s ≡ err e s
    → (delays : List ℕ) → with_transient_retry is_transient delays fn s ≡ err e s
unfolding with_transient_retry
retries_fail is_transient fn s e h [] = h
retries_fail is_transient fn s e h (d ∷ ds) =
    rw (h, with_transient_retry)
      (if_intro (λ x. x ≡ err e s) (is_transient e) (retries_fail is_transient fn s e h ds) refl)

amend_refused :
    (c : Context) (id repo_id : ℕ) (p : Payload) (s : State)
    → is_amend p ≡ true
    → (e : Text) × (attempt c id repo_id p s ≡ err e s)
unfolding attempt run_decision get_vcs
amend_refused c id repo_id (amend_charter x y) s h =
    let (e, k) = run_fails (c.vcs).not_built refl in
    (
      e,
      retries_fail (c.vcs).is_transient (run_decision c.vcs id repo_id (amend_charter x y)) s e k
          delays_ms,
    )
  where
    run_fails :
        (n : Option Text)
        → (c.vcs).not_built ≡ n
        → (e : Text) × (run_decision c.vcs id repo_id (amend_charter x y) s ≡ err e s)
    run_fails none k = (
      codes "amend_charter cannot auto-execute (must be human-applied)",
      rw (k, run_decision) refl,
    )
    run_fails (some e) k = (e, rw (k, run_decision) refl)
amend_refused c id repo_id _ s h = ground arith

amend_fails :
    (c : Context) (id : ℕ) (d : Decision) (p : Payload) (s s' : State)
    → is_amend p ≡ true
    → s'.log ≡ s.log
    → ((run_approved c id d p s').0.log ≡ s.log)
      × (was_executed (run_approved c id d p s').1 ≡ false)
unfolding run_approved post_chat concluded
amend_fails c id d p s s' h l = elim (Option-cases (authority_for p c.authority)) [
  | inl a ↦
      let (e, k) =
        amend_refused c id d.repo_id p
          (post_chat d.repo_id Role.user MessageType.answer (Body.approved_decision id) id s') h in
      rw (a, run_approved) rw (k) (l, refl)
  | inr (flag, a) ↦ rw (a, run_approved) (l, refl)
]

-- Approving a stored amend_charter never executes it, whatever the authority and the edits, and
-- calls nothing.
pub approve_decision-amend_charter :
    (c : Context) (id : ℕ) (repo : Option ℕ) (o : Option Overrides) (s : State) (d : Decision)
    → get_decision_by_id s.db id ≡ some d
    → is_amend d.payload ≡ true
    → ((approve_decision c id repo o s).0.log ≡ s.log)
      × (was_executed (approve_decision c id repo o s).1 ≡ false)
unfolding approve_decision payload_is_amend
approve_decision-amend_charter c id repo o s d g k =
    elim (checked-cases id repo (λ d s. run_approved c id d (edited d o) (store_edits id d o s)) s
      (get_decision_by_id s.db id)) [
        | inl (r, e) ↦ rw (e) (refl, refl)
        | inr (d', f, p, q, e) ↦ rw (e) (
            amend_fails c id d' (edited d' o) s (store_edits id d' o s)
              (edited_amend d' o (ap (λ x. payload_is_amend x) (sym f ∙ g) ∙ k))
              (store_edits-log id d' o s))
      ]
