-- ===== src/Store/Branches/Rows.antt =====
-- The rows that recording a branch and lifting a park leave (src/storage/pr-branches.ts).
use openronin.Common.{
  ℕ, ◌≡◌, inl, inr, refl, true, false, none, List, [], ◌∷◌, ◌++◌, All, arith, Bool-cases,
  Option-cases, sym, ◌∙◌,
}
use openronin.Sql.{select}
use openronin.Sql.Laws.{All-update, All-intro, updated, count_zero}
use openronin.Store.{Branch, Db}
use openronin.Store.Branches.{
  NewBranch, status_or, is_branch, overwrite, new_branch, record_pr_branch, transient_of,
  lift_transient_park,
}

-- the row holds what was passed
abbrev pub HasArgs : NewBranch → Branch → Type 0
HasArgs args b =
    is_branch args b ≡ true
    → (b.pr_number ≡ args.pr_number) × (b.pr_url ≡ args.pr_url) × (b.status ≡ status_or args.status)

no_rows :
    (args : NewBranch) (bs : List Branch)
    → select (is_branch args) bs ≡ none
    → (b : Branch) → HasArgs args b
    → All (HasArgs args) (bs ++ b ∷ [])
unfolding select
no_rows args [] h b ok = (ok, tt)
no_rows args (x ∷ bs) h b ok = elim (Bool-cases (is_branch args x)) [
  | inl e ↦ absurd (cc (rw e at h))
  | inr e ↦ ((λ k. absurd (cc (sym k ∙ e))), no_rows args bs (rw e at h) b ok)
]

-- Recording a branch leaves the number and the address of its pull request, and its status, as they
-- were passed, in every row of the task and the branch: what is not passed is gone, and a status that
-- is not passed is `created`.
pub record_pr_branch-HasArgs :
    (db : Db) (args : NewBranch) (now : ℕ)
    → All (HasArgs args) (record_pr_branch db args now).branches
unfolding record_pr_branch
record_pr_branch-HasArgs db args now = elim (Option-cases (select (is_branch args) db.branches)) [
  | inl e ↦
      rw (e, record_pr_branch)
        (no_rows args db.branches e (new_branch _ args now) (λ _. (refl, refl, refl)))
  | inr (b, e) ↦
      rw (e, record_pr_branch)
        (All-update (HasArgs args) (is_branch args) (overwrite args now) db.branches
          (All-intro _ db.branches λ x. row x))
]
  where
    row : (x : Branch) → HasArgs args (updated (is_branch args) (overwrite args now) x)
    row x k = elim (Bool-cases (is_branch args x)) [
      | inl e ↦ rw e (refl, refl, refl)
      | inr e ↦ absurd (cc (sym (rw e at k) ∙ e))
    ]

lifted :
    (db : Db) (task_id now : ℕ)
    → All (λ b. transient_of task_id b ≡ false) (lift_transient_park db task_id now).0.branches
unfolding lift_transient_park
lifted db task_id now =
    All-update (λ b. transient_of task_id b ≡ false) (transient_of task_id) _ db.branches
      (All-intro _ db.branches λ x. ground arith)

-- After the transient parks of a task are lifted none is left, and lifting them again reports that
-- there was none.
pub lift_transient_park_once :
    (db : Db) (task_id now later : ℕ)
    → All (λ b. transient_of task_id b ≡ false) (lift_transient_park db task_id now).0.branches
      × ((lift_transient_park (lift_transient_park db task_id now).0 task_id later).1 ≡ false)
unfolding lift_transient_park
lift_transient_park_once db task_id now later = (
  lifted db task_id now,
  rw
      (count_zero (transient_of task_id) (lift_transient_park db task_id now).0.branches
        (lifted db task_id now))
      refl,
)
