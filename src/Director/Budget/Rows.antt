-- ===== src/Director/Budget/Rows.antt =====
-- The rows under the operations (src/director/budget.ts).
use openronin.Common.{
  ℕ, ◌/◌, ◌≡◌, ◌≢◌, refl, true, some, List, arith, ◌==◌, Bool-cases, Option-cases, inl, inr,
}
use openronin.Sql.{select}
use openronin.Sql.Laws.{select-append_none, update_id, All-update, All-intro, updated}
use openronin.Supervisor.{Usd}
use openronin.Director.Decisions.{day_ms}
use openronin.Director.Budget.{
  BudgetConfig, BudgetRow, row_to_state, of_repo, is_before_day, is_due, reset_day, new_budget,
  ensure_budget_state, rollover_day_if_needed, record_think_spend,
}

module _ (u : Usd) where
  open u use {Amount, zero_usd, add, leb_usd}

  -- The state that `ensure_budget_state` returns is that of the repository's row in the table that
  -- it leaves, whether it found the row or made it.
  pub ensure_budget_state-select :
      (rows : List (BudgetRow Amount)) (repo_id : ℕ) (cfg : BudgetConfig Amount)
      → (row : BudgetRow Amount) × (select
            (of_repo repo_id)
            (ensure_budget_state u rows repo_id cfg).0
          ≡ some row)
        × ((ensure_budget_state u rows repo_id cfg).1 ≡ row_to_state row)
  unfolding ensure_budget_state
  ensure_budget_state-select rows repo_id cfg =
      elim (Option-cases (select (of_repo repo_id) rows)) [
        | inl e ↦
            rw (e, ensure_budget_state)
              (new_budget u repo_id cfg, select-append_none _ rows e (ground arith), refl)
        | inr (row, e) ↦ rw (e, ensure_budget_state) (row, e, refl)
      ]

  is_due-settled :
      (row : BudgetRow Amount) (repo_id now later : ℕ) (cost : Amount)
      → later / day_ms ≡ now / day_ms
      → is_due repo_id (later / day_ms) (
          updated
            (of_repo repo_id)
            (λ r. record r { spent_today_think_usd = add r.spent_today_think_usd cost })
            (updated (is_due repo_id (now / day_ms)) (reset_day u (now / day_ms)) row))
        ≢ true
  is_due-settled row repo_id now later cost h = elim (Bool-cases (row.repo_id == repo_id)) [
    | inl e ↦ elim (Bool-cases (is_before_day (now / day_ms) row.last_reset_day)) [
      | inl b ↦ rw (e, b, e, h) (ground arith)
      | inr b ↦ rw (e, b, e, h, b) (ground arith)
    ]
    | inr e ↦ rw (e, e) (ground arith)
  ]

  -- Once a repository's day counters were reset at `now`, a reset later on the same UTC day changes
  -- nothing, whatever planning cost was recorded between the two.
  pub rollover_day_if_needed-once :
      (rows : List (BudgetRow Amount)) (repo_id now later : ℕ) (cost : Amount)
      → later / day_ms ≡ now / day_ms
      → rollover_day_if_needed u
          (record_think_spend u (rollover_day_if_needed u rows repo_id now) repo_id cost)
          repo_id
          later
        ≡ record_think_spend u (rollover_day_if_needed u rows repo_id now) repo_id cost
  unfolding rollover_day_if_needed record_think_spend
  rollover_day_if_needed-once rows repo_id now later cost h = update_id _ _ _ (
      All-update _ _ _ _ (
        All-update _ _ _ rows
          (All-intro _ rows λ row due. absurd (is_due-settled row repo_id now later cost h due))))
