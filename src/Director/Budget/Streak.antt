-- ===== src/Director/Budget/Streak.antt =====
-- The failure streak that closes the gate, and what opens it again (src/director/budget.ts).
use openronin.Common.{
  ℕ, ◌≤◌, ◌≡◌, ◌≢◌, refl, Bool, some, List, [], ◌∷◌, arith, Option-cases, if_intro, ap, ◌==◌, inl,
  inr, All, String,
}
use openronin.Sql.{select, update}
use openronin.Sql.Laws.{select-update, updated}
use openronin.Supervisor.{Usd}
use openronin.Director.Budget.{
  BudgetConfig, BudgetState, BudgetRow, of_repo, ensure_budget_state, rollover_day_if_needed,
  record_think_spend, record_project_spend, bump_failure_streak, reset_failure_streak, set_caps,
  pause, unpause, mark_tick, check_budget_gate, row_to_state, ok,
}
use openronin.Sql.Laws.{select-append}
use openronin.Director.Budget.Gate.{check_budget_gate_iff}

-- An operation on the table, with its arguments.
pub data BudgetOp (C : Type 0) : Type 0 where
  ensured : ℕ → BudgetConfig C → BudgetOp C
  rolled_over : ℕ → (now : ℕ) → BudgetOp C
  spent_thinking spent_on_project : ℕ → C → BudgetOp C
  bumped streak_reset unpaused : ℕ → BudgetOp C
  recapped : ℕ → (daily weekly : C) → BudgetOp C
  was_paused : ℕ → String → BudgetOp C
  marked : ℕ → (now : ℕ) → BudgetOp C

-- every operation but `resetFailureStreak`
abbrev pub IsNoReset : {C : Type 0} → BudgetOp C → Type 0
IsNoReset (streak_reset _) = ⊥
IsNoReset _ = Unit

-- the repository's row, if it has reached the limit
abbrev pub IsHalted : {C : Type 0} → ℕ → ℕ → List (BudgetRow C) → Type 0
IsHalted {C} repo_id limit rows =
    (row : BudgetRow C) × (select (of_repo repo_id) rows ≡ some row) × (limit ≤ row.failure_streak)

module _ (u : Usd) where
  open u use {Amount, zero_usd, add}

  unfoldable pub run_op : List (BudgetRow Amount) → BudgetOp Amount → List (BudgetRow Amount)
  run_op rows (ensured repo_id cfg) = (ensure_budget_state u rows repo_id cfg).0
  run_op rows (rolled_over repo_id now) = rollover_day_if_needed u rows repo_id now
  run_op rows (spent_thinking repo_id cost) = record_think_spend u rows repo_id cost
  run_op rows (spent_on_project repo_id cost) = record_project_spend u rows repo_id cost
  run_op rows (bumped repo_id) = bump_failure_streak u rows repo_id
  run_op rows (streak_reset repo_id) = reset_failure_streak u rows repo_id
  run_op rows (unpaused repo_id) = unpause u rows repo_id
  run_op rows (recapped repo_id daily weekly) = set_caps u rows repo_id daily weekly
  run_op rows (was_paused repo_id reason) = pause u rows repo_id reason
  run_op rows (marked repo_id now) = mark_tick u rows repo_id now

  unfoldable pub run_ops :
      List (BudgetRow Amount) → List (BudgetOp Amount) → List (BudgetRow Amount)
  run_ops rows [] = rows
  run_ops rows (op ∷ ops) = run_ops (run_op rows op) ops

  -- An update that keeps the repository and lowers no streak keeps the Director halted.
  IsHalted-update :
      (repo_id limit : ℕ) (rows : List (BudgetRow Amount)) (p : BudgetRow Amount → Bool)
      (f : BudgetRow Amount → BudgetRow Amount)
      → ((row : BudgetRow Amount) → (f row).repo_id ≡ row.repo_id)
      → ((row : BudgetRow Amount) → row.failure_streak ≤ (f row).failure_streak)
      → IsHalted repo_id limit rows
      → IsHalted repo_id limit (update p f rows)
  IsHalted-update repo_id limit rows p f same grows (row, e, h) = (
    updated p f row,
    select-update (of_repo repo_id) p f rows
        (λ r.
          if_intro (λ (s : BudgetRow Amount). of_repo repo_id s ≡ of_repo repo_id r) (p r)
            (ap (λ n. n == repo_id) (same r)) refl)
        e,
    if_intro (λ (s : BudgetRow Amount). limit ≤ s.failure_streak) (p row)
        (omega (arith, h, grows row)) h,
  )

  IsHalted-ensure :
      (repo_id limit : ℕ) (rows : List (BudgetRow Amount)) (other : ℕ) (cfg : BudgetConfig Amount)
      → IsHalted repo_id limit rows
      → IsHalted repo_id limit (ensure_budget_state u rows other cfg).0
  unfolding ensure_budget_state
  IsHalted-ensure repo_id limit rows other cfg (row, e, h) =
      elim (Option-cases (select (of_repo other) rows)) [
        | inl n ↦ rw (n, ensure_budget_state) (row, select-append _ rows _ e, h)
        | inr (r, n) ↦ rw (n, ensure_budget_state) (row, e, h)
      ]

  pub IsHalted-run_op :
      (repo_id limit : ℕ) (rows : List (BudgetRow Amount)) (op : BudgetOp Amount)
      → IsNoReset op
      → IsHalted repo_id limit rows
      → IsHalted repo_id limit (run_op rows op)
  unfolding run_op rollover_day_if_needed record_think_spend record_project_spend
      bump_failure_streak set_caps pause unpause mark_tick
  IsHalted-run_op i l rows (ensured other cfg) n h = IsHalted-ensure i l rows other cfg h
  IsHalted-run_op i l rows (rolled_over _ _) n h =
      IsHalted-update i l rows _ _ (λ _. refl) (λ _. omega arith) h
  IsHalted-run_op i l rows (spent_thinking _ _) n h =
      IsHalted-update i l rows _ _ (λ _. refl) (λ _. omega arith) h
  IsHalted-run_op i l rows (spent_on_project _ _) n h =
      IsHalted-update i l rows _ _ (λ _. refl) (λ _. omega arith) h
  IsHalted-run_op i l rows (bumped _) n h =
      IsHalted-update i l rows _ _ (λ _. refl) (λ _. omega arith) h
  IsHalted-run_op i l rows (streak_reset _) n h = elim n [ ]
  IsHalted-run_op i l rows (unpaused _) n h =
      IsHalted-update i l rows _ _ (λ _. refl) (λ _. omega arith) h
  IsHalted-run_op i l rows (recapped _ _ _) n h =
      IsHalted-update i l rows _ _ (λ _. refl) (λ _. omega arith) h
  IsHalted-run_op i l rows (was_paused _ _) n h =
      IsHalted-update i l rows _ _ (λ _. refl) (λ _. omega arith) h
  IsHalted-run_op i l rows (marked _ _) n h =
      IsHalted-update i l rows _ _ (λ _. refl) (λ _. omega arith) h

  pub IsHalted-run_ops :
      (repo_id limit : ℕ) (ops : List (BudgetOp Amount)) (rows : List (BudgetRow Amount))
      → All IsNoReset ops
      → IsHalted repo_id limit rows
      → IsHalted repo_id limit (run_ops rows ops)
  unfolding run_ops
  IsHalted-run_ops i l [] rows n h = h
  IsHalted-run_ops i l (op ∷ ops) rows (n, ns) h =
      IsHalted-run_ops i l ops (run_op rows op) ns (IsHalted-run_op i l rows op n h)

  pub IsHalted-gate :
      (repo_id : ℕ) (cfg : BudgetConfig Amount) (rows : List (BudgetRow Amount))
      → IsHalted repo_id cfg.pause_on_failure_streak rows
      → check_budget_gate u (ensure_budget_state u rows repo_id cfg).1 cfg ≢ ok
  unfolding ensure_budget_state row_to_state
  IsHalted-gate repo_id cfg rows (row, e, h) open_gate =
      let same : (ensure_budget_state u rows repo_id cfg).1 ≡ row_to_state row =
        rw (e, ensure_budget_state) refl in
      let below = ((check_budget_gate_iff u _ cfg).0 open_gate).1 in
      let streak = ap (λ (s : BudgetState Amount). s.failure_streak) same in
      omega (arith, below, streak, h)

  -- While a repository's failure streak has reached the limit, the gate refuses it after any
  -- operations on the budget table, resuming it and the turn of a day included, unless one of them
  -- resets a streak.
  pub run_ops-refused :
      (repo_id : ℕ) (cfg : BudgetConfig Amount) (rows : List (BudgetRow Amount))
      (ops : List (BudgetOp Amount))
      → IsHalted repo_id cfg.pause_on_failure_streak rows
      → All IsNoReset ops
      → check_budget_gate u (ensure_budget_state u (run_ops rows ops) repo_id cfg).1 cfg ≢ ok
  run_ops-refused repo_id cfg rows ops h n =
      IsHalted-gate repo_id cfg (run_ops rows ops) (IsHalted-run_ops _ _ ops rows n h)
