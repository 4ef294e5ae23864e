-- ===== src/Director/Budget/Gate.antt =====
-- When the gate lets a tick through (src/director/budget.ts).
use openronin.Common.{◌<◌, false, ◌≡◌, ◌↔◌, arith}
use openronin.Supervisor.{Usd}
use openronin.Director.Budget.{BudgetConfig, BudgetState, ok, check_budget_gate}

module _ (u : Usd) where
  open u use {Amount, leb_usd}

  -- The gate is open exactly when the Director is not paused, its failure streak is below the limit,
  -- its planning has cost less than its cap today, and the project less than its caps today and this
  -- week.
  pub check_budget_gate_iff :
      (state : BudgetState Amount) (cfg : BudgetConfig Amount)
      → (check_budget_gate u state cfg ≡ ok) ↔ (
          (state.paused ≡ false)
          × (state.failure_streak < cfg.pause_on_failure_streak)
          × (leb_usd cfg.think_daily_usd state.spent_today_think_usd ≡ false)
          × (leb_usd state.daily_cap_usd state.spent_today_usd ≡ false)
          × (leb_usd state.weekly_cap_usd state.spent_week_usd ≡ false))
  unfolding check_budget_gate
  check_budget_gate_iff state cfg = ground arith
