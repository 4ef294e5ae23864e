-- ===== src/Director/Budget.antt =====
-- The Director's budget rows and its gate (src/director/budget.ts). A day is the number of a UTC day,
-- a moment is in milliseconds; a cost is an `Amount` of Usd.
pub mod Gate
pub mod Rows
pub mod Streak
use openronin.Common.{
  ℕ, zero, suc, ◌+◌, ◌/◌, String, Bool, true, false, not, ◌&&◌, Option, none, some, List, [], ◌∷◌,
  ◌++◌, ◌==◌, ltb, leb, if◌then◌else◌,
}
use openronin.Sql.{select, update}
use openronin.Supervisor.{Usd}
use openronin.Director.Types.{
  Refusal, paused, failure_streak, think_budget_exhausted, daily_budget_exhausted,
  weekly_budget_exhausted,
}
use openronin.Director.Decisions.{day_ms}

pub record BudgetConfig (C : Type 0) : Type 0 where
  pub think_daily_usd : C
  pub initial_daily_usd : C
  pub initial_weekly_usd : C
  pub max_daily_usd : C
  pub max_weekly_usd : C
  pub pause_on_failure_streak : ℕ

-- a row of `director_budget_state`
pub record BudgetRow (C : Type 0) : Type 0 where
  pub repo_id : ℕ
  pub daily_cap_usd : C
  pub weekly_cap_usd : C
  pub spent_today_usd : C
  pub spent_week_usd : C
  pub spent_today_think_usd : C
  pub failure_streak : ℕ
  pub last_tick_at : Option ℕ
  pub last_reset_day : Option ℕ
  pub paused : ℕ
  pub pause_reason : Option String

pub record BudgetState (C : Type 0) : Type 0 where
  pub repo_id : ℕ
  pub daily_cap_usd : C
  pub weekly_cap_usd : C
  pub spent_today_usd : C
  pub spent_week_usd : C
  pub spent_today_think_usd : C
  pub failure_streak : ℕ
  pub last_tick_at : Option ℕ
  pub last_reset_day : Option ℕ
  pub paused : Bool
  pub pause_reason : Option String

unfoldable pub row_to_state : {C : Type 0} → BudgetRow C → BudgetState C
row_to_state row = record {
  repo_id = row.repo_id;
  daily_cap_usd = row.daily_cap_usd;
  weekly_cap_usd = row.weekly_cap_usd;
  spent_today_usd = row.spent_today_usd;
  spent_week_usd = row.spent_week_usd;
  spent_today_think_usd = row.spent_today_think_usd;
  failure_streak = row.failure_streak;
  last_tick_at = row.last_tick_at;
  last_reset_day = row.last_reset_day;
  paused = not (row.paused == 0);
  pause_reason = row.pause_reason;
}

-- `WHERE repo_id = ?`
abbrev pub of_repo : {C : Type 0} → ℕ → BudgetRow C → Bool
of_repo repo_id row = row.repo_id == repo_id

-- `last_reset_day IS NULL OR last_reset_day < ?`
abbrev pub is_before_day : ℕ → Option ℕ → Bool
is_before_day today none = true
is_before_day today (some day) = ltb day today

abbrev pub is_due : {C : Type 0} → ℕ → ℕ → BudgetRow C → Bool
is_due repo_id today row = of_repo repo_id row && is_before_day today row.last_reset_day

pub data GateResult : Type 0 where
  ok : GateResult
  refused : Refusal → GateResult

module _ (u : Usd) where
  open u use {Amount, zero_usd, add, leb_usd}

  -- the row that the INSERT of `ensureBudgetState` makes, with the table's defaults
  abbrev pub new_budget : ℕ → BudgetConfig Amount → BudgetRow Amount
  new_budget repo_id cfg = record {
    repo_id = repo_id;
    daily_cap_usd = cfg.initial_daily_usd;
    weekly_cap_usd = cfg.initial_weekly_usd;
    spent_today_usd = zero_usd;
    spent_week_usd = zero_usd;
    spent_today_think_usd = zero_usd;
    failure_streak = 0;
    last_tick_at = none;
    last_reset_day = none;
    paused = 0;
    pause_reason = none;
  }

  unfoldable pub ensure_budget_state :
      List (BudgetRow Amount)
      → ℕ
      → BudgetConfig Amount
      → List (BudgetRow Amount) × BudgetState Amount
  ensure_budget_state rows repo_id cfg = elim (select (of_repo repo_id) rows) [
    | some row ↦ (rows, row_to_state row)
    | none ↦ (rows ++ new_budget repo_id cfg ∷ [], row_to_state (new_budget repo_id cfg))
  ]

  abbrev pub reset_day : ℕ → BudgetRow Amount → BudgetRow Amount
  reset_day today row = record row {
    spent_today_usd = zero_usd;
    spent_today_think_usd = zero_usd;
    last_reset_day = some today;
  }

  unfoldable pub rollover_day_if_needed : List (BudgetRow Amount) → ℕ → ℕ → List (BudgetRow Amount)
  rollover_day_if_needed rows repo_id now =
      update (is_due repo_id (now / day_ms)) (reset_day (now / day_ms)) rows

  unfoldable pub record_think_spend : List (BudgetRow Amount) → ℕ → Amount → List (BudgetRow Amount)
  record_think_spend rows repo_id cost =
      update (of_repo repo_id)
        (λ row. record row { spent_today_think_usd = add row.spent_today_think_usd cost }) rows

  unfoldable pub record_project_spend :
      List (BudgetRow Amount) → ℕ → Amount → List (BudgetRow Amount)
  record_project_spend rows repo_id cost =
      update (of_repo repo_id)
        (λ row. record row {
          spent_today_usd = add row.spent_today_usd cost;
          spent_week_usd = add row.spent_week_usd cost;
        })
        rows

  unfoldable pub bump_failure_streak : List (BudgetRow Amount) → ℕ → List (BudgetRow Amount)
  bump_failure_streak rows repo_id =
      update (of_repo repo_id) (λ row. record row { failure_streak = suc row.failure_streak }) rows

  unfoldable pub reset_failure_streak : List (BudgetRow Amount) → ℕ → List (BudgetRow Amount)
  reset_failure_streak rows repo_id =
      update (of_repo repo_id) (λ row. record row { failure_streak = 0 }) rows

  -- the UPDATE of `recalibrateBudget`
  unfoldable pub set_caps : List (BudgetRow Amount) → ℕ → Amount → Amount → List (BudgetRow Amount)
  set_caps rows repo_id daily weekly =
      update (of_repo repo_id)
        (λ row. record row { daily_cap_usd = daily; weekly_cap_usd = weekly }) rows

  unfoldable pub pause : List (BudgetRow Amount) → ℕ → String → List (BudgetRow Amount)
  pause rows repo_id reason =
      update (of_repo repo_id) (λ row. record row { paused = 1; pause_reason = some reason }) rows

  unfoldable pub unpause : List (BudgetRow Amount) → ℕ → List (BudgetRow Amount)
  unpause rows repo_id =
      update (of_repo repo_id) (λ row. record row { paused = 0; pause_reason = none }) rows

  unfoldable pub mark_tick : List (BudgetRow Amount) → ℕ → ℕ → List (BudgetRow Amount)
  mark_tick rows repo_id now =
      update (of_repo repo_id) (λ row. record row { last_tick_at = some now }) rows

  unfoldable pub check_budget_gate : BudgetState Amount → BudgetConfig Amount → GateResult
  check_budget_gate state cfg =
      if state.paused
      then refused (Refusal.paused state.pause_reason)
      else if leb cfg.pause_on_failure_streak state.failure_streak
      then refused (Refusal.failure_streak state.failure_streak cfg.pause_on_failure_streak)
      else if leb_usd cfg.think_daily_usd state.spent_today_think_usd
      then refused think_budget_exhausted
      else if leb_usd state.daily_cap_usd state.spent_today_usd
      then refused daily_budget_exhausted
      else if leb_usd state.weekly_cap_usd state.spent_week_usd
      then refused weekly_budget_exhausted
      else ok
