-- ===== src/Tests/Money.antt =====
-- Amounts in cents, a budget and its decisions.
use openronin.Common.{ℕ, ◌+◌, ◌*◌, ◌/◌, leb, none, some, List, [], ◌∷◌, ◌==◌}
use openronin.Supervisor.{Usd}
use openronin.Director.Types.{no_op, Outcome}
use openronin.Director.Decisions.{Decision}
use openronin.Director.Budget.{BudgetConfig, BudgetRow}
use openronin.Director.Retrospective.{Factors, Ledger}

abbrev pub cents : Usd
cents = record { Amount = ℕ; zero_usd = 0; add = ◌+◌; leb_usd = leb }

abbrev pub ten_percent : Factors ℕ
ten_percent = record { raise = λ c. c * 11 / 10; lower = λ c. c * 8 / 10; is_close = λ a b. a == b }

abbrev pub a_budget : BudgetConfig ℕ
a_budget = record {
  think_daily_usd = 200;
  initial_daily_usd = 100;
  initial_weekly_usd = 500;
  max_daily_usd = 1000;
  max_weekly_usd = 5000;
  pause_on_failure_streak = 3;
}

abbrev pub a_row : ℕ → BudgetRow ℕ
a_row streak = record {
  repo_id = 1;
  daily_cap_usd = 200;
  weekly_cap_usd = 1000;
  spent_today_usd = 0;
  spent_week_usd = 0;
  spent_today_think_usd = 20;
  failure_streak = streak;
  last_tick_at = some 500;
  last_reset_day = some 0;
  paused = 0;
  pause_reason = none;
}

abbrev pub a_ledger : ℕ → Ledger ℕ
a_ledger streak = record { budgets = a_row streak ∷ []; history = [] }

abbrev pub executed_once : ℕ → Decision
executed_once id = record {
  id = id;
  repo_id = 1;
  ts = 900;
  rationale = "because";
  payload = no_op;
  payload_hash = none;
  outcome = Outcome.executed;
  outcome_ts = some 950;
  outcome_details = none;
}

abbrev pub five_executed : List Decision
five_executed =
    executed_once 1 ∷ executed_once 2 ∷ executed_once 3 ∷ executed_once 4 ∷ executed_once 5 ∷ []
