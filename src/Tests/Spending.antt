-- ===== src/Tests/Spending.antt =====
-- Engine calls and their cap on concrete data.
use openronin.Common.{ℕ, String, ◌+◌, ◌≡◌, refl, false, none, some, [], ◌∷◌, arith, leb}
use openronin.Stamp.{sql_datetime}
use openronin.Store.Runs.{Run, RunStatus}
use openronin.Supervisor.{
  Usd, over_daily_cap, EngineChoice, claude_code, answered, global_default, JobState, EngineId,
  EngineRun,
}
use openronin.Supervisor.Cap.{over_daily_cap-misses_first_day}

abbrev cents : Usd
cents = record { Amount = ℕ; zero_usd = 0; add = ◌+◌; leb_usd = leb }

abbrev a_run : ℕ → ℕ → Run ℕ
a_run id cost = record {
  id = id;
  task_id = 2;
  lane = "triage";
  engine = "claude_code";
  model = none;
  started_at = sql_datetime 1000;
  finished_at = some (sql_datetime 5000);
  tokens_in = some 10;
  tokens_out = some 10;
  cost_usd = some cost;
  status = RunStatus.ok;
  error = none;
  log_path = none;
  prompt_log_path = none;
}

over_daily_cap-misses_first_day_example :
    over_daily_cap cents 300 (a_run 1 500 ∷ []) 86_400_500 ≡ false
over_daily_cap-misses_first_day_example =
    over_daily_cap-misses_first_day cents 300 (a_run 1 500 ∷ []) 86_400_500
      (record { at = 1000; recorded = refl; within = omega arith; first_day = refl }, tt)

abbrev a_choice : EngineChoice
a_choice = record { engine = claude_code; model = "m"; source = global_default }

abbrev one_job : JobState cents
one_job = record { runs = a_run 1 500 ∷ []; calls = [] }

abbrev engine_text : EngineId → String
engine_text _ = "claude_code"

abbrev answers : EngineChoice → EngineRun ℕ
answers _ = answered none none (some 4)
