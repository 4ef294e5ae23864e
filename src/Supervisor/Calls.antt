-- ===== src/Supervisor/Calls.antt =====
-- Lemmas on `runJob` (src/supervisor/index.ts).
use openronin.Common.{ℕ, ◌≡◌, true, false, some, List, [], ◌∷◌, ◌-◌, none, if◌then◌else◌}
use openronin.Store.Runs.{Run, NewRun, FinishArgs, RunStatus}
use openronin.Stamp.{Stamp, sql_datetime, stamp_leb, to_iso}
use openronin.Supervisor.{
  Usd, EngineRun, answered, raised, EngineChoice, completed, rethrown, JobResult, day_ms,
}

module _ {C : Type 0} (id : ℕ) (args : NewRun) (done : FinishArgs C) (now later : ℕ) where
  -- the row that an engine call leaves
  call_row : Run C
  call_row = record {
    id = id;
    task_id = args.task_id;
    lane = args.lane;
    engine = args.engine;
    model = args.model;
    started_at = sql_datetime now;
    finished_at = some (sql_datetime later);
    tokens_in = done.tokens_in;
    tokens_out = done.tokens_out;
    cost_usd = done.cost_usd;
    status = done.status;
    error = done.error;
    log_path = done.log_path;
    prompt_log_path = done.prompt_log_path;
  }

module _ (u : Usd) where
  open u use {Amount, zero_usd, add, leb_usd}

  -- The costs of the runs that start at the moment or later, as the texts compare.
  abbrev pub spent_since : Stamp → List (Run Amount) → Amount
  spent_since since [] = zero_usd
  spent_since since (r ∷ rs) =
      if stamp_leb since r.started_at
      then (elim r.cost_usd [ none ↦ spent_since since rs | some c ↦ add c (spent_since since rs) ])
      else spent_since since rs

  -- There is a cap, and the runs of the last day have reached it.
  abbrev pub IsOver : Amount → List (Run Amount) → ℕ → Type 0
  IsOver cap runs now =
      (leb_usd cap zero_usd ≡ false)
      × (leb_usd cap (spent_since (to_iso (now - day_ms)) runs) ≡ true)

  -- The run says how the call ended, and the caller is told.
  abbrev pub Reports : Run Amount → JobResult → EngineChoice → EngineRun Amount → Type 0
  Reports row result choice (answered tokens_in tokens_out cost) =
      (row.status ≡ RunStatus.ok) × (row.cost_usd ≡ cost) × (result ≡ completed row.id choice)
  Reports row result choice (raised message) =
      (row.status ≡ RunStatus.error) × (row.error ≡ some message) × (result ≡ rethrown message)
