-- ===== src/Store/Runs.antt =====
-- The records of engine calls and of deploys (src/storage/runs.ts, src/storage/deploys.ts). `C` is the
-- type of a cost, with the sum and the zero that SQLite's SUM and COALESCE use; floats stay abstract.
use openronin.Common.{
  ℕ, String, Bool, true, false, Option, none, some, List, [], ◌∷◌, ◌++◌, Text, ◌==◌,
}
use openronin.Sql.{update, select_all, count}
use openronin.Stamp.{Stamp, sql_datetime, stamp_leb}

pub data RunStatus : Type 0 where
  running ok error : RunStatus

pub record Run (C : Type 0) : Type 0 where
  pub id : ℕ
  pub task_id : ℕ
  pub lane : String
  pub engine : String
  pub model : Option String
  pub started_at : Stamp
  pub finished_at : Option Stamp
  pub tokens_in : Option ℕ
  pub tokens_out : Option ℕ
  pub cost_usd : Option C
  pub status : RunStatus
  pub error : Option Text
  pub log_path : Option String
  pub prompt_log_path : Option String

pub record Deploy : Type 0 where
  pub id : ℕ
  pub repo_id : ℕ
  pub sha : String
  pub branch : String
  pub triggered_by : String
  pub status : RunStatus
  pub error : Option Text
  pub started_at : Stamp
  pub finished_at : Option Stamp

abbrev pub in_flight : RunStatus → Bool
in_flight RunStatus.running = true
in_flight _ = false

-- the arguments of `createRun`
pub record NewRun : Type 0 where
  pub task_id : ℕ
  pub lane : String
  pub engine : String
  pub model : Option String

-- the arguments of `finishRun`, with the usage spread out
pub record FinishArgs (C : Type 0) : Type 0 where
  pub status : RunStatus
  pub tokens_in : Option ℕ
  pub tokens_out : Option ℕ
  pub cost_usd : Option C
  pub error : Option Text
  pub log_path : Option String
  pub prompt_log_path : Option String

module _ {C : Type 0} where
  -- the new row has the id that AUTOINCREMENT gives it
  unfoldable pub create_run : List (Run C) → ℕ → NewRun → ℕ → List (Run C)
  create_run runs id args now =
      runs
      ++ record {
        id = id;
        task_id = args.task_id;
        lane = args.lane;
        engine = args.engine;
        model = args.model;
        started_at = sql_datetime now;
        finished_at = none;
        tokens_in = none;
        tokens_out = none;
        cost_usd = none;
        status = RunStatus.running;
        error = none;
        log_path = none;
        prompt_log_path = none;
      }
        ∷ []

  unfoldable pub finish_run : List (Run C) → ℕ → FinishArgs C → ℕ → List (Run C)
  finish_run runs run_id args now =
      update (λ (r : Run C). r.id == run_id)
        (λ (r : Run C). record r {
          finished_at = some (sql_datetime now);
          tokens_in = args.tokens_in;
          tokens_out = args.tokens_out;
          cost_usd = args.cost_usd;
          status = args.status;
          error = args.error;
          log_path = args.log_path;
          prompt_log_path = args.prompt_log_path;
        })
        runs

module _ {C : Type 0} (zero_usd : C) (add : C → C → C) where
  -- SUM leaves out the rows whose cost is NULL
  unfoldable pub sum_costs : List (Run C) → C
  sum_costs [] = zero_usd
  sum_costs (r ∷ rs) = elim r.cost_usd [ none ↦ sum_costs rs | some c ↦ add c (sum_costs rs) ]

  unfoldable pub get_cost_usd_since : List (Run C) → Stamp → C × ℕ
  unfolding sum_costs
  get_cost_usd_since runs since = (
    sum_costs (select_all (λ r. stamp_leb since r.started_at) runs),
    count (λ (r : Run C). stamp_leb since r.started_at) runs,
  )
