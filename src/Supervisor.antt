-- ===== src/Supervisor.antt =====
-- The calls of an engine and the daily cap on their cost (src/supervisor/index.ts). A cost is of an
-- abstract type with SQLite's sum and the comparison `>=`; the engine is a parameter.
pub mod Cap
pub mod Calls
use openronin.Common.{
  ℕ, suc, ◌-◌, String, Bool, true, false, ◌&&◌, ◌||◌, Option, none, some, List, [], ◌∷◌, ◌++◌, Text,
  str_eq, if◌then◌else◌,
}
use openronin.Stamp.{Stamp, to_iso, sql_datetime}
use openronin.Store.Runs.{
  Run, RunStatus, NewRun, FinishArgs, create_run, finish_run, get_cost_usd_since,
}

-- `number`s as far as the cap reads them: no NaN is ever stored.
pub record Usd : Type 1 where
  pub Amount : Type 0
  pub zero_usd : Amount
  pub add : Amount → Amount → Amount
  -- `a <= b`
  pub leb_usd : Amount → Amount → Bool

pub data EngineId : Type 0 where
  mimo claude_code anthropic multi_agent : EngineId

pub record EngineRef : Type 0 where
  pub provider : EngineId
  pub model : Option String

pub data ChoiceSource : Type 0 where
  cli_override repo_override global_default : ChoiceSource

pub record EngineChoice : Type 0 where
  pub engine : EngineId
  pub model : String
  pub source : ChoiceSource

pub record SelectionOverride : Type 0 where
  pub engine : Option EngineId
  pub model : Option String

abbrev is_empty : String → Bool
is_empty s = str_eq s ""

-- `model || engine.defaultModel`: an empty text counts as no model
abbrev model_or : (EngineId → String) → EngineId → Option String → String
model_or default_model engine none = default_model engine
model_or default_model engine (some m) = if is_empty m then default_model engine else m

abbrev choose : (EngineId → String) → EngineRef → ChoiceSource → EngineChoice
choose default_model ref source = record {
  engine = ref.provider;
  model = model_or default_model ref.provider ref.model;
  source = source;
}

abbrev from_config : (EngineId → String) → Option EngineRef → EngineRef → EngineChoice
from_config default_model (some ref) global_ref = choose default_model ref repo_override
from_config default_model none global_ref = choose default_model global_ref global_default

abbrev from_override : (EngineId → String) → Option SelectionOverride → EngineChoice → EngineChoice
from_override default_model none config = config
from_override default_model (some o) config = elim o.engine [
  | none ↦ config
  | some engine ↦ choose default_model (record { provider = engine; model = o.model }) cli_override
]

-- `selectEngine` for one job type: the repository's override and the global default of that type
unfoldable pub select_engine :
    (EngineId → String) → Option SelectionOverride → Option EngineRef → EngineRef → EngineChoice
select_engine default_model override repo_ref global_ref =
    from_override default_model override (from_config default_model repo_ref global_ref)

abbrev pub day_ms : ℕ
day_ms = 86_400_000

-- what an engine call gives
pub data EngineRun (C : Type 0) : Type 0 where
  answered : (tokens_in tokens_out : Option ℕ) → (cost_usd : Option C) → EngineRun C
  raised : Text → EngineRun C

pub data JobResult : Type 0 where
  cost_cap_exceeded : JobResult
  completed : (run_id : ℕ) → EngineChoice → JobResult
  rethrown : Text → JobResult

module _ (u : Usd) where
  open u use {Amount, zero_usd, add, leb_usd}

  -- `checkDailyCostCap`: whether it throws
  unfoldable pub over_daily_cap : Amount → List (Run Amount) → ℕ → Bool
  over_daily_cap cap runs now =
      if leb_usd cap zero_usd
      then false
      else leb_usd cap (get_cost_usd_since zero_usd add runs (to_iso (now - day_ms))).0

  abbrev pub finished : EngineRun Amount → FinishArgs Amount
  finished (answered tokens_in tokens_out cost_usd) = record {
    status = RunStatus.ok;
    tokens_in = tokens_in;
    tokens_out = tokens_out;
    cost_usd = cost_usd;
    error = none;
    log_path = none;
    prompt_log_path = none;
  }
  finished (raised message) = record {
    status = RunStatus.error;
    tokens_in = none;
    tokens_out = none;
    cost_usd = none;
    error = some message;
    log_path = none;
    prompt_log_path = none;
  }

  abbrev pub job_result : ℕ → EngineChoice → EngineRun Amount → JobResult
  job_result id choice (answered _ _ _) = completed id choice
  job_result id choice (raised message) = rethrown message

  -- the runs, and the choices whose engine was called
  pub record JobState : Type 0 where
    pub runs : List (Run Amount)
    pub calls : List EngineChoice

  -- `createRun` has the engine and the model of the choice
  abbrev pub new_run : (EngineId → String) → ℕ → String → EngineChoice → NewRun
  new_run engine_text task_id lane choice = record {
    task_id = task_id;
    lane = lane;
    engine = engine_text choice.engine;
    model = some choice.model;
  }

  -- from the choice that `selectEngine` makes on; `call` is what the engine of a choice comes to
  abbrev pub call_engine :
      JobState
      → ℕ
      → NewRun
      → EngineChoice
      → (EngineChoice → EngineRun Amount)
      → ℕ
      → ℕ
      → JobState × JobResult
  call_engine s id args choice call now later = (
    record {
      runs = finish_run (create_run s.runs id args now) id (finished (call choice)) later;
      calls = s.calls ++ choice ∷ [];
    },
    job_result id choice (call choice),
  )

  -- `runJob`; the log file's path is left out
  unfoldable pub run_job :
      (EngineId → String)
      → Amount
      → JobState
      → ℕ
      → ℕ
      → String
      → EngineChoice
      → (EngineChoice → EngineRun Amount)
      → ℕ
      → ℕ
      → JobState × JobResult
  unfolding over_daily_cap
  run_job engine_text cap s id task_id lane choice call now later =
      if over_daily_cap cap s.runs now
      then (s, cost_cap_exceeded)
      else call_engine s id (new_run engine_text task_id lane choice) choice call now later
