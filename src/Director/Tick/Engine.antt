-- ===== src/Director/Tick/Engine.antt =====
-- Why a tick fires, and the engine that plans it (src/director/tick.ts).
use openronin.Common.{
  String, Bool, true, false, Option, none, some, List, Text, codes, ◌&&◌, if◌then◌else◌, str_eq,
}
use openronin.Director.Dedup.{Proposed}

pub data TickReason : Type 0 where
  scheduled manual user_message pr_event deploy_failed : TickReason

-- what `parseTickOutput` makes of the reply
pub data Output : Type 0 where
  invalid : Text → Output
  valid : List Proposed → Output

pub data EngineId : Type 0 where
  anthropic mimo : EngineId

-- the environment that the choice reads; `override` is in lower case
pub record Env : Type 0 where
  pub override : String
  pub user_model : Option String
  pub chat_model : Option String
  pub have_anthropic : Bool
  pub have_mimo : Bool

pub data Selection : Type 0 where
  unavailable : Text → Selection
  selected : EngineId → (model : String) → Selection

abbrev pub model_or : String → Option String → String
model_or default none = default
model_or default (some m) = m

abbrev pub by_anthropic : Env → Selection
by_anthropic env = selected anthropic (model_or "claude-sonnet-4-6" env.user_model)

abbrev pub by_mimo : Env → Selection
by_mimo env = selected mimo (model_or "mimo-v2.5-pro" env.user_model)

-- `reason === "user_message"`
abbrev pub prefer_cheap : TickReason → Bool
prefer_cheap user_message = true
prefer_cheap _ = false

unfoldable pub select_think_engine : Env → Bool → Selection
select_think_engine env cheap =
    if str_eq env.override "anthropic"
    then (if env.have_anthropic
        then by_anthropic env
        else unavailable
            (codes "OPENRONIN_DIRECTOR_THINK_ENGINE=anthropic but ANTHROPIC_API_KEY not set"))
    else if str_eq env.override "mimo"
    then (if env.have_mimo
        then by_mimo env
        else unavailable
            (codes "OPENRONIN_DIRECTOR_THINK_ENGINE=mimo but XIAOMI_MIMO_API_KEY not set"))
    else if cheap && env.have_mimo
    then selected mimo (model_or "mimo-v2.5-pro" env.chat_model)
    else if env.have_anthropic
    then by_anthropic env
    else if env.have_mimo
    then by_mimo env
    else unavailable
        (codes "no LLM API key found (ANTHROPIC_API_KEY or XIAOMI_MIMO_API_KEY required)")
