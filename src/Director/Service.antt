-- ===== src/Director/Service.antt =====
-- The Director's service (src/director/index.ts, `unansweredUserDirectives` of src/director/chat.ts).
-- The digest is off and the follow-up sweep, which writes to a table of its own, is left out of a
-- visit; so are the returns of a loop that is told to stop. A cadence is in whole hours. The lock's
-- moments are in seconds. No statement of the database throws.
pub mod Reasons
pub mod Targets
pub mod Waiting
use openronin.Common.{
  ℕ, zero, suc, ◌+◌, ◌*◌, ◌/◌, String, Bool, true, false, not, ◌&&◌, ◌||◌, Option, none, some, List,
  [], ◌∷◌, ◌++◌, ◌==◌, ltb, leb, max, str_eq, if◌then◌else◌,
}
use openronin.Sql.{select_all}
use openronin.Supervisor.{Usd}
use openronin.Director.Types.{
  Mode, disabled, Authority, Payload, Role, director, user, MessageType, Body, Message,
}
use openronin.Director.Decisions.{Tables, append_message, expire_stale_pending}
use openronin.Director.Executor.{State, Vcs}
use openronin.Director.ActiveTick.{ActiveTick, try_acquire_tick, release_tick, default_ttl_s}
use openronin.Director.Budget.{
  BudgetConfig, BudgetState, ensure_budget_state, rollover_day_if_needed,
}
use openronin.Director.Retrospective.{Factors, maybe_post_trust_ramp_suggestion}
use openronin.Director.Tick.{
  Reply, TickState, TickRunOptions, TickReason, scheduled, user_message, EngineId, Env, run_tick,
  with_budgets, post,
}

abbrev pub is_director : Role → Bool
is_director director = true
is_director _ = false

abbrev pub is_user : Role → Bool
is_user user = true
is_user _ = false

-- `COALESCE((SELECT MAX(id) … role = 'director'), 0)`
unfoldable pub last_director_id : List Message → ℕ → ℕ
last_director_id [] repo_id = 0
last_director_id (m ∷ ms) repo_id =
    let rest = last_director_id ms repo_id in
    if m.repo_id == repo_id && is_director m.role then max m.id rest else rest

abbrev pub is_unanswered : ℕ → ℕ → Message → Bool
is_unanswered repo_id last m = m.repo_id == repo_id && (is_user m.role && ltb last m.id)

unfoldable pub unanswered_user_directives : Tables → ℕ → List Message
unanswered_user_directives db repo_id =
    select_all (is_unanswered repo_id (last_director_id db.messages repo_id)) db.messages

unfoldable pub is_past_cadence : Option ℕ → ℕ → ℕ → Bool
is_past_cadence none cadence_hours now = true
is_past_cadence (some last) cadence_hours now = leb (last + cadence_hours * 3_600_000) now

abbrev pub is_nonempty : {A : Type 0} → List A → Bool
is_nonempty [] = false
is_nonempty (x ∷ xs) = true

unfoldable pub pick_tick_reason : Tables → ℕ → Option ℕ → ℕ → Option TickReason
pick_tick_reason db repo_id last_tick_at cadence_hours =
    if is_nonempty (unanswered_user_directives db repo_id)
    then some user_message
    else if is_past_cadence last_tick_at cadence_hours db.clock
    then some scheduled
    else none

pub record DirectorConfig (C : Type 0) : Type 0 where
  pub enabled : Bool
  pub mode : Mode
  pub has_charter : Bool
  pub cadence_hours : ℕ
  pub authority : Authority
  pub budget : BudgetConfig C

-- a repository of the configuration, by its `repoKey`
pub record RepoConfig (C : Type 0) : Type 0 where
  pub key : String
  pub hidden : Bool
  pub director : Option (DirectorConfig C)

-- a row of `repos`
pub record RepoRow : Type 0 where
  pub id : ℕ
  pub key : String
  pub watched : Bool

pub record RepoLookup (C : Type 0) : Type 0 where
  pub repo_id : ℕ
  pub config : DirectorConfig C

-- `idByKey.get`: the last watched row with the key
unfoldable pub repo_id_by_key : List RepoRow → String → Option ℕ
repo_id_by_key [] key = none
repo_id_by_key (r ∷ rs) key = elim (repo_id_by_key rs key) [
  | some id ↦ some id
  | none ↦ if r.watched && str_eq r.key key then some r.id else none
]

abbrev pub is_disabled : Mode → Bool
is_disabled disabled = true
is_disabled _ = false

abbrev pub is_target : {C : Type 0} → RepoConfig C → DirectorConfig C → Bool
is_target repo d = not repo.hidden && (d.enabled && (not (is_disabled d.mode) && d.has_charter))

abbrev pub lookup : {C : Type 0} → DirectorConfig C → Option ℕ → List (RepoLookup C)
lookup d none = []
lookup d (some id) = record { repo_id = id; config = d } ∷ []

abbrev pub chosen :
    {C : Type 0} → List RepoRow → RepoConfig C → Option (DirectorConfig C) → List (RepoLookup C)
chosen rows repo none = []
chosen rows repo (some d) = if is_target repo d then lookup d (repo_id_by_key rows repo.key) else []

abbrev pub targets_of : {C : Type 0} → List RepoRow → RepoConfig C → List (RepoLookup C)
targets_of rows repo = chosen rows repo repo.director

unfoldable pub list_director_enabled_repos :
    {C : Type 0} → List RepoRow → List (RepoConfig C) → List (RepoLookup C)
list_director_enabled_repos rows [] = []
list_director_enabled_repos rows (repo ∷ repos) =
    targets_of rows repo ++ list_director_enabled_repos rows repos

pub record ServiceState (C : Type 0) : Type 0 where
  pub tick : TickState C
  pub locks : List ActiveTick

abbrev pub text_of : TickReason → String
text_of scheduled = "scheduled"
text_of TickReason.manual = "manual"
text_of user_message = "user_message"
text_of TickReason.pr_event = "pr_event"
text_of TickReason.deploy_failed = "deploy_failed"

module _ (u : Usd) (k : Factors (u.Amount)) (hash_payload : Payload → Option String)
    (ask : EngineId → String → Reply (u.Amount)) (env : Env) (vcs : Vcs) (pid : ℕ) where
  open u use {Amount}

  abbrev pub options_of : RepoLookup Amount → TickReason → TickRunOptions Amount
  options_of t reason = record {
    repo_id = t.repo_id;
    has_charter = (t.config).has_charter;
    mode = (t.config).mode;
    authority = (t.config).authority;
    budget = (t.config).budget;
    reason = reason;
    env = env;
    vcs = vcs;
  }

  unfoldable pub execute_tick :
      RepoLookup Amount → TickReason → ServiceState Amount → ServiceState Amount
  execute_tick t reason s =
      let acquired =
        try_acquire_tick s.locks t.repo_id pid (text_of reason) default_ttl_s
          (s.tick.exec.db.clock / 1000) in
      if not acquired.1 then record s { locks = acquired.0 } else record {
        tick = (run_tick u k hash_payload ask (options_of t reason) s.tick).0;
        locks = release_tick acquired.0 t.repo_id;
      }

  -- the note on expired proposals
  abbrev pub note_expired : ℕ → Tables × ℕ → Tables
  note_expired repo_id (db, zero) = db
  note_expired repo_id (db, suc n) =
      append_message db repo_id Role.system MessageType.tick_log (Body.expired_proposals (suc n))
        none

  abbrev pub with_db : Tables → TickState Amount → TickState Amount
  with_db db s = record s { exec = record s.exec { db = db } }

  abbrev pub on_reason :
      RepoLookup Amount → Option TickReason → ServiceState Amount → ServiceState Amount
  on_reason t none s = s
  on_reason t (some reason) s = execute_tick t reason s

  -- one turn of the loop of `loopOnce`
  unfoldable pub visit : RepoLookup Amount → ServiceState Amount → ServiceState Amount
  visit t s =
      let now = s.tick.exec.db.clock in
      let rolled = rollover_day_if_needed u s.tick.ledger.budgets t.repo_id now in
      let expired = note_expired t.repo_id (expire_stale_pending s.tick.exec.db t.repo_id 7 now) in
      let ensured = ensure_budget_state u rolled t.repo_id (t.config).budget in
      let suggested = (maybe_post_trust_ramp_suggestion expired t.repo_id (t.config).mode).0 in
      on_reason t
        (pick_tick_reason suggested t.repo_id (ensured.1).last_tick_at (t.config).cadence_hours)
        (record s { tick = with_db suggested (with_budgets u k hash_payload ask s.tick ensured.0) })

  unfoldable pub loop_once : List (RepoLookup Amount) → ServiceState Amount → ServiceState Amount
  loop_once [] s = s
  loop_once (t ∷ ts) s = loop_once ts (visit t s)
