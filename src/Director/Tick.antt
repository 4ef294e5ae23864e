-- ===== src/Director/Tick.antt =====
-- One planning tick of the Director (src/director/tick.ts). The engine's answer is a parameter: a
-- reply with its cost and the decisions that `parseTickOutput` makes of it, or an error. The version
-- of the charter, the snapshot of the project and the prompt go to the engine only. `engine_calls`
-- counts the calls of `engine.run`. The cost and the trace columns of a decision are left out.
pub mod Engine
unfoldable pub use Engine.*
pub mod Accounts
pub mod Prepared
pub mod Attended
pub mod Halted
use openronin.Common.{
  ℕ, zero, suc, length, String, Bool, true, false, not, Option, none, some, List, [], ◌∷◌, ◌++◌,
  map, Text, if◌then◌else◌,
}
use openronin.Supervisor.{Usd}
use openronin.Director.Types.{
  Mode, Authority, Payload, Outcome, pending, executed, failed, Role, MessageType, Body, Refusal,
}
use openronin.Director.Decisions.{Tables, append_message}
use openronin.Director.Executor.{State, Context, Vcs, ExecuteResult, execute_decision}
use openronin.Director.Budget.{
  BudgetConfig, BudgetRow, GateResult, refused, ensure_budget_state, rollover_day_if_needed,
  record_think_spend, bump_failure_streak, reset_failure_streak, mark_tick, check_budget_gate,
}
use openronin.Director.Retrospective.{
  Ledger, RetroResult, Factors, should_recalibrate_today, recalibrate_budget,
}
use openronin.Director.Dedup.{Proposed, Recorded, record_tick_decisions}

-- what the engine's call gives
pub data Reply (C : Type 0) : Type 0 where
  threw : Text → Reply C
  replied : (cost_usd : Option C) → (output : Output) → Reply C

pub record TickState (C : Type 0) : Type 0 where
  pub exec : State
  pub ledger : Ledger C
  pub engine_calls : ℕ

pub record TickRunOptions (C : Type 0) : Type 0 where
  pub repo_id : ℕ
  pub has_charter : Bool
  pub mode : Mode
  pub authority : Authority
  pub budget : BudgetConfig C
  pub reason : TickReason
  pub env : Env
  pub vcs : Vcs

pub data TickStatus : Type 0 where
  ok skipped paused error : TickStatus

pub data TickDetail : Type 0 where
  no_charter : TickDetail
  refusal : Refusal → TickDetail
  message : Text → TickDetail
  schema_invalid : TickDetail
  summary : (executed pending skipped failed : ℕ) → TickDetail

pub record TickRunResult (C : Type 0) : Type 0 where
  pub status : TickStatus
  pub detail : TickDetail
  pub decisions_logged : ℕ
  pub cost_usd : C

-- the counters of the execution loop
pub record Tally : Type 0 where
  pub executed : ℕ
  pub pending : ℕ
  pub skipped : ℕ
  pub failed : ℕ

abbrev pub tally_one : Outcome → Tally → Tally
tally_one executed t = record t { executed = suc t.executed }
tally_one pending t = record t { pending = suc t.pending }
tally_one failed t = record t { failed = suc t.failed }
tally_one Outcome.skipped t = record t { skipped = suc t.skipped }
tally_one _ t = t

abbrev pub no_tally : Tally
no_tally = record { executed = 0; pending = 0; skipped = 0; failed = 0 }

-- the loop over the recorded decisions
unfoldable pub execute_all : Context → ℕ → List Recorded → State → Tally → State × Tally
execute_all c repo_id [] s t = (s, t)
execute_all c repo_id (r ∷ rs) s t =
    let one = execute_decision c r.id repo_id r.payload s in
    execute_all c repo_id rs one.0 (tally_one (one.1).outcome t)

abbrev pub post : ℕ → Role → MessageType → Body → State → State
post repo_id role type body s = record s { db = append_message s.db repo_id role type body none }

module _ (u : Usd) (k : Factors (u.Amount)) (hash_payload : Payload → Option String)
    (ask : EngineId → String → Reply (u.Amount)) where
  open u use {Amount, zero_usd}

  abbrev pub announce : ℕ → State → Option (RetroResult Amount) → State
  announce repo_id s none = s
  announce repo_id s (some retro) =
      post repo_id Role.system MessageType.tick_log (Body.budget_recalibrated retro.reason) s

  abbrev pub with_budgets : TickState Amount → List (BudgetRow Amount) → TickState Amount
  with_budgets s rows = record s { ledger = record s.ledger { budgets = rows } }

  -- the rollover, the row and the daily recalibration
  unfoldable pub prepare : TickRunOptions Amount → TickState Amount → TickState Amount
  prepare o s =
      let now = s.exec.db.clock in
      let rows =
        (ensure_budget_state u (rollover_day_if_needed u s.ledger.budgets o.repo_id now) o.repo_id
          o.budget).0 in
      let l = record s.ledger { budgets = rows } in
      if should_recalibrate_today l.history o.repo_id now
      then (let moved = recalibrate_budget u k s.exec.db.decisions l o.repo_id o.budget now in
          record s { exec = announce o.repo_id s.exec moved.1; ledger = moved.0 })
      else record s { ledger = l }

  -- a failed tick: the error in the chat, the tick marked, the streak bumped
  abbrev pub fail_tick : TickRunOptions Amount → Body → TickState Amount → TickState Amount
  fail_tick o body s = record s {
    exec = post o.repo_id Role.system MessageType.error body s.exec;
    ledger = record s.ledger {
      budgets =
          bump_failure_streak u (mark_tick u s.ledger.budgets o.repo_id s.exec.db.clock) o.repo_id;
    };
  }

  abbrev pub failure : TickDetail → Amount → TickRunResult Amount
  failure detail cost = record {
    status = error;
    detail = detail;
    decisions_logged = 0;
    cost_usd = cost;
  }

  -- from the parsed output on
  unfoldable pub carry_out :
      TickRunOptions Amount
      → Amount
      → List Proposed
      → TickState Amount
      → TickState Amount × TickRunResult Amount
  carry_out o cost ds s =
      let recorded = record_tick_decisions hash_payload s.exec.db o.repo_id ds in
      let posted =
        post o.repo_id Role.director MessageType.status
          (Body.tick_status o.mode (map (λ (d : Proposed). d.payload) ds))
          (record s.exec { db = recorded.0 }) in
      let c : Context = record {
        vcs = o.vcs;
        mode = o.mode;
        authority = o.authority;
        now = s.exec.db.clock;
      } in
      let run = execute_all c o.repo_id recorded.1 posted no_tally in
      (
        record s {
          exec = run.0;
          ledger = record s.ledger {
            budgets =
                reset_failure_streak u (mark_tick u s.ledger.budgets o.repo_id s.exec.db.clock)
                  o.repo_id;
          };
        },
        record {
          status = TickStatus.ok;
          detail = summary (run.1).executed (run.1).pending (run.1).skipped (run.1).failed;
          decisions_logged = length recorded.1;
          cost_usd = cost;
        },
      )

  abbrev pub on_output :
      TickRunOptions Amount
      → Amount
      → TickState Amount
      → Output
      → TickState Amount × TickRunResult Amount
  on_output o cost s (invalid e) =
      (fail_tick o (Body.schema_invalid e) s, failure schema_invalid cost)
  on_output o cost s (valid ds) = carry_out o cost ds s

  abbrev pub cost_or_zero : Option Amount → Amount
  cost_or_zero none = zero_usd
  cost_or_zero (some c) = c

  abbrev pub on_reply :
      TickRunOptions Amount
      → TickState Amount
      → Reply Amount
      → TickState Amount × TickRunResult Amount
  on_reply o s (threw e) = (fail_tick o (Body.llm_call_failed e) s, failure (message e) zero_usd)
  on_reply o s (replied cost out) =
      on_output o (cost_or_zero cost)
        (with_budgets s (record_think_spend u s.ledger.budgets o.repo_id (cost_or_zero cost))) out

  abbrev pub on_engine :
      TickRunOptions Amount → TickState Amount → Selection → TickState Amount × TickRunResult Amount
  on_engine o s (unavailable e) =
      (fail_tick o (Body.cannot_start e) s, failure (message e) zero_usd)
  on_engine o s (selected engine model) =
      on_reply o (record s { engine_calls = suc s.engine_calls }) (ask engine model)

  abbrev pub on_gate :
      TickRunOptions Amount
      → TickState Amount
      → GateResult
      → TickState Amount × TickRunResult Amount
  on_gate o s (refused r) = (
    record s {
      exec = post o.repo_id Role.system MessageType.tick_log (Body.tick_skipped r) s.exec;
    },
    record { status = paused; detail = refusal r; decisions_logged = 0; cost_usd = zero_usd },
  )
  on_gate o s GateResult.ok = on_engine o s (select_think_engine o.env (prefer_cheap o.reason))

  -- the second `ensureBudgetState` and the gate
  unfoldable pub after_prepare :
      TickRunOptions Amount → TickState Amount → TickState Amount × TickRunResult Amount
  after_prepare o s =
      let ensured = ensure_budget_state u s.ledger.budgets o.repo_id o.budget in
      on_gate o (with_budgets s ensured.0) (check_budget_gate u ensured.1 o.budget)

  unfoldable pub run_tick :
      TickRunOptions Amount → TickState Amount → TickState Amount × TickRunResult Amount
  run_tick o s =
      if not o.has_charter
      then (
        s,
        record { status = skipped; detail = no_charter; decisions_logged = 0; cost_usd = zero_usd },
      )
      else after_prepare o (prepare o s)
