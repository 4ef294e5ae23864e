-- ===== src/Tests/Ticking.antt =====
-- Ticks of the Director on concrete data.
use openronin.Common.{
  ℕ, String, ◌≡◌, refl, true, false, none, some, Option, List, [], ◌∷◌, All, arith, ◌++◌,
}
use openronin.Director.Types.{
  Mode, propose, Payload, no_op, Role, MessageType, Body, Message, close_issue, full_auto,
}
use openronin.Director.Decisions.{Tables, Decision}
use openronin.Director.Budget.{of_repo, BudgetRow}
use openronin.Director.Retrospective.Cooldown.{is_move}
use openronin.Director.Retrospective.{
  trust_ramp_on_cooldown, evaluate_trust_ramp, sample_recent_outcomes, promote_next,
  maybe_post_trust_ramp_suggestion,
}
use openronin.Director.Dedup.{Proposed, record_tick_decisions}
use openronin.Director.Dedup.Living.{AreDistinct, record_tick_decisions-AreDistinct}
use openronin.Director.Tick.{
  Reply, replied, valid, EngineId, TickState, TickRunOptions, user_message, paused, TickStatus,
  prepare, run_tick,
}
use openronin.Director.Tick.Accounts.{IsAccounted, run_tick-IsAccounted}
use openronin.Director.Tick.Attended.{run_tick-calls_nothing}
use openronin.Director.Tick.Halted.{run_ticks, run_ticks-paused}
use openronin.Director.Service.{
  is_past_cadence, pick_tick_reason, is_nonempty, unanswered_user_directives, last_director_id,
}
use openronin.Director.Service.Reasons.{pick_tick_reason-after_suggestion}
use openronin.Director.Service.Waiting.{IsWaiting, run_tick-keeps_unanswered}
use openronin.Sql.{select, select_all, count}
use openronin.Tests.Provider.{slow_vcs, all_flags}
use openronin.Tests.Money.{cents, ten_percent, a_budget, a_ledger, five_executed}

abbrev asked : Message
asked = record {
  id = 1;
  repo_id = 1;
  ts = 900;
  role = Role.user;
  type = MessageType.directive;
  body = Body.user_text "close 7";
  decision_id = none;
}

abbrev chat : List Message → Tables
chat messages = record {
  clock = 1000;
  decisions = [];
  decision_seq = 0;
  messages = messages;
  message_seq = 1;
  notes = [];
  note_seq = 0;
}

abbrev office : ℕ → TickState ℕ
office streak = record {
  exec = record { log = []; db = chat (asked ∷ []) };
  ledger = a_ledger streak;
  engine_calls = 0;
}

abbrev closing : Proposed
closing = record { rationale = "because"; payload = close_issue 7 "done" }

-- an engine that proposes the same twice
abbrev repeats : EngineId → String → Reply ℕ
repeats _ _ = replied (some 3) (valid (closing ∷ closing ∷ []))

abbrev one_hash : Payload → Option String
one_hash no_op = none
one_hash _ = some "close_issue|7"

abbrev options : Mode → TickRunOptions ℕ
options mode = record {
  repo_id = 1;
  has_charter = true;
  mode = mode;
  authority = all_flags;
  budget = a_budget;
  reason = user_message;
  env = record {
    override = "";
    user_model = none;
    chat_model = none;
    have_anthropic = true;
    have_mimo = true;
  };
  vcs = slow_vcs;
}

run_tick-calls_nothing_example :
    (run_tick cents ten_percent one_hash repeats (options propose) (office 0)).0.exec.log ≡ []
run_tick-calls_nothing_example =
    run_tick-calls_nothing cents ten_percent one_hash repeats (options propose) (office 0)
      (λ e. ground (arith, e)) (λ e. ground (arith, e))

record_tick_decisions-AreDistinct_example :
    AreDistinct one_hash (record_tick_decisions one_hash (chat []) 1 (closing ∷ closing ∷ [])).1
record_tick_decisions-AreDistinct_example =
    record_tick_decisions-AreDistinct one_hash (closing ∷ closing ∷ []) (chat []) 1

run_ticks-paused_example :
    All
      (λ (status : TickStatus). status ≡ paused)
      (run_ticks cents ten_percent one_hash repeats
        (options full_auto)
        (2000 ∷ 90_000_000 ∷ [])
        (office 3)).1
    × ((run_ticks cents ten_percent one_hash repeats
          (options full_auto)
          (2000 ∷ 90_000_000 ∷ [])
          (office 3)).0.engine_calls
        ≡ 0)
unfolding select
run_ticks-paused_example =
    run_ticks-paused cents ten_percent one_hash repeats (options full_auto) (2000 ∷ 90_000_000 ∷ [])
      (office 3) refl (_, refl, omega arith)

asked_waits : is_nonempty (unanswered_user_directives (chat (asked ∷ [])) 1) ≡ true
unfolding unanswered_user_directives last_director_id select_all
asked_waits = refl

run_tick-keeps_unanswered_example :
    IsWaiting cents ten_percent one_hash repeats 1
      (office 3).exec
      (run_tick cents ten_percent one_hash repeats (options full_auto) (office 3)).0.exec
    × (pick_tick_reason
          (record (run_tick cents ten_percent one_hash repeats
            (options full_auto)
            (office 3)).0.exec.db { clock = 5000 })
          1
          (some 500)
          6
        ≡ some user_message)
unfolding select
run_tick-keeps_unanswered_example =
    run_tick-keeps_unanswered cents ten_percent one_hash repeats (options full_auto) (office 3) refl
      (_, refl, omega arith) asked_waits (some 500) 6 5000

run_tick-IsAccounted_example :
    (row : BudgetRow ℕ) × (select
        (of_repo 1)
        (prepare cents ten_percent one_hash repeats (options full_auto) (office 0)).ledger.budgets
      ≡ some row)
    × IsAccounted cents ten_percent one_hash repeats
        (options full_auto)
        row
        (prepare cents ten_percent one_hash repeats (options full_auto) (office 0))
        (run_tick cents ten_percent one_hash repeats (options full_auto) (office 0))
run_tick-IsAccounted_example =
    run_tick-IsAccounted cents ten_percent one_hash repeats (options full_auto) (office 0) refl

-- thirty decisions that were executed
abbrev thirty : List Decision
thirty =
    five_executed ++ five_executed ++ five_executed ++ five_executed ++ five_executed
    ++ five_executed

abbrev trusted : Tables
trusted = record (chat (asked ∷ [])) { decisions = thirty }

suggested : is_move (maybe_post_trust_ramp_suggestion trusted 1 propose).1 ≡ true
unfolding maybe_post_trust_ramp_suggestion trust_ramp_on_cooldown evaluate_trust_ramp
    sample_recent_outcomes promote_next select select_all count
suggested = refl

early : is_past_cadence (some 500) 6 5000 ≡ false
unfolding is_past_cadence
early = refl

pick_tick_reason-after_suggestion_example :
    pick_tick_reason
      (record (maybe_post_trust_ramp_suggestion trusted 1 propose).0 { clock = 5000 })
      1
      (some 500)
      6
    ≡ none
pick_tick_reason-after_suggestion_example =
    pick_tick_reason-after_suggestion trusted 1 propose (some 500) 6 5000 (omega arith, tt)
      suggested early
