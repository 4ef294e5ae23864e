-- ===== src/Director/Tick/Halted.antt =====
-- Ticks after the failure streak has reached its limit (src/director/tick.ts,
-- src/director/budget.ts).
use openronin.Common.{
  ℕ, true, ◌≡◌, ◌≢◌, refl, sym, ◌∙◌, Option, none, some, List, [], ◌∷◌, String, if_intro, ◌&&◌,
  Option-cases, inl, inr, subst, All,
}
use openronin.Sql.{select}
use openronin.Supervisor.{Usd}
use openronin.Director.Types.{Payload, Verdict}
use openronin.Director.Decisions.{Decision}
use openronin.Director.Budget.{
  BudgetRow, GateResult, refused, of_repo, ensure_budget_state, rollover_day_if_needed,
}
use openronin.Director.Budget.Streak.{
  IsHalted, IsHalted-run_op, IsHalted-gate, run_op, ensured, rolled_over, recapped,
}
use openronin.Director.Retrospective.{
  Factors, Ledger, RetroSample, RetroResult, move_caps, recalibrate_row, recalibrate_budget,
  should_recalibrate_today,
}
use openronin.Director.Tick.{
  Reply, TickState, TickRunOptions, TickRunResult, TickStatus, paused, EngineId, prepare, on_gate,
  after_prepare, run_tick,
}
use openronin.Director.Tick.Prepared.{prepare-IsPrepared}
use openronin.Director.Tick.Accounts.{run_tick-after_prepare}

module _ (u : Usd) (k : Factors (u.Amount)) (hash_payload : Payload → Option String)
    (ask : EngineId → String → Reply (u.Amount)) where
  open u use {Amount}

  -- the repository of the options has reached the limit
  abbrev pub IsStopped : TickRunOptions Amount → TickState Amount → Type 0
  IsStopped o s = IsHalted o.repo_id o.budget.pause_on_failure_streak s.ledger.budgets

  IsHalted-move_caps :
      (repo_id limit : ℕ) (l : Ledger Amount) (cur : BudgetRow Amount) (d w : Amount)
      (sample : RetroSample) (v : Verdict) (now : ℕ)
      → IsHalted repo_id limit l.budgets
      → IsHalted repo_id limit (move_caps u k l repo_id cur d w sample v now).0.budgets
  unfolding move_caps run_op
  IsHalted-move_caps repo_id limit l cur d w sample v now h =
      if_intro
        (λ (r : Ledger Amount × Option (RetroResult Amount)). IsHalted repo_id limit (r.0).budgets)
        (k.is_close d cur.daily_cap_usd && k.is_close w cur.weekly_cap_usd) h
        (IsHalted-run_op u repo_id limit l.budgets (recapped repo_id d w) tt h)

  IsHalted-recalibrate_row :
      (o : TickRunOptions Amount) (limit : ℕ) (l : Ledger Amount) (cur : BudgetRow Amount)
      (sample : RetroSample) (now : ℕ) (v : Option Verdict)
      → IsHalted o.repo_id limit l.budgets
      → IsHalted o.repo_id limit
          (recalibrate_row u k l o.repo_id cur sample o.budget now v).0.budgets
  IsHalted-recalibrate_row o limit l cur sample now none h = h
  IsHalted-recalibrate_row o limit l cur sample now (some v) h =
      IsHalted-move_caps o.repo_id limit l cur _ _ sample v now h

  IsHalted-recalibrate_budget :
      (o : TickRunOptions Amount) (limit : ℕ) (l : Ledger Amount) (decisions : List Decision)
      (now : ℕ)
      → IsHalted o.repo_id limit l.budgets
      → IsHalted o.repo_id limit
          (recalibrate_budget u k decisions l o.repo_id o.budget now).0.budgets
  unfolding recalibrate_budget
  IsHalted-recalibrate_budget o limit l decisions now h =
      elim (Option-cases (select (of_repo o.repo_id) l.budgets)) [
        | inl e ↦ rw (e, recalibrate_budget) h
        | inr (cur, e) ↦
            rw (e, recalibrate_budget) (IsHalted-recalibrate_row o limit l cur _ now _ h)
      ]

  pub prepare-IsStopped :
      (o : TickRunOptions Amount) (s : TickState Amount)
      → IsStopped o s
      → IsStopped o (prepare u k hash_payload ask o s)
  unfolding prepare run_op
  prepare-IsStopped o s h =
      let limit = o.budget.pause_on_failure_streak in
      let now = s.exec.db.clock in
      let rolled =
        IsHalted-run_op u o.repo_id limit s.ledger.budgets (rolled_over o.repo_id now) tt h in
      let there = IsHalted-run_op u o.repo_id limit _ (ensured o.repo_id o.budget) tt rolled in
      let l : Ledger Amount = record s.ledger {
        budgets =
            (ensure_budget_state u (rollover_day_if_needed u s.ledger.budgets o.repo_id now)
              o.repo_id o.budget).0;
      } in
      if_intro (IsStopped o) (should_recalibrate_today l.history o.repo_id now)
        (IsHalted-recalibrate_budget o limit l s.exec.db.decisions now there) there

  -- paused, with no call of the engine, and still stopped
  abbrev pub IsIdle :
      TickRunOptions Amount → TickState Amount → TickState Amount × TickRunResult Amount → Type 0
  IsIdle o s r = ((r.1).status ≡ paused) × ((r.0).engine_calls ≡ s.engine_calls) × IsStopped o r.0

  on_gate-IsIdle :
      (o : TickRunOptions Amount) (s : TickState Amount) (g : GateResult)
      → g ≢ GateResult.ok
      → IsStopped o s
      → IsIdle o s (on_gate u k hash_payload ask o s g)
  on_gate-IsIdle o s (refused r) n h = (refl, refl, h)
  on_gate-IsIdle o s GateResult.ok n h = absurd (n refl)

  after_prepare-IsIdle :
      (o : TickRunOptions Amount) (s : TickState Amount)
      → IsStopped o s
      → IsIdle o s (after_prepare u k hash_payload ask o s)
  unfolding after_prepare run_op
  after_prepare-IsIdle o s h =
      on_gate-IsIdle o _ _ (IsHalted-gate u o.repo_id o.budget s.ledger.budgets h)
        (IsHalted-run_op u o.repo_id _ s.ledger.budgets (ensured o.repo_id o.budget) tt h)

  run_tick-IsIdle :
      (o : TickRunOptions Amount) (s : TickState Amount)
      → o.has_charter ≡ true
      → IsStopped o s
      → IsIdle o s (run_tick u k hash_payload ask o s)
  run_tick-IsIdle o s c h =
      let p = prepare u k hash_payload ask o s in
      let (e, n, still) = after_prepare-IsIdle o p (prepare-IsStopped o s h) in
      subst (IsIdle o s) (sym (run_tick-after_prepare u k hash_payload ask o s c))
        (e, n ∙ (prepare-IsPrepared u k hash_payload ask o s).3, still)

  abbrev pub at : ℕ → TickState Amount → TickState Amount
  at now s = record s { exec = record s.exec { db = record s.exec.db { clock = now } } }

  -- ticks at a list of moments
  unfoldable pub run_ticks :
      TickRunOptions Amount → List ℕ → TickState Amount → TickState Amount × List TickStatus
  run_ticks o [] s = (s, [])
  run_ticks o (now ∷ nows) s =
      let one = run_tick u k hash_payload ask o (at now s) in
      let rest = run_ticks o nows one.0 in (rest.0, (one.1).status ∷ rest.1)

  -- Once a repository's failure streak has reached its limit, every later tick with a charter is
  -- paused, at whatever moments they fire and however many there are, and the engine is never called
  -- again.
  pub run_ticks-paused :
      (o : TickRunOptions Amount) (nows : List ℕ) (s : TickState Amount)
      → o.has_charter ≡ true
      → IsHalted o.repo_id o.budget.pause_on_failure_streak s.ledger.budgets
      → All (λ (status : TickStatus). status ≡ paused) (run_ticks o nows s).1
        × ((run_ticks o nows s).0.engine_calls ≡ s.engine_calls)
  unfolding run_ticks
  run_ticks-paused o [] s c h = (tt, refl)
  run_ticks-paused o (now ∷ nows) s c h =
      let (e, n, still) = run_tick-IsIdle o (at now s) c h in
      let (es, ns) =
        run_ticks-paused o nows (run_tick u k hash_payload ask o (at now s)).0 c still in
      ((e, es), ns ∙ n)
