-- ===== src/Director/Tick/Prepared.antt =====
-- What the preparation of a tick leaves (src/director/tick.ts).
use openronin.Common.{ℕ, ◌≡◌, refl, Option, none, some, List, String, if_intro, ◌&&◌}
use openronin.Sql.{select}
use openronin.Sql.Laws.{select-update_same}
use openronin.Supervisor.{Usd}
use openronin.Director.Types.{Payload, Verdict}
use openronin.Director.Decisions.{Decision, append_message}
use openronin.Director.Executor.{State}
use openronin.Director.Budget.{
  BudgetRow, of_repo, set_caps, ensure_budget_state, rollover_day_if_needed,
}
use openronin.Director.Budget.Rows.{ensure_budget_state-select}
use openronin.Director.Retrospective.{
  Ledger, RetroSample, RetroResult, Factors, move_caps, recalibrate_row, recalibrate_budget,
  should_recalibrate_today,
}
use openronin.Director.Tick.{Reply, TickState, TickRunOptions, EngineId, announce, prepare}

module _ (u : Usd) (k : Factors (u.Amount)) (hash_payload : Payload → Option String)
    (ask : EngineId → String → Reply (u.Amount)) where
  open u use {Amount, zero_usd, add}

  -- the repository's row is there
  abbrev pub HasRow : TickRunOptions Amount → List (BudgetRow Amount) → Type 0
  HasRow o rows = (row : BudgetRow Amount) × (select (of_repo o.repo_id) rows ≡ some row)

  HasRow-move_caps :
      (o : TickRunOptions Amount) (l : Ledger Amount) (cur : BudgetRow Amount) (d w : Amount)
      (sample : RetroSample) (v : Verdict) (now : ℕ)
      → select (of_repo o.repo_id) l.budgets ≡ some cur
      → HasRow o (move_caps u k l o.repo_id cur d w sample v now).0.budgets
  unfolding move_caps set_caps
  HasRow-move_caps o l cur d w sample v now e =
      if_intro (λ (r : Ledger Amount × Option (RetroResult Amount)). HasRow o (r.0).budgets)
        (k.is_close d cur.daily_cap_usd && k.is_close w cur.weekly_cap_usd) (cur, e)
        (_, select-update_same (of_repo o.repo_id) _ l.budgets (λ _. refl) e)

  HasRow-recalibrate_row :
      (o : TickRunOptions Amount) (l : Ledger Amount) (cur : BudgetRow Amount)
      (sample : RetroSample) (now : ℕ) (v : Option Verdict)
      → select (of_repo o.repo_id) l.budgets ≡ some cur
      → HasRow o (recalibrate_row u k l o.repo_id cur sample o.budget now v).0.budgets
  HasRow-recalibrate_row o l cur sample now none e = (cur, e)
  HasRow-recalibrate_row o l cur sample now (some v) e = HasRow-move_caps o l cur _ _ sample v now e

  HasRow-recalibrate_budget :
      (o : TickRunOptions Amount) (l : Ledger Amount) (decisions : List Decision) (now : ℕ)
      → HasRow o l.budgets
      → HasRow o (recalibrate_budget u k decisions l o.repo_id o.budget now).0.budgets
  unfolding recalibrate_budget
  HasRow-recalibrate_budget o l decisions now (cur, e) =
      rw (e, recalibrate_budget) (HasRow-recalibrate_row o l cur _ now _ e)

  -- what the preparation leaves alone
  abbrev pub IsPrepared : TickRunOptions Amount → TickState Amount → TickState Amount → Type 0
  IsPrepared o s p =
      (p.exec.log ≡ s.exec.log)
      × (p.exec.db.decisions ≡ s.exec.db.decisions)
      × (p.exec.db.clock ≡ s.exec.db.clock)
      × (p.engine_calls ≡ s.engine_calls)
      × HasRow o p.ledger.budgets

  announce-state :
      (repo_id : ℕ) (s : State) (r : Option (RetroResult Amount))
      → ((announce u k hash_payload ask repo_id s r).log ≡ s.log)
        × ((announce u k hash_payload ask repo_id s r).db.decisions ≡ s.db.decisions)
        × ((announce u k hash_payload ask repo_id s r).db.clock ≡ s.db.clock)
  unfolding append_message
  announce-state repo_id s none = (refl, refl, refl)
  announce-state repo_id s (some r) = (refl, refl, refl)

  pub prepare-IsPrepared :
      (o : TickRunOptions Amount) (s : TickState Amount)
      → IsPrepared o s (prepare u k hash_payload ask o s)
  unfolding prepare
  prepare-IsPrepared o s =
      let now = s.exec.db.clock in
      let rows = rollover_day_if_needed u s.ledger.budgets o.repo_id now in
      let (row, e, _) = ensure_budget_state-select u rows o.repo_id o.budget in
      let l : Ledger Amount = record s.ledger {
        budgets = (ensure_budget_state u rows o.repo_id o.budget).0;
      } in
      let moved = recalibrate_budget u k s.exec.db.decisions l o.repo_id o.budget now in
      let (a, b, c) = announce-state o.repo_id s.exec moved.1 in
      if_intro (IsPrepared o s) (should_recalibrate_today l.history o.repo_id now)
        (a, b, c, refl, HasRow-recalibrate_budget o l s.exec.db.decisions now (row, e))
        (refl, refl, refl, refl, (row, e))
