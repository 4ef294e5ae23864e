-- ===== src/Director/Tick/Accounts.antt =====
-- What a tick leaves in the repository's budget row, by its status (src/director/tick.ts).
use openronin.Common.{
  ℕ, suc, true, not, ◌≡◌, refl, sym, ap, ◌⊎◌, inl, inr, Option, none, some, List, String, subst,
  if_false, Text,
}
use openronin.Sql.{select}
use openronin.Sql.Laws.{select-update_same}
use openronin.Supervisor.{Usd}
use openronin.Director.Types.{Payload}
use openronin.Director.Decisions.{append_message}
use openronin.Director.Budget.{
  BudgetRow, GateResult, refused, of_repo, ensure_budget_state, record_think_spend,
  bump_failure_streak, reset_failure_streak, mark_tick,
}
use openronin.Director.Retrospective.{Factors}
use openronin.Director.Dedup.{Proposed}
use openronin.Director.Tick.{
  Reply, threw, replied, Output, invalid, valid, TickState, TickRunOptions, TickStatus, skipped,
  paused, error, TickRunResult, EngineId, select_think_engine, prefer_cheap, Selection, unavailable,
  selected, prepare, carry_out, on_reply, on_engine, on_gate, after_prepare, run_tick,
}
use openronin.Director.Tick.Prepared.{prepare-IsPrepared}

module _ (u : Usd) (k : Factors (u.Amount)) (hash_payload : Payload → Option String)
    (ask : EngineId → String → Reply (u.Amount)) where
  open u use {Amount, zero_usd, add}

  -- The row of the repository is `row` with another planning cost, streak and last tick.
  abbrev pub HasAccount :
      ℕ → BudgetRow Amount → Amount → ℕ → Option ℕ → List (BudgetRow Amount) → Type 0
  HasAccount repo_id row spent streak last rows =
      select (of_repo repo_id) rows
      ≡ some (record row {
        spent_today_think_usd = spent;
        failure_streak = streak;
        last_tick_at = last;
      })

  -- what a reply without a cost is charged
  abbrev pub IsCharged : Option Amount → Amount → Type 0
  IsCharged none cost = cost ≡ zero_usd
  IsCharged (some c) cost = cost ≡ c

  -- The engine that is chosen for the reason answers with this output, at this cost.
  abbrev pub HasAnswered : TickRunOptions Amount → Output → Amount → Type 0
  HasAnswered o out cost =
      (engine : EngineId) × (model : String) × (reported : Option Amount) × (select_think_engine
          o.env (prefer_cheap o.reason)
        ≡ selected engine model)
      × (ask engine model ≡ replied reported out)
      × IsCharged reported cost

  -- No engine is there for the reason, or the one that is chosen throws.
  abbrev pub HasNoAnswer : TickRunOptions Amount → Type 0
  HasNoAnswer o =
      ((e : Text) × (select_think_engine o.env (prefer_cheap o.reason) ≡ unavailable e))
      ⊎ ((engine : EngineId) × (model : String) × (e : Text) × (select_think_engine o.env
              (prefer_cheap o.reason)
            ≡ selected engine model)
          × (ask engine model ≡ threw e))

  -- By the status: a tick is never skipped; a paused one neither calls the engine and the provider nor
  -- records a decision, and leaves the budgets; a failed one does not call the provider or record a
  -- decision, adds one to the streak, is marked, and is charged the cost of an invalid answer; a tick
  -- that succeeds calls the engine once, clears the streak, is marked and charged the answer's cost.
  abbrev IsAccountedBy :
      TickRunOptions Amount
      → BudgetRow Amount
      → TickState Amount
      → TickState Amount
      → Amount
      → TickStatus
      → Type 0
  IsAccountedBy o row p s' cost skipped = ⊥
  IsAccountedBy o row p s' cost paused =
      (s'.exec.log ≡ p.exec.log)
      × (s'.exec.db.decisions ≡ p.exec.db.decisions)
      × (s'.engine_calls ≡ p.engine_calls)
      × (s'.ledger ≡ p.ledger)
  IsAccountedBy o row p s' cost error =
      (s'.exec.log ≡ p.exec.log)
      × (s'.exec.db.decisions ≡ p.exec.db.decisions)
      × ((HasNoAnswer o
            × (cost ≡ zero_usd)
            × HasAccount o.repo_id row row.spent_today_think_usd (suc row.failure_streak)
                (some p.exec.db.clock) s'.ledger.budgets)
          ⊎ (((e : Text) × HasAnswered o (invalid e) cost)
              × (s'.engine_calls ≡ suc p.engine_calls)
              × HasAccount o.repo_id row (add row.spent_today_think_usd cost)
                  (suc row.failure_streak) (some p.exec.db.clock) s'.ledger.budgets))
  IsAccountedBy o row p s' cost TickStatus.ok =
      ((ds : List Proposed) × HasAnswered o (valid ds) cost)
      × (s'.engine_calls ≡ suc p.engine_calls)
      × HasAccount o.repo_id row (add row.spent_today_think_usd cost) 0 (some p.exec.db.clock)
          s'.ledger.budgets

  abbrev pub IsAccounted :
      TickRunOptions Amount
      → BudgetRow Amount
      → TickState Amount
      → TickState Amount × TickRunResult Amount
      → Type 0
  IsAccounted o row p r = IsAccountedBy o row p r.0 (r.1).cost_usd (r.1).status

  marked-bumped :
      (repo_id now : ℕ) (row : BudgetRow Amount) (rows : List (BudgetRow Amount))
      → select (of_repo repo_id) rows ≡ some row
      → HasAccount repo_id row row.spent_today_think_usd
          (suc row.failure_streak)
          (some now)
          (bump_failure_streak u (mark_tick u rows repo_id now) repo_id)
  unfolding mark_tick bump_failure_streak
  marked-bumped repo_id now row rows e =
      select-update_same (of_repo repo_id) _ _ (λ _. refl)
        (select-update_same (of_repo repo_id) _ rows (λ _. refl) e)

  marked-reset :
      (repo_id now : ℕ) (row : BudgetRow Amount) (rows : List (BudgetRow Amount))
      → select (of_repo repo_id) rows ≡ some row
      → HasAccount repo_id row row.spent_today_think_usd 0
          (some now)
          (reset_failure_streak u (mark_tick u rows repo_id now) repo_id)
  unfolding mark_tick reset_failure_streak
  marked-reset repo_id now row rows e =
      select-update_same (of_repo repo_id) _ _ (λ _. refl)
        (select-update_same (of_repo repo_id) _ rows (λ _. refl) e)

  charged :
      (repo_id : ℕ) (row : BudgetRow Amount) (rows : List (BudgetRow Amount)) (cost : Amount)
      → select (of_repo repo_id) rows ≡ some row
      → select (of_repo repo_id) (record_think_spend u rows repo_id cost)
        ≡ some (record row { spent_today_think_usd = add row.spent_today_think_usd cost })
  unfolding record_think_spend
  charged repo_id row rows cost e = select-update_same (of_repo repo_id) _ rows (λ _. refl) e

  on_output-IsAccounted :
      (o : TickRunOptions Amount) (row : BudgetRow Amount) (p : TickState Amount) (cost : Amount)
      (out : Output)
      → HasAnswered o out cost
      → select (of_repo o.repo_id) p.ledger.budgets ≡ some row
      → IsAccounted o row p (
          on_reply u k hash_payload ask o
            (record p { engine_calls = suc p.engine_calls })
            (replied (some cost) out))
  unfolding carry_out append_message
  on_output-IsAccounted o row p cost (invalid e) a h = (
    refl,
    refl,
    inr ((e, a), refl, marked-bumped o.repo_id _ _ _ (charged o.repo_id row _ cost h)),
  )
  on_output-IsAccounted o row p cost (valid ds) a h =
      ((ds, a), refl, marked-reset o.repo_id _ _ _ (charged o.repo_id row _ cost h))

  on_reply-IsAccounted :
      (o : TickRunOptions Amount) (row : BudgetRow Amount) (p : TickState Amount)
      (engine : EngineId) (model : String) (r : Reply Amount)
      → select_think_engine o.env (prefer_cheap o.reason) ≡ selected engine model
      → ask engine model ≡ r
      → select (of_repo o.repo_id) p.ledger.budgets ≡ some row
      → IsAccounted o row p
          (on_reply u k hash_payload ask o (record p { engine_calls = suc p.engine_calls }) r)
  unfolding append_message
  on_reply-IsAccounted o row p engine model (threw e) c a h =
      (refl, refl, inl (inr (engine, model, e, c, a), refl, marked-bumped o.repo_id _ row _ h))
  on_reply-IsAccounted o row p engine model (replied none out) c a h =
      on_output-IsAccounted o row p zero_usd out (engine, model, none, c, a, refl) h
  on_reply-IsAccounted o row p engine model (replied (some x) out) c a h =
      on_output-IsAccounted o row p x out (engine, model, some x, c, a, refl) h

  on_engine-IsAccounted :
      (o : TickRunOptions Amount) (row : BudgetRow Amount) (p : TickState Amount) (e : Selection)
      → select_think_engine o.env (prefer_cheap o.reason) ≡ e
      → select (of_repo o.repo_id) p.ledger.budgets ≡ some row
      → IsAccounted o row p (on_engine u k hash_payload ask o p e)
  unfolding append_message
  on_engine-IsAccounted o row p (unavailable e) c h =
      (refl, refl, inl (inl (e, c), refl, marked-bumped o.repo_id _ row _ h))
  on_engine-IsAccounted o row p (selected engine model) c h =
      on_reply-IsAccounted o row p engine model (ask engine model) c refl h

  on_gate-IsAccounted :
      (o : TickRunOptions Amount) (row : BudgetRow Amount) (p : TickState Amount) (g : GateResult)
      → select (of_repo o.repo_id) p.ledger.budgets ≡ some row
      → IsAccounted o row p (on_gate u k hash_payload ask o p g)
  unfolding append_message
  on_gate-IsAccounted o row p (refused r) h = (refl, refl, refl, refl)
  on_gate-IsAccounted o row p GateResult.ok h = on_engine-IsAccounted o row p _ refl h

  after_prepare-IsAccounted :
      (o : TickRunOptions Amount) (row : BudgetRow Amount) (p : TickState Amount)
      → select (of_repo o.repo_id) p.ledger.budgets ≡ some row
      → IsAccounted o row p (after_prepare u k hash_payload ask o p)
  unfolding after_prepare ensure_budget_state
  after_prepare-IsAccounted o row p h =
      rw (h, after_prepare, ensure_budget_state) (on_gate-IsAccounted o row p _ h)

  -- With a charter, a tick goes past its first test.
  pub run_tick-after_prepare :
      (o : TickRunOptions Amount) (s : TickState Amount)
      → o.has_charter ≡ true
      → run_tick u k hash_payload ask o s
        ≡ after_prepare u k hash_payload ask o (prepare u k hash_payload ask o s)
  unfolding run_tick
  run_tick-after_prepare o s c = if_false (not o.has_charter) _ _ (ap not c)

  -- A tick of a repository with a charter starts from the row that its preparation leaves, and by its
  -- status: a paused tick neither calls the engine and the provider nor records a decision, and
  -- changes no budget; a failed one does not call the provider or record a decision, adds one to the
  -- failure streak and is marked, and either there was no answer of the engine chosen for the reason,
  -- and it costs nothing, or the answer was invalid and its cost is added to the planning cost; a tick
  -- that succeeds called the engine once, for an answer that was valid and whose cost is added, clears
  -- the streak and is marked. An answer that reports no cost costs nothing. None is skipped.
  pub run_tick-IsAccounted :
      (o : TickRunOptions Amount) (s : TickState Amount)
      → o.has_charter ≡ true
      → (row : BudgetRow Amount) × (select
            (of_repo o.repo_id)
            (prepare u k hash_payload ask o s).ledger.budgets
          ≡ some row)
        × IsAccounted o row (prepare u k hash_payload ask o s) (run_tick u k hash_payload ask o s)
  run_tick-IsAccounted o s c =
      let p = prepare u k hash_payload ask o s in
      let (row, e) = (prepare-IsPrepared u k hash_payload ask o s).4 in
      (
        row,
        e,
        subst (IsAccounted o row p) (sym (run_tick-after_prepare o s c))
            (after_prepare-IsAccounted o row p e),
      )
