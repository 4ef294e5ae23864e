-- ===== src/Director/Service/Waiting.antt =====
-- A user's message in front of a closed gate (src/director/index.ts, src/director/tick.ts).
use openronin.Common.{
  ℕ, suc, Bool, true, false, ◌≡◌, ◌≢◌, refl, ◌∙◌, Option, none, some, List, [], ◌∷◌, ◌++◌, String,
  if_intro, arith,
}
use openronin.Sql.{select_all}
use openronin.Supervisor.{Usd}
use openronin.Director.Types.{system, MessageType, Body, Message, Payload}
use openronin.Director.Decisions.{Tables, append_message}
use openronin.Director.Budget.{GateResult, refused}
use openronin.Director.Budget.Streak.{IsHalted, IsHalted-gate}
use openronin.Director.Retrospective.{Factors, RetroResult, should_recalibrate_today}
use openronin.Director.Executor.{State}
use openronin.Director.Tick.{
  Reply, TickState, TickRunOptions, EngineId, announce, prepare, on_gate, after_prepare, run_tick,
  user_message,
}
use openronin.Director.Tick.Accounts.{run_tick-after_prepare}
use openronin.Director.Tick.Halted.{prepare-IsStopped}
use openronin.Director.Service.{
  is_director, last_director_id, unanswered_user_directives, pick_tick_reason, is_nonempty,
}

last_director_id-system :
    (xs : List Message) (m : Message) (repo_id : ℕ)
    → is_director m.role ≡ false
    → last_director_id (xs ++ m ∷ []) repo_id ≡ last_director_id xs repo_id
unfolding last_director_id
last_director_id-system [] m repo_id h = ground (arith, h)
last_director_id-system (x ∷ xs) m repo_id h = rw (last_director_id-system xs m repo_id h) refl

select_all-append_out :
    {A : Type 0} (p : A → Bool) (xs : List A) (x : A)
    → p x ≡ false
    → select_all p (xs ++ x ∷ []) ≡ select_all p xs
unfolding select_all
select_all-append_out p [] x h = rw h refl
select_all-append_out p (y ∷ xs) x h = rw (select_all-append_out p xs x h) refl

-- A message of the system answers nothing.
pub unanswered_user_directives-system :
    (db : Tables) (repo_id other : ℕ) (type : MessageType) (body : Body) (decision_id : Option ℕ)
    → unanswered_user_directives (append_message db other system type body decision_id) repo_id
      ≡ unanswered_user_directives db repo_id
unfolding unanswered_user_directives append_message
unanswered_user_directives-system db repo_id other type body decision_id =
    let m : Message = record {
      id = suc db.message_seq;
      repo_id = other;
      ts = db.clock;
      role = system;
      type = type;
      body = body;
      decision_id = decision_id;
    } in
    rw (last_director_id-system db.messages m repo_id refl)
      (select_all-append_out _ db.messages m (ground arith))

module _ (u : Usd) (k : Factors (u.Amount)) (hash_payload : Payload → Option String)
    (ask : EngineId → String → Reply (u.Amount)) where
  open u use {Amount}

  -- the same messages are unanswered
  abbrev pub IsWaiting : ℕ → State → State → Type 0
  IsWaiting repo_id s s' =
      unanswered_user_directives s'.db repo_id ≡ unanswered_user_directives s.db repo_id

  announce-IsWaiting :
      (repo_id : ℕ) (s : State) (r : Option (RetroResult Amount))
      → IsWaiting repo_id s (announce u k hash_payload ask repo_id s r)
  announce-IsWaiting repo_id s none = refl
  announce-IsWaiting repo_id s (some r) =
      unanswered_user_directives-system s.db repo_id repo_id _ _ none

  prepare-IsWaiting :
      (o : TickRunOptions Amount) (s : TickState Amount)
      → IsWaiting o.repo_id s.exec (prepare u k hash_payload ask o s).exec
  unfolding prepare
  prepare-IsWaiting o s =
      if_intro (λ (p : TickState Amount). IsWaiting o.repo_id s.exec p.exec)
        (should_recalibrate_today s.ledger.history o.repo_id s.exec.db.clock)
        (announce-IsWaiting o.repo_id s.exec _) refl

  on_gate-IsWaiting :
      (o : TickRunOptions Amount) (s : TickState Amount) (g : GateResult)
      → g ≢ GateResult.ok
      → IsWaiting o.repo_id s.exec (on_gate u k hash_payload ask o s g).0.exec
  on_gate-IsWaiting o s (refused r) n =
      unanswered_user_directives-system s.exec.db o.repo_id o.repo_id _ _ none
  on_gate-IsWaiting o s GateResult.ok n = absurd (n refl)

  -- A tick that is refused because the failure streak has reached its limit leaves the same messages
  -- of the user unanswered, and on the tables that it leaves the reason that is picked for a tick is to
  -- answer them, at whatever moment.
  pub run_tick-keeps_unanswered :
      (o : TickRunOptions Amount) (s : TickState Amount)
      → o.has_charter ≡ true
      → IsHalted o.repo_id o.budget.pause_on_failure_streak s.ledger.budgets
      → is_nonempty (unanswered_user_directives s.exec.db o.repo_id) ≡ true
      → (last_tick_at : Option ℕ) (cadence_hours later : ℕ)
      → IsWaiting o.repo_id s.exec (run_tick u k hash_payload ask o s).0.exec
        × (pick_tick_reason
              (record (run_tick u k hash_payload ask o s).0.exec.db { clock = later })
              o.repo_id
              last_tick_at
              cadence_hours
            ≡ some user_message)
  unfolding after_prepare pick_tick_reason unanswered_user_directives
  run_tick-keeps_unanswered o s c h n last_tick_at cadence_hours later =
      let p = prepare u k hash_payload ask o s in
      let stopped = prepare-IsStopped u k hash_payload ask o s h in
      let waiting : IsWaiting o.repo_id s.exec (after_prepare u k hash_payload ask o p).0.exec =
        on_gate-IsWaiting o _ _ (IsHalted-gate u o.repo_id o.budget p.ledger.budgets stopped)
        ∙ prepare-IsWaiting o s in
      rw (run_tick-after_prepare u k hash_payload ask o s c) (waiting, rw waiting rw n refl)
