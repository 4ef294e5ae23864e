-- ===== src/Director/Tick/Attended.antt =====
-- A tick in a mode that asks a person first (src/director/tick.ts, src/director/executor.ts).
use openronin.Common.{
  ℕ, not, ◌≡◌, ◌≢◌, refl, ◌∙◌, inl, inr, Option, List, [], ◌∷◌, String, if_intro,
}
use openronin.Supervisor.{Usd}
use openronin.Director.Types.{Mode, semi_auto, full_auto, Payload, merge_pr}
use openronin.Director.Decisions.{append_message}
use openronin.Director.Executor.{State, Context, execute_decision}
use openronin.Director.Executor.Gates.{Unattended, execute_decision-calls}
use openronin.Director.Budget.{GateResult, refused}
use openronin.Director.Retrospective.{Factors}
use openronin.Director.Dedup.{Recorded}
use openronin.Director.Tick.{
  Reply, threw, replied, invalid, valid, TickState, TickRunOptions, TickRunResult, EngineId,
  Selection, unavailable, selected, Tally, execute_all, carry_out, on_reply, on_engine, on_gate,
  after_prepare, run_tick,
}
use openronin.Director.Tick.Prepared.{prepare-IsPrepared}

-- a mode in which nothing is done to the repository with nobody asked
abbrev pub IsAttended : Mode → Type 0
IsAttended mode = (mode ≢ semi_auto) × (mode ≢ full_auto)

not-Unattended : (d : Payload) (mode : Mode) → IsAttended mode → Unattended d mode → ⊥
not-Unattended (merge_pr _ _) mode (_, no_full) acts = no_full acts
not-Unattended _ mode (no_semi, no_full) acts = elim acts [ inl e ↦ no_semi e | inr e ↦ no_full e ]

module _ (u : Usd) (k : Factors (u.Amount)) (hash_payload : Payload → Option String)
    (ask : EngineId → String → Reply (u.Amount)) where
  open u use {Amount}

  execute_decision-quiet :
      (c : Context) (id repo_id : ℕ) (d : Payload) (s : State)
      → IsAttended c.mode
      → (execute_decision c id repo_id d s).0.log ≡ s.log
  execute_decision-quiet c id repo_id d s a = elim (execute_decision-calls c id repo_id d s) [
    | inl same ↦ same
    | inr (_, acts) ↦ absurd (not-Unattended d c.mode a acts)
  ]

  execute_all-quiet :
      (c : Context) (repo_id : ℕ) (rs : List Recorded) (s : State) (t : Tally)
      → IsAttended c.mode
      → (execute_all c repo_id rs s t).0.log ≡ s.log
  unfolding execute_all
  execute_all-quiet c repo_id [] s t a = refl
  execute_all-quiet c repo_id (r ∷ rs) s t a =
      execute_all-quiet c repo_id rs _ _ a ∙ execute_decision-quiet c r.id repo_id r.payload s a

  -- the provider's log is as before
  abbrev IsQuiet : TickState Amount → TickState Amount × TickRunResult Amount → Type 0
  IsQuiet s r = (r.0).exec.log ≡ s.exec.log

  on_reply-IsQuiet :
      (o : TickRunOptions Amount) (s : TickState Amount) (r : Reply Amount)
      → IsAttended o.mode
      → IsQuiet s (on_reply u k hash_payload ask o s r)
  unfolding carry_out append_message
  on_reply-IsQuiet o s (threw e) a = refl
  on_reply-IsQuiet o s (replied cost (invalid e)) a = refl
  on_reply-IsQuiet o s (replied cost (valid ds)) a = execute_all-quiet _ o.repo_id _ _ _ a

  on_engine-IsQuiet :
      (o : TickRunOptions Amount) (s : TickState Amount) (e : Selection)
      → IsAttended o.mode
      → IsQuiet s (on_engine u k hash_payload ask o s e)
  unfolding append_message
  on_engine-IsQuiet o s (unavailable e) a = refl
  on_engine-IsQuiet o s (selected engine model) a = on_reply-IsQuiet o _ (ask engine model) a

  on_gate-IsQuiet :
      (o : TickRunOptions Amount) (s : TickState Amount) (g : GateResult)
      → IsAttended o.mode
      → IsQuiet s (on_gate u k hash_payload ask o s g)
  unfolding append_message
  on_gate-IsQuiet o s (refused r) a = refl
  on_gate-IsQuiet o s GateResult.ok a = on_engine-IsQuiet o s _ a

  -- In every mode but semi_auto and full_auto a whole tick makes no call of the provider, whatever
  -- the engine answers and whatever authority the operator gave.
  pub run_tick-calls_nothing :
      (o : TickRunOptions Amount) (s : TickState Amount)
      → o.mode ≢ semi_auto
      → o.mode ≢ full_auto
      → (run_tick u k hash_payload ask o s).0.exec.log ≡ s.exec.log
  unfolding run_tick after_prepare
  run_tick-calls_nothing o s not_semi not_full =
      if_intro (IsQuiet s) (not o.has_charter) refl (
        on_gate-IsQuiet o _ _ (not_semi, not_full)
        ∙ (prepare-IsPrepared u k hash_payload ask o s).0)
