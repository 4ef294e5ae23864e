-- ===== src/Director/Retrospective.antt =====
-- The daily move of the budget caps (src/director/retrospective.ts) and the suggestion of another
-- mode (src/director/trust-ramp.ts). A success rate is compared with a threshold by multiplying out;
-- the two factors and the test of two caps for equality to half a cent are parameters, since they are
-- floating point.
pub mod Bounds
pub mod Ramp
pub mod Cooldown
use openronin.Common.{
  ℕ, zero, suc, ◌+◌, ◌*◌, ◌/◌, Bool, true, false, ◌&&◌, ◌||◌, not, Option, none, some, List, [],
  ◌∷◌, ◌++◌, ◌==◌, ltb, leb, if◌then◌else◌, is_some,
}
use openronin.Sql.{select, select_all, count}
use openronin.Supervisor.{Usd}
use openronin.Director.Types.{
  Mode, dry_run, propose, semi_auto, full_auto, disabled, Outcome, executed, failed, rejected,
  skipped, Verdict, climb, shrink, Role, MessageType, Body, Message,
}
use openronin.Director.Decisions.{Tables, Decision, append_message, day_ms}
use openronin.Director.Budget.{BudgetConfig, BudgetRow, of_repo, set_caps}

abbrev pub is_executed : Outcome → Bool
is_executed executed = true
is_executed _ = false

abbrev pub is_failed : Outcome → Bool
is_failed failed = true
is_failed _ = false

abbrev pub is_rejected : Outcome → Bool
is_rejected rejected = true
is_rejected _ = false

abbrev pub is_skipped : Outcome → Bool
is_skipped skipped = true
is_skipped _ = false

pub record RetroSample : Type 0 where
  pub total : ℕ
  pub executed : ℕ
  pub failed : ℕ
  pub rejected : ℕ
  pub skipped : ℕ

-- `repo_id = ? AND ts > datetime('now', '-14 days') AND outcome IN (…)`
abbrev pub is_sampled : ℕ → ℕ → Decision → Bool
is_sampled repo_id now d =
    d.repo_id == repo_id
    && (ltb now (d.ts + 14 * day_ms)
        && (is_executed d.outcome
            || (is_failed d.outcome || (is_rejected d.outcome || is_skipped d.outcome))))

unfoldable pub sample_recent_outcomes : List Decision → ℕ → ℕ → RetroSample
sample_recent_outcomes decisions repo_id now =
    let rows = select_all (is_sampled repo_id now) decisions in
    record {
      total = count (λ d. true) rows;
      executed = count (λ (d : Decision). is_executed d.outcome) rows;
      failed = count (λ (d : Decision). is_failed d.outcome) rows;
      rejected = count (λ (d : Decision). is_rejected d.outcome) rows;
      skipped = count (λ (d : Decision). is_skipped d.outcome) rows;
    }

-- the outcomes that count; the success rate is `executed` over this
abbrev pub counted : RetroSample → ℕ
counted sample = sample.executed + sample.failed + sample.rejected

-- `successRate >= n / 10` and `successRate <= n / 10`
abbrev pub rate_at_least : ℕ → RetroSample → Bool
rate_at_least n sample = leb (n * counted sample) (10 * sample.executed)

abbrev pub rate_at_most : ℕ → RetroSample → Bool
rate_at_most n sample = leb (10 * sample.executed) (n * counted sample)

-- a row of `director_budget_history`; `day` is that of its `ts`
pub record CapChange (C : Type 0) : Type 0 where
  pub repo_id : ℕ
  pub day : ℕ
  pub old_daily_cap : C
  pub new_daily_cap : C
  pub old_weekly_cap : C
  pub new_weekly_cap : C
  pub sample_size : ℕ
  pub reason : Verdict

pub record RetroResult (C : Type 0) : Type 0 where
  pub sample : RetroSample
  pub old_daily : C
  pub new_daily : C
  pub old_weekly : C
  pub new_weekly : C
  pub reason : Verdict

-- the two tables that the Director's money is in
pub record Ledger (C : Type 0) : Type 0 where
  pub budgets : List (BudgetRow C)
  pub history : List (CapChange C)

-- the floating-point parameters
pub record Factors (C : Type 0) : Type 0 where
  -- `v * 1.1`, `v * 0.8`
  pub raise : C → C
  pub lower : C → C
  -- `Math.abs(a - b) < 0.005`
  pub is_close : C → C → Bool

-- which way the caps go, where there is enough signal
unfoldable pub verdict : RetroSample → Option Verdict
verdict sample =
    if ltb (counted sample) 5
    then none
    else if rate_at_least 8 sample
    then some climb
    else if rate_at_most 4 sample
    then some shrink
    else none

-- `MAX(date(ts))` is before today, or there is no row
unfoldable pub should_recalibrate_today : {C : Type 0} → List (CapChange C) → ℕ → ℕ → Bool
should_recalibrate_today history repo_id now =
    not (is_some (select (λ h. h.repo_id == repo_id && leb (now / day_ms) h.day) history))

module _ (u : Usd) where
  open u use {Amount, leb_usd}

  -- `Math.max`, `Math.min`
  abbrev pub max_usd : Amount → Amount → Amount
  max_usd a b = if leb_usd a b then b else a

  abbrev pub min_usd : Amount → Amount → Amount
  min_usd a b = if leb_usd a b then a else b

  unfoldable pub clamp : Amount → Amount → Amount → Amount
  clamp v lo hi = max_usd lo (min_usd hi v)

  module _ (k : Factors Amount) where
    abbrev pub scaled : Verdict → Amount → Amount
    scaled climb v = k.raise v
    scaled shrink v = k.lower v

    -- the writes for the new caps
    unfoldable pub move_caps :
        Ledger Amount
        → ℕ
        → BudgetRow Amount
        → Amount
        → Amount
        → RetroSample
        → Verdict
        → ℕ
        → Ledger Amount × Option (RetroResult Amount)
    move_caps l repo_id cur new_daily new_weekly sample v now =
        if k.is_close new_daily cur.daily_cap_usd && k.is_close new_weekly cur.weekly_cap_usd
        then (l, none)
        else (
          record {
            budgets = set_caps u l.budgets repo_id new_daily new_weekly;
            history =
                l.history
                ++ record {
                  repo_id = repo_id;
                  day = now / day_ms;
                  old_daily_cap = cur.daily_cap_usd;
                  new_daily_cap = new_daily;
                  old_weekly_cap = cur.weekly_cap_usd;
                  new_weekly_cap = new_weekly;
                  sample_size = counted sample;
                  reason = v;
                }
                  ∷ [];
          },
          some (record {
            sample = sample;
            old_daily = cur.daily_cap_usd;
            new_daily = new_daily;
            old_weekly = cur.weekly_cap_usd;
            new_weekly = new_weekly;
            reason = v;
          }),
        )

    abbrev pub recalibrate_row :
        Ledger Amount
        → ℕ
        → BudgetRow Amount
        → RetroSample
        → BudgetConfig Amount
        → ℕ
        → Option Verdict
        → Ledger Amount × Option (RetroResult Amount)
    recalibrate_row l repo_id cur sample cfg now none = (l, none)
    recalibrate_row l repo_id cur sample cfg now (some v) =
        move_caps l repo_id cur
          (clamp (scaled v cur.daily_cap_usd) cfg.initial_daily_usd cfg.max_daily_usd)
          (clamp (scaled v cur.weekly_cap_usd) cfg.initial_weekly_usd cfg.max_weekly_usd) sample v
          now

    unfoldable pub recalibrate_budget :
        List Decision
        → Ledger Amount
        → ℕ
        → BudgetConfig Amount
        → ℕ
        → Ledger Amount × Option (RetroResult Amount)
    recalibrate_budget decisions l repo_id cfg now =
        let sample = sample_recent_outcomes decisions repo_id now in
        elim (select (of_repo repo_id) l.budgets) [
          | none ↦ (l, none)
          | some cur ↦ recalibrate_row l repo_id cur sample cfg now (verdict sample)
        ]

-- ── Trust ramp ──

pub data Move : Type 0 where
  hold : Move
  promote demote : (from to : Mode) (sample_size : ℕ) → Move

unfoldable pub promote_next : Mode → Option Mode
promote_next Mode.dry_run = some propose
promote_next propose = some semi_auto
promote_next semi_auto = some full_auto
promote_next full_auto = none
promote_next disabled = none

unfoldable pub demote_next : Mode → Option Mode
demote_next full_auto = some semi_auto
demote_next semi_auto = some propose
demote_next propose = some Mode.dry_run
demote_next Mode.dry_run = none
demote_next disabled = none

abbrev pub promoted : Mode → ℕ → Option Mode → Move
promoted mode n none = hold
promoted mode n (some next) = promote mode next n

abbrev pub demoted : Mode → ℕ → Option Mode → Move
demoted mode n none = hold
demoted mode n (some next) = demote mode next n

unfoldable pub evaluate_trust_ramp : List Decision → ℕ → Mode → ℕ → Move
evaluate_trust_ramp decisions repo_id mode now =
    let sample = sample_recent_outcomes decisions repo_id now in
    if counted sample == 0
    then hold
    else if rate_at_least 9 sample && leb 30 (counted sample)
    then promoted mode (counted sample) (promote_next mode)
    else if rate_at_most 4 sample && leb 10 (counted sample)
    then demoted mode (counted sample) (demote_next mode)
    else hold

abbrev pub is_trust_ramp : Body → Bool
is_trust_ramp (Body.trust_ramp _ _) = true
is_trust_ramp _ = false

unfoldable pub trust_ramp_on_cooldown : Tables → ℕ → Bool
trust_ramp_on_cooldown db repo_id = is_some (
    select
      (λ (m : Message).
        m.repo_id == repo_id && (is_trust_ramp m.body && ltb db.clock (m.ts + 7 * day_ms)))
      db.messages)

abbrev pub post_move : Tables → ℕ → Move → Tables
post_move db repo_id hold = db
post_move db repo_id (promote from to n) =
    append_message db repo_id Role.director MessageType.question (Body.trust_ramp from to) none
post_move db repo_id (demote from to n) =
    append_message db repo_id Role.director MessageType.question (Body.trust_ramp from to) none

unfoldable pub maybe_post_trust_ramp_suggestion : Tables → ℕ → Mode → Tables × Move
maybe_post_trust_ramp_suggestion db repo_id mode =
    if trust_ramp_on_cooldown db repo_id then (db, hold) else (
      post_move db repo_id (evaluate_trust_ramp db.decisions repo_id mode db.clock),
      evaluate_trust_ramp db.decisions repo_id mode db.clock,
    )
