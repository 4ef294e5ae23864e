-- ===== src/Director/Retrospective/Bounds.antt =====
-- Where a recalibration can put the caps (src/director/retrospective.ts).
use openronin.Common.{
  ℕ, true, false, ◌≡◌, refl, ◌⊎◌, inl, inr, Option, none, some, List, arith, ◌&&◌, Bool-cases,
  Option-cases, if_intro,
}
use openronin.Sql.{select}
use openronin.Sql.Laws.{select-update_same}
use openronin.Supervisor.{Usd}
use openronin.Director.Types.{Verdict}
use openronin.Director.Decisions.{Decision}
use openronin.Director.Budget.{BudgetConfig, BudgetRow, of_repo, set_caps}
use openronin.Director.Retrospective.{
  RetroSample, RetroResult, Ledger, Factors, min_usd, clamp, scaled, move_caps, recalibrate_row,
  recalibrate_budget, sample_recent_outcomes,
}

module _ (u : Usd) where
  open u use {Amount, leb_usd}

  abbrev pub IsTotal : Type 0
  IsTotal = (a b : Amount) → (leb_usd a b ≡ true) ⊎ (leb_usd b a ≡ true)

  total_refl : IsTotal → (a : Amount) → leb_usd a a ≡ true
  total_refl t a = elim (t a a) [ inl h ↦ h | inr h ↦ h ]

  total-false : IsTotal → (a b : Amount) → leb_usd a b ≡ false → leb_usd b a ≡ true
  total-false t a b h = elim (t a b) [ inl e ↦ ground arith | inr e ↦ e ]

  min_usd_le : IsTotal → (a b : Amount) → leb_usd (min_usd u a b) a ≡ true
  min_usd_le t a b = elim (Bool-cases (leb_usd a b)) [
    | inl e ↦ rw e (total_refl t a)
    | inr e ↦ rw e (total-false t a b e)
  ]

  -- Where `<=` is total and the floor is not above the ceiling, a clamped amount is between them.
  pub clamp-bounds :
      (v lo hi : Amount)
      → IsTotal
      → leb_usd lo hi ≡ true
      → (leb_usd lo (clamp u v lo hi) ≡ true) × (leb_usd (clamp u v lo hi) hi ≡ true)
  unfolding clamp
  clamp-bounds v lo hi t h = elim (Bool-cases (leb_usd lo (min_usd u hi v))) [
    | inl e ↦ rw e (e, min_usd_le t hi v)
    | inr e ↦ rw e (total_refl t lo, h)
  ]

  -- the caps of the result are within the configured ones
  abbrev pub IsWithin : BudgetConfig Amount → Amount → Amount → Type 0
  IsWithin cfg daily weekly =
      (leb_usd cfg.initial_daily_usd daily ≡ true)
      × (leb_usd daily cfg.max_daily_usd ≡ true)
      × (leb_usd cfg.initial_weekly_usd weekly ≡ true)
      × (leb_usd weekly cfg.max_weekly_usd ≡ true)

  -- Nothing is returned and nothing is written, or the repository's row has the caps returned, which
  -- are within the configured ones.
  abbrev pub IsRecalibrated :
      Ledger Amount → ℕ → BudgetConfig Amount → Ledger Amount × Option (RetroResult Amount) → Type 0
  IsRecalibrated l repo_id cfg (l', none) = l' ≡ l
  IsRecalibrated l repo_id cfg (l', some r) =
      IsWithin cfg r.new_daily r.new_weekly
      × ((row : BudgetRow Amount) × (select (of_repo repo_id) l'.budgets ≡ some row)
          × (row.daily_cap_usd ≡ r.new_daily)
          × (row.weekly_cap_usd ≡ r.new_weekly))

  module _ (k : Factors Amount) where
    move_caps-IsRecalibrated :
        (l : Ledger Amount) (repo_id : ℕ) (cur : BudgetRow Amount) (cfg : BudgetConfig Amount)
        (daily weekly : Amount) (sample : RetroSample) (v : Verdict) (now : ℕ)
        → select (of_repo repo_id) l.budgets ≡ some cur
        → IsWithin cfg daily weekly
        → IsRecalibrated l repo_id cfg (move_caps u k l repo_id cur daily weekly sample v now)
    unfolding move_caps set_caps
    move_caps-IsRecalibrated l repo_id cur cfg daily weekly sample v now e h =
        if_intro (IsRecalibrated l repo_id cfg)
          (k.is_close daily cur.daily_cap_usd && k.is_close weekly cur.weekly_cap_usd) refl
          (
            h,
            (
              record cur { daily_cap_usd = daily; weekly_cap_usd = weekly },
              select-update_same (of_repo repo_id) _ l.budgets (λ _. refl) e,
              refl,
              refl,
            ),
          )

    within :
        (cur : BudgetRow Amount) (cfg : BudgetConfig Amount) (v : Verdict)
        → IsTotal
        → leb_usd cfg.initial_daily_usd cfg.max_daily_usd ≡ true
        → leb_usd cfg.initial_weekly_usd cfg.max_weekly_usd ≡ true
        → IsWithin cfg
            (clamp u (scaled u k v cur.daily_cap_usd) cfg.initial_daily_usd cfg.max_daily_usd)
            (clamp u (scaled u k v cur.weekly_cap_usd) cfg.initial_weekly_usd cfg.max_weekly_usd)
    within cur cfg v t d w =
        let (d1, d2) = clamp-bounds (scaled u k v cur.daily_cap_usd) _ _ t d in
        let (w1, w2) = clamp-bounds (scaled u k v cur.weekly_cap_usd) _ _ t w in (d1, d2, w1, w2)

    recalibrate_row-IsRecalibrated :
        (l : Ledger Amount) (repo_id : ℕ) (cur : BudgetRow Amount) (sample : RetroSample)
        (cfg : BudgetConfig Amount) (now : ℕ) (v : Option Verdict)
        → IsTotal
        → leb_usd cfg.initial_daily_usd cfg.max_daily_usd ≡ true
        → leb_usd cfg.initial_weekly_usd cfg.max_weekly_usd ≡ true
        → select (of_repo repo_id) l.budgets ≡ some cur
        → IsRecalibrated l repo_id cfg (recalibrate_row u k l repo_id cur sample cfg now v)
    recalibrate_row-IsRecalibrated l repo_id cur sample cfg now none t d w e = refl
    recalibrate_row-IsRecalibrated l repo_id cur sample cfg now (some v) t d w e =
        move_caps-IsRecalibrated l repo_id cur cfg _ _ sample v now e (within cur cfg v t d w)

    -- Where `<=` is total and the initial caps are not above the maximal ones, a recalibration either
    -- returns nothing and changes nothing, or leaves the repository's row with the caps that it
    -- returns, and these are between the initial and the maximal ones.
    pub recalibrate_budget-IsRecalibrated :
        (decisions : List Decision) (l : Ledger Amount) (repo_id : ℕ) (cfg : BudgetConfig Amount)
        (now : ℕ)
        → IsTotal
        → leb_usd cfg.initial_daily_usd cfg.max_daily_usd ≡ true
        → leb_usd cfg.initial_weekly_usd cfg.max_weekly_usd ≡ true
        → IsRecalibrated l repo_id cfg (recalibrate_budget u k decisions l repo_id cfg now)
    unfolding recalibrate_budget
    recalibrate_budget-IsRecalibrated decisions l repo_id cfg now t d w =
        elim (Option-cases (select (of_repo repo_id) l.budgets)) [
          | inl e ↦ rw (e, recalibrate_budget) refl
          | inr (cur, e) ↦
              rw (e, recalibrate_budget)
                (recalibrate_row-IsRecalibrated l repo_id cur
                  (sample_recent_outcomes decisions repo_id now) cfg now _ t d w e)
        ]
