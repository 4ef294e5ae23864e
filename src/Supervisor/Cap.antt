-- ===== src/Supervisor/Cap.antt =====
-- Which runs `checkDailyCostCap` counts (src/supervisor/index.ts, src/storage/runs.ts).
use openronin.Common.{
  ℕ, ◌+◌, ◌-◌, ◌/◌, ◌≤◌, ◌≡◌, refl, Bool, false, List, [], ◌∷◌, All, arith, ltb, Bool-cases, inl,
  inr,
}
use openronin.Sql.{select_all, count}
use openronin.Sql.Laws.{All-imp}
use openronin.Stamp.{Stamp, sql, to_iso, sql_datetime, stamp_leb}
use openronin.Store.Runs.{Run, sum_costs, get_cost_usd_since}
use openronin.Supervisor.{Usd, day_ms, over_daily_cap}

-- The rows of `runs` have the text that `datetime('now')` gives `started_at`.
abbrev pub HasSqlStart : {C : Type 0} → Run C → Type 0
HasSqlStart r = r.started_at.format ≡ sql

select_all_congr {ℓ} :
    {A : Type ℓ} (p q : A → Bool) (xs : List A)
    → All (λ x. p x ≡ q x) xs
    → select_all p xs ≡ select_all q xs
unfolding select_all
select_all_congr p q [] h = refl
select_all_congr p q (x ∷ xs) (e, h) = rw (e, select_all_congr p q xs h) refl

count_congr {ℓ} :
    {A : Type ℓ} (p q : A → Bool) (xs : List A) → All (λ x. p x ≡ q x) xs → count p xs ≡ count q xs
unfolding count
count_congr p q [] h = refl
count_congr p q (x ∷ xs) (e, h) = rw (e, count_congr p q xs h) refl

-- A text of SQLite is at or after a text of JavaScript exactly when its day is later.
stamp_leb-iso_sql :
    (since : ℕ) (s : Stamp)
    → s.format ≡ sql
    → stamp_leb (to_iso since) s ≡ ltb (since / day_ms) s.day
unfolding stamp_leb to_iso
stamp_leb-iso_sql since s h = ground arith

-- Where the start of every run is a text of SQLite's format, the runs from which the cost since a
-- moment is summed are those that started on a later UTC day than that moment's: the runs of the
-- moment's own day are left out, whatever their time of day.
pub get_cost_usd_since-later_days :
    {C : Type 0} (zero_usd : C) (add : C → C → C) (runs : List (Run C)) (since : ℕ)
    → All HasSqlStart runs
    → get_cost_usd_since zero_usd add runs (to_iso since) ≡ (
      sum_costs zero_usd add (select_all (λ r. ltb (since / day_ms) r.started_at.day) runs),
      count (λ (r : Run C). ltb (since / day_ms) r.started_at.day) runs,
    )
unfolding get_cost_usd_since
get_cost_usd_since-later_days zero_usd add runs since h =
    let same = All-imp HasSqlStart _ runs (λ r e. stamp_leb-iso_sql since r.started_at e) h in
    λ i. (sum_costs zero_usd add (select_all_congr _ _ runs same i), count_congr _ _ runs same i)

select_all_nothing {ℓ} :
    {A : Type ℓ} (p : A → Bool) (xs : List A) → All (λ x. p x ≡ false) xs → select_all p xs ≡ []
unfolding select_all
select_all_nothing p [] h = refl
select_all_nothing p (x ∷ xs) (e, h) = rw e (select_all_nothing p xs h)

-- A run of the last 24 hours that started on the UTC day on which they began.
pub record StartedOnFirstDay {C : Type 0} (now : ℕ) (r : Run C) : Type 0 where
  pub at : ℕ
  pub recorded : r.started_at ≡ sql_datetime at
  pub within : now ≤ at + day_ms
  pub first_day : at / day_ms ≡ (now - day_ms) / day_ms

not_counted :
    {C : Type 0} (now : ℕ) (r : Run C)
    → StartedOnFirstDay now r
    → stamp_leb (to_iso (now - day_ms)) r.started_at ≡ false
unfolding stamp_leb to_iso sql_datetime
not_counted now r h = rw h.recorded (ground (arith, h.first_day))

-- Where every run started within the last 24 hours and on the UTC day on which they began, the
-- daily cap is not exceeded, whatever the runs cost.
pub over_daily_cap-misses_first_day :
    (u : Usd) (cap : u.Amount) (runs : List (Run u.Amount)) (now : ℕ)
    → All (StartedOnFirstDay now) runs
    → over_daily_cap u cap runs now ≡ false
unfolding over_daily_cap get_cost_usd_since sum_costs
over_daily_cap-misses_first_day u cap runs now h =
    let none_counted =
      select_all_nothing (λ (r : Run u.Amount). stamp_leb (to_iso (now - day_ms)) r.started_at) runs
        (All-imp _ _ runs (not_counted now) h) in
    elim (Bool-cases (u.leb_usd cap u.zero_usd)) [
      | inl e ↦ rw e refl
      | inr e ↦ rw (e, none_counted) e
    ]
