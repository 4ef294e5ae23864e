-- ===== src/Tests/Locks.antt =====
-- The tick lock on concrete data.
use openronin.Common.{◌≤◌, ◌≡◌, refl, true, false, none, List, [], ◌∷◌, length, arith}
use openronin.Sql.{update, count}
use openronin.Director.ActiveTick.{ActiveTick, get_active_tick, try_acquire_tick, release_tick}
use openronin.Director.ActiveTick.Lock.{HasOneRow, started, release_tick_frees}
use openronin.Director.ActiveTick.Exclusion.{Office, enter, refuse, Steps, stay, then, Steps-alone}

-- a crashed tick of repository 1 and a running one of repository 2
abbrev rows : List ActiveTick
rows = started 1 10 "scheduled" 300 0 ∷ started 2 11 "scheduled" 300 900 ∷ []

keyed : HasOneRow rows
keyed = (((λ e. ground (arith, e)), tt), (tt, tt))

reclaims : (try_acquire_tick rows 1 12 "manual" 300 1000).1 ≡ true
unfolding try_acquire_tick count
reclaims = refl

release_tick_frees_example :
    (get_active_tick (release_tick rows 2) 2 1000 ≡ none)
    × ((try_acquire_tick (release_tick rows 2) 2 12 "manual" 300 1000).1 ≡ true)
release_tick_frees_example = release_tick_frees rows 2 12 "manual" 300 1000

abbrev reclaimed : List ActiveTick
reclaimed = started 1 12 "manual" 300 1000 ∷ started 2 11 "scheduled" 300 900 ∷ []

abbrev one_inside : Office
one_inside = record {
  rows = reclaimed;
  running = record { pid = 12; expires_at = 1300 } ∷ [];
  now = 1000;
}

takes : try_acquire_tick rows 1 12 "manual" 300 1000 ≡ (reclaimed, true)
unfolding try_acquire_tick count update
takes = refl

refuses : try_acquire_tick reclaimed 1 13 "manual" 300 1000 ≡ (reclaimed, false)
unfolding try_acquire_tick count update
refuses = refl

abbrev two_ask : Steps 1 (record { rows = rows; running = []; now = 1000 }) one_inside
two_ask =
    then _ _ _ (then _ _ _ (stay _) (enter _ 12 "manual" 300 reclaimed takes))
      (refuse one_inside 13 "manual" 300 reclaimed refuses)

Steps-alone_example : length one_inside.running ≤ 1
Steps-alone_example = Steps-alone 1 rows 1000 one_inside keyed two_ask ((tt, omega arith), tt)
