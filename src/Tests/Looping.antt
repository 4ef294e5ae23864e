-- ===== src/Tests/Looping.antt =====
-- The scheduler's loops on a concrete path.
use openronin.Common.{◌≡◌, refl, true, false, [], ◌∷◌, List, ◌++◌}
use openronin.Sql.{select, select_all, update}
use openronin.Scheduler.{
  WatchedRepo, Drain, Loops, Steps, drain, finish, show, stay, then, booted, tick_drain,
  finish_drain, worker_statuses, begin_stop, begin_all, ensure_worker, ensure_all, any_worker_busy,
}
use openronin.Scheduler.Sound.{AllApart}
use openronin.Scheduler.Exclusive.{Steps-exclusive}
use openronin.Scheduler.Stopping.{
  IsWindingDown, Steps-winds_down, any_worker_busy-idle, worker_statuses-hides_drains,
}

abbrev shop : WatchedRepo
shop = record { repo_key = "github:acme/shop"; repo_id = 1 }

abbrev mill : WatchedRepo
mill = record { repo_key = "github:acme/mill"; repo_id = 2 }

abbrev both : List WatchedRepo
both = shop ∷ mill ∷ []

-- two ticks of the drain loop and a look at the statuses
abbrev drained : Loops
drained = worker_statuses (tick_drain (tick_drain booted (shop ∷ [])) both) both

abbrev two_ticks : Steps booted drained
two_ticks =
    then _ _ _
      (then _ _ _ (then _ _ _ (stay booted) (drain booted (shop ∷ [])))
        (drain (tick_drain booted (shop ∷ [])) both))
      (show (tick_drain (tick_drain booted (shop ∷ [])) both) both)

Steps-exclusive_example : AllApart drained.draining
unfolding tick_drain begin_all ensure_worker worker_statuses ensure_all select select_all update
Steps-exclusive_example = Steps-exclusive two_ticks (((tt, tt), tt), (refl, (refl, tt)))

-- a drain after the scheduler was stopped
abbrev late : Steps (begin_stop drained) (tick_drain (begin_stop drained) both)
late = then _ _ _ (stay (begin_stop drained)) (drain (begin_stop drained) both)

stopped : (begin_stop drained).stopped ≡ true
unfolding begin_stop
stopped = refl

Steps-winds_down_example : IsWindingDown (begin_stop drained) (tick_drain (begin_stop drained) both)
Steps-winds_down_example = Steps-winds_down late stopped

abbrev the_drain : Drain
the_drain = record { worker = 1; repo_key = "github:acme/shop" }

abbrev begun : Loops
begun = tick_drain booted (shop ∷ [])

in_flight : begun.draining ≡ [] ++ the_drain ∷ []
unfolding tick_drain begin_all ensure_worker select update
in_flight = refl

abbrev over : Steps booted (finish_drain begun [] the_drain [])
over =
    then _ _ _ (then _ _ _ (stay booted) (drain booted (shop ∷ [])))
      (finish begun [] the_drain [] in_flight)

nothing_busy : any_worker_busy (finish_drain begun [] the_drain []) ≡ false
unfolding any_worker_busy finish_drain tick_drain begin_all ensure_worker select update select_all
nothing_busy = refl

any_worker_busy-idle_example : (finish_drain begun [] the_drain []).draining ≡ []
any_worker_busy-idle_example = any_worker_busy-idle over ((tt, tt), tt) nothing_busy

no_reconcile : begun.reconcile_busy ≡ false
unfolding tick_drain begin_all ensure_worker select
no_reconcile = refl

no_activity : begun.activities ≡ []
unfolding tick_drain begin_all ensure_worker select
no_activity = refl

worker_statuses-hides_drains_example :
    ((worker_statuses begun []).draining ≡ begun.draining)
    × (any_worker_busy (worker_statuses begun []) ≡ false)
worker_statuses-hides_drains_example = worker_statuses-hides_drains begun no_reconcile no_activity
