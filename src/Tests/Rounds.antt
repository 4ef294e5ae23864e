-- ===== src/Tests/Rounds.antt =====
-- The lanes and a round of the worker on concrete data.
use openronin.Common.{
  List, ◌≡◌, ◌⊎◌, refl, String, Bool, false, Option, none, some, [], ◌∷◌, codes, inl,
}
use openronin.Sql.{select, select_all, first_by}
use openronin.Cadence.{parse_duration_ms, scan, finish, unit_ms, to_lower, is_digit}
use openronin.Store.{Db}
use openronin.Store.Branches.{get_pr_branch_by_task}
use openronin.Queue.{QueuedTask, dequeue}
use openronin.Lane.{patch, pick_lane, pick_issue_lane, has_trigger, is_parked, Stored}
use openronin.Lane.Laws.{MayPatch, pick_lane-MayPatch}
use openronin.Worker.{WorkStatus, work, process_one, find_repo, attempt, failed, threw}
use openronin.Worker.Settles.{IsSettled, process_one-IsSettled}
use openronin.Worker.{drain, Round, World, settle, with_task}
use openronin.Queue.{mark_running}
use openronin.Worker.Drains.{StopsIdle, drain_stops}
use openronin.Common.{length, ap}
use openronin.Tests.Data.{shop, urgent_running, shop_config, an_item, limit_hit, a_world}
use openronin.Tests.Scheduler.{takes_urgent}

abbrev no_parse : String → Option Stored
no_parse _ = none

picks_patch : pick_lane no_parse (shop_config false) an_item shop 1 7 "7" ≡ some patch
unfolding pick_lane pick_issue_lane has_trigger is_parked select get_pr_branch_by_task first_by
    select_all
picks_patch = refl

pick_lane-MayPatch_example : MayPatch no_parse (shop_config false) an_item shop 1 "7"
pick_lane-MayPatch_example =
    pick_lane-MayPatch no_parse (shop_config false) an_item shop 1 7 "7" patch picks_patch
      (inl refl)

finds :
    (hidden : Bool) → find_repo (shop_config hidden ∷ []) urgent_running ≡ some (shop_config hidden)
unfolding find_repo select
finds hidden = refl

attempt_fails :
    attempt (a_world false false (failed limit_hit)) (shop_config false) urgent_running 1000 shop
    ≡ threw limit_hit shop
unfolding attempt
attempt_fails = refl

half_hour : parse_duration_ms (codes "30m") ≡ some 1_800_000
unfolding parse_duration_ms scan finish unit_ms to_lower is_digit
half_hour = refl

abbrev limited : World
limited = a_world false false (failed limit_hit)

-- one round at the moment 1000, and one a second later
abbrev two_rounds : List Round
two_rounds =
    record { world = limited; now = 1000; later = 2000 }
    ∷ record { world = limited; now = 2000; later = 3000 }
    ∷ []

drain_stops_example :
    (length (drain none two_rounds shop).1 ≡ 2)
    ⊎ StopsIdle none two_rounds (drain none two_rounds shop)
drain_stops_example = drain_stops none two_rounds shop

working_round : process_one limited shop none 1000 2000 ≡ (
  (work limited urgent_running 2000 (mark_running 2 shop)).0,
  some (record { task_id = 2; status = WorkStatus.error; lane = none }),
)
unfolding process_one work find_repo select attempt settle
working_round = ap (with_task limited 2000) takes_urgent

process_one-IsSettled_example :
    (taken : QueuedTask) × (db' : Db) × (dequeue shop 1000 none ≡ (db', some taken))
    × (2 ≡ taken.task.id)
    × IsSettled taken.task.id (work limited urgent_running 2000 (mark_running 2 shop)).0
process_one-IsSettled_example = process_one-IsSettled limited shop none 1000 2000 working_round
