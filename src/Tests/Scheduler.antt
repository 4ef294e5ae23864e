-- ===== src/Tests/Scheduler.antt =====
-- The queue, the cadence, the lanes and the sweep on concrete data.
use openronin.Common.{◌≡◌, ◌≢◌, ◌↔◌, refl, none, some, codes, All, arith}
use openronin.Sql.{select, select_all, update, first_by, then_by}
use openronin.Cadence.{parse_duration_ms, scan, finish, unit_ms, to_lower, is_digit}
use openronin.Cadence.Duration.{IsDuration, parse_duration_ms_iff}
use openronin.Queue.{
  dequeue, candidates, join_repos, queue_leb, by_priority, by_null, by_due, by_id, due_leb,
  mark_running, requeue_paused,
}
use openronin.Queue.Dispatch.{Dequeued, dequeue-Dequeued, dequeue_once}
use openronin.Queue.Delays.{HasUniqueIds, requeue_paused-dequeue}
use openronin.Reconcile.{Scan}
use openronin.Tests.Data.{shop, urgent_running, every_hour}

ninety_minutes : parse_duration_ms (codes "90m") ≡ some 5_400_000
unfolding parse_duration_ms scan finish unit_ms to_lower is_digit
ninety_minutes = refl

parse_duration_ms_iff_example :
    (parse_duration_ms (codes "90m") ≡ some 5_400_000) ↔ IsDuration (codes "90m") 5_400_000
parse_duration_ms_iff_example = parse_duration_ms_iff (codes "90m") 5_400_000

pub takes_urgent : dequeue shop 1000 none ≡ (mark_running 2 shop, some urgent_running)
unfolding dequeue candidates join_repos queue_leb by_priority by_null by_due by_id due_leb select
    select_all update first_by then_by
takes_urgent = refl

dequeue-Dequeued_example : Dequeued shop 1000 none (mark_running 2 shop) urgent_running
dequeue-Dequeued_example = dequeue-Dequeued shop 1000 none takes_urgent

dequeue_once_example : All (λ row. row.task.id ≢ 2) (candidates (mark_running 2 shop) 5000 (some 1))
dequeue_once_example = dequeue_once shop 1000 5000 none (some 1) takes_urgent

pub unique_ids : HasUniqueIds shop.tasks
unique_ids = (
  ((λ e. ground (arith, e)), ((λ e. ground (arith, e)), tt)),
  (((λ e. ground (arith, e)), tt), (tt, tt)),
)

requeue_paused-dequeue_example : requeue_paused (mark_running 2 shop) 2 ≡ shop
requeue_paused-dequeue_example = requeue_paused-dequeue shop 1000 none unique_ids takes_urgent

abbrev a_scan : Scan
a_scan = record {
  snapshot = λ _. "h";
  id_text = λ _. "7";
  local = λ ms. ms;
  cadence = every_hour;
  patch_trigger_label = "ronin";
}
