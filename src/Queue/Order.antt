-- ===== src/Queue/Order.antt =====
-- The ORDER BY of `dequeue` as an order (src/scheduler/queue.ts).
use openronin.Common.{◌≡◌, refl, true, false, Option, none, some, arith}
use openronin.Sql.Order.{IsOrder, then_by-IsOrder}
use openronin.Stamp.{Stamp}
use openronin.Stamp.Laws.{stamp_leb-IsOrder}
use openronin.Queue.{due_leb, by_priority, by_null, by_due, by_id, queue_leb}

by_priority-IsOrder : IsOrder by_priority
unfolding by_priority
by_priority-IsOrder = record { total = λ a b h. ground arith; trans = λ a b c h k. ground arith }

by_null-IsOrder : IsOrder by_null
unfolding by_null
by_null-IsOrder = record { total = λ a b h. ground arith; trans = λ a b c h k. ground arith }

by_id-IsOrder : IsOrder by_id
unfolding by_id
by_id-IsOrder = record { total = λ a b h. ground arith; trans = λ a b c h k. ground arith }

due_total : (a b : Option Stamp) → due_leb a b ≡ false → due_leb b a ≡ true
unfolding due_leb
due_total none b h = cc
due_total (some a) none h = refl
due_total (some a) (some b) h = stamp_leb-IsOrder.total a b h

due_trans : (a b c : Option Stamp) → due_leb a b ≡ true → due_leb b c ≡ true → due_leb a c ≡ true
unfolding due_leb
due_trans none b c h k = refl
due_trans (some a) none c h k = cc
due_trans (some a) (some b) none h k = cc
due_trans (some a) (some b) (some c) h k = stamp_leb-IsOrder.trans a b c h k

due_leb-IsOrder : IsOrder due_leb
due_leb-IsOrder = record { total = due_total; trans = due_trans }

by_due-IsOrder : IsOrder by_due
unfolding by_due
by_due-IsOrder = record {
  total = λ a b h. due_leb-IsOrder.total a.task.next_due_at b.task.next_due_at h;
  trans = λ a b c h k.
      due_leb-IsOrder.trans a.task.next_due_at b.task.next_due_at c.task.next_due_at h k;
}

pub queue_leb-IsOrder : IsOrder queue_leb
unfolding queue_leb
queue_leb-IsOrder =
    then_by-IsOrder by_priority-IsOrder
      (then_by-IsOrder by_null-IsOrder (then_by-IsOrder by_due-IsOrder by_id-IsOrder))
