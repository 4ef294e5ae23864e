-- ===== src/Worker/Drains.antt =====
-- The loop of `drain` and `drainRepo` (src/scheduler/worker.ts).
use openronin.Common.{
  ℕ, suc, ◌≡◌, ◌⊎◌, inl, inr, refl, ap, Option, none, some, List, [], ◌∷◌, ◌++◌, length,
  Option-cases,
}
use openronin.Sql.{first_by}
use openronin.Store.{Db}
use openronin.Queue.{dequeue, candidates, queue_leb, mark_running, as_running}
use openronin.Queue.Dispatch.{dequeue-none_iff}
use openronin.Worker.{World, WorkResult, Round, work, process_one, drain}

-- A round finds nothing and changes nothing, or it reports on a task.
process_one-cases :
    (w : World) (db : Db) (repo_id : Option ℕ) (now later : ℕ)
    → ((candidates db now repo_id ≡ []) × (process_one w db repo_id now later ≡ (db, none)))
      ⊎ ((after : Db) × (r : WorkResult) × (process_one w db repo_id now later ≡ (after, some r)))
unfolding process_one dequeue
process_one-cases w db repo_id now later =
    elim (Option-cases (first_by queue_leb (candidates db now repo_id))) [
      | inl e ↦ inl (
        (dequeue-none_iff db now repo_id).0 (rw (e, dequeue) refl),
        rw (e, process_one, dequeue) refl,
      )
      | inr (row, e) ↦
          let after = work w (as_running row) later (mark_running row.task.id db) in
          inr (after.0, after.1, rw (e, process_one, dequeue) refl)
    ]

-- The rounds up to one that found nothing due at its own moment, each of which reported on a task.
abbrev pub StopsIdle : Option ℕ → List Round → Db × List WorkResult → Type 0
StopsIdle repo_id rounds r =
    (before : List Round) × (q : Round) × (unused : List Round) × (rounds ≡ before ++ q ∷ unused)
    × (length r.1 ≡ length before)
    × (candidates r.0 q.now repo_id ≡ [])

-- A drain works a task in every round that it is given, or it works one in each of the rounds before
-- one at whose moment no task is due any more, and stops there.
pub drain_stops :
    (repo_id : Option ℕ) (rounds : List Round) (db : Db)
    → (length (drain repo_id rounds db).1 ≡ length rounds)
      ⊎ StopsIdle repo_id rounds (drain repo_id rounds db)
unfolding drain
drain_stops repo_id [] db = inl refl
drain_stops repo_id (r ∷ rs) db = elim (process_one-cases r.world db repo_id r.now r.later) [
  | inl (idle, e) ↦ rw (e, drain) (inr ([], r, rs, refl, refl, idle))
  | inr (after, x, e) ↦ rw (e, drain) (later_rounds after x (drain_stops repo_id rs after))
]
  where
    later_rounds :
        (after : Db) (x : WorkResult)
        → (length (drain repo_id rs after).1 ≡ length rs)
          ⊎ StopsIdle repo_id rs (drain repo_id rs after)
        → (length (x ∷ (drain repo_id rs after).1) ≡ suc (length rs))
          ⊎ StopsIdle repo_id (r ∷ rs) ((drain repo_id rs after).0, x ∷ (drain repo_id rs after).1)
    later_rounds after x (inl e) = inl (ap suc e)
    later_rounds after x (inr (before, q, unused, e, l, idle)) =
        inr (r ∷ before, q, unused, ap (λ l. r ∷ l) e, ap suc l, idle)
