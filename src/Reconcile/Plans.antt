-- ===== src/Reconcile/Plans.antt =====
-- What `planTask` comes to (src/scheduler/reconcile.ts).
use openronin.Common.{ℕ, ◌≡◌, true, false, Option, none, some, ◌==◌, All, map}
use openronin.Sql.{select}
use openronin.Stamp.{Stamp}
use openronin.Cadence.{compute_next_due_at}
use openronin.Store.{Task, Db, TaskStatus, pending, Priority}
use openronin.Lane.{Item}
use openronin.Reconcile.{Scan, Planned, planned, threw}
use openronin.Reconcile.Wanted.{IsWanted}

-- the rows with the id are pending
abbrev pub IsQueued : ℕ → Db → Type 0
IsQueued k db = All (λ u. (u.id == k) ≡ true → u.status ≡ pending) db.tasks

-- the columns that say what is worked on, and when first
abbrev pub view : Task → ℕ × TaskStatus × Priority
view t = (t.id, t.status, t.priority)

-- What a scan of an item comes to, over the database `base` in which the item's row has the id.
abbrev pub IsPlan : Scan → Item → ℕ → ℕ → Db → Planned → Type 0
IsPlan s item now id base (planned true after) =
    (t : Task) × (select (λ u. u.id == id) base.tasks ≡ some t)
    × IsWanted s item now t
    × IsQueued t.id after
IsPlan s item now id base (planned false after) =
    (map view after.tasks ≡ map view base.tasks)
    × ((t : Task) → select (λ u. u.id == id) base.tasks ≡ some t → IsWanted s item now t → ⊥)
IsPlan s item now id base (threw after) =
    (map view after.tasks ≡ map view base.tasks)
    × (compute_next_due_at item.created_at s.cadence now ≡ none)

module _ (s : Scan) (item : Item) (now id : ℕ) (base : Db) where
  -- the row of the item
  abbrev IsRow : Task → Type 0
  IsRow t = select (λ (u : Task). u.id == id) base.tasks ≡ some t
