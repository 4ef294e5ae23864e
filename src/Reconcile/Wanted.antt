-- ===== src/Reconcile/Wanted.antt =====
-- When an item's row is wanted in the queue (src/scheduler/reconcile.ts).
use openronin.Common.{
  ℕ, ◌≡◌, ◌≢◌, ◌≤◌, ◌↔◌, eq_iff, String, ◌⊎◌, inl, inr, refl, ap, true, false, Option, none, some,
  arith, Bool-cases,
}
use mathlib.Core.Option.{some_inj}
use openronin.Stamp.{Stamp, parse_date}
use openronin.Cadence.{is_due}
use openronin.Store.{Task, pending, running, is_running}
use openronin.Lane.{Item}
use openronin.Reconcile.{Scan, is_waiting, is_new, is_hash, is_later}

-- No hash was stored by an earlier run, or the empty one.
abbrev pub IsUnseen : Option String → Type 0
IsUnseen hash = (hash ≡ none) ⊎ (hash ≡ some "")

-- There is no due date, or it is not after `now`.
abbrev pub IsReached : (ℕ → ℕ) → ℕ → Option Stamp → Type 0
IsReached local now none = Unit
IsReached local now (some due) = parse_date local due ≤ now

pub is_new_iff : (hash : Option String) → (is_new hash ≡ true) ↔ IsUnseen hash
is_new_iff none = (λ _. inl refl, λ _. refl)
is_new_iff (some h) = (
  λ e. inr (ap some ((eq_iff h "").0 e)),
  λ u. elim u [ inl e ↦ ground (arith, e) | inr e ↦ (eq_iff h "").1 (some_inj.0 e) ],
)

pub is_hash_iff : (hash : String) (o : Option String) → (is_hash hash o ≡ true) ↔ (o ≡ some hash)
is_hash_iff hash none = (λ e. ground (arith, e), λ e. ground (arith, e))
is_hash_iff hash (some h) =
    (λ e. ap some ((eq_iff h hash).0 e), λ e. (eq_iff h hash).1 (some_inj.0 e))

pub is_due_iff :
    (local : ℕ → ℕ) (now : ℕ) (o : Option Stamp)
    → (is_due local o now ≡ true) ↔ IsReached local now o
unfolding is_due
is_due_iff local now none = (λ _. tt, λ _. refl)
is_due_iff local now (some due) = (λ e. ground (arith, e), λ e. ground (arith, e))

pub is_later_iff :
    (local : ℕ → ℕ) (now : ℕ) (o : Option Stamp)
    → (is_later local now o ≡ false) ↔ IsReached local now o
is_later_iff local now none = (λ _. tt, λ _. refl)
is_later_iff local now (some due) = (λ e. ground (arith, e), λ e. ground (arith, e))

-- why a row is put into the queue
abbrev pub IsWanted : Scan → Item → ℕ → Task → Type 0
IsWanted s item now t =
    (t.status ≢ running)
    × ((IsUnseen t.snapshot_hash × ((t.status ≡ pending) → IsReached s.local now t.next_due_at))
        ⊎ (IsReached s.local now t.next_due_at × (t.snapshot_hash ≢ some (s.snapshot item))))

module _ (s : Scan) (item : Item) (now : ℕ) (t : Task) where
  pub waiting-unwanted : is_waiting s.local now t ≡ true → IsWanted s item now t → ⊥
  waiting-unwanted w (idle, inl (unseen, reached)) = elim (Bool-cases (is_running t.status)) [
    | inl r ↦ idle (ground (arith, r))
    | inr r ↦
        let late : is_later s.local now t.next_due_at ≡ true = ground (arith, w, r) in
        let is_pend : t.status ≡ pending = ground (arith, w, r) in
        ground (arith, late, (is_later_iff s.local now t.next_due_at).1 (reached is_pend))
  ]
  waiting-unwanted w (idle, inr (reached, changed)) = elim (Bool-cases (is_running t.status)) [
    | inl r ↦ idle (ground (arith, r))
    | inr r ↦
        let late : is_later s.local now t.next_due_at ≡ true = ground (arith, w, r) in
        ground (arith, late, (is_later_iff s.local now t.next_due_at).1 reached)
  ]

  pub idle-IsReached :
      is_waiting s.local now t ≡ false → t.status ≡ pending → IsReached s.local now t.next_due_at
  idle-IsReached w e = (is_later_iff s.local now t.next_due_at).0 (ground (arith, w, e))

  pub seen-unwanted :
      is_new t.snapshot_hash ≡ false
      → (IsReached s.local now t.next_due_at → (t.snapshot_hash ≢ some (s.snapshot item)) → ⊥)
      → IsWanted s item now t
      → ⊥
  seen-unwanted n f (idle, inl (unseen, reached)) =
      ground (arith, n, (is_new_iff t.snapshot_hash).1 unseen)
  seen-unwanted n f (idle, inr (reached, changed)) = f reached changed
