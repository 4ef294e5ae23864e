-- ===== src/Queue/Claims.antt =====
-- Which task a worker may take, and which of two it takes first (src/scheduler/queue.ts).
use openronin.Common.{
  ℕ, ◌≤◌, ◌≡◌, ◌⊎◌, ◌↔◌, Bool, refl, true, false, Option, none, some, Memᴰ, arith, inl, inr, leb,
  ◌&&◌,
}
use openronin.Sql.{then_by}
use openronin.Stamp.{Stamp, to_iso, stamp_leb}
use openronin.Store.{Db, Task, Repo, Priority, high, normal, low, pending, is_pending, TaskStatus}
use openronin.Queue.{
  QueuedTask, rank, is_candidate, due_by, in_scope, due_leb, null_first, by_priority, by_null,
  by_due, by_id, queue_leb,
}

-- There is no due date, or it is at `now` or before.
abbrev pub IsDueBy : Stamp → Option Stamp → Type 0
IsDueBy now none = Unit
IsDueBy now (some due) = stamp_leb due now ≡ true

-- The task is of the repository that is asked for, if one is.
abbrev pub IsAsked : Option ℕ → Task → Type 0
IsAsked none t = Unit
IsAsked (some repo_id) t = t.repo_id ≡ repo_id

abbrev pub MayTake : ℕ → Option ℕ → Task → Type 0
MayTake now repo_id t =
    (t.status ≡ pending) × IsDueBy (to_iso now) t.next_due_at × IsAsked repo_id t

-- The repository of the task is stored.
abbrev pub HasRepo : Db → Task → Type 0
HasRepo db t = (r : Repo) × Memᴰ r db.repos × (r.id ≡ t.repo_id)

abbrev pub IsAbove : Priority → Priority → Type 0
IsAbove high normal = Unit
IsAbove high low = Unit
IsAbove normal low = Unit
IsAbove _ _ = ⊥

-- The missing date is before every date, an earlier date before a later one; then the ids decide.
abbrev pub IsDueFirst : Option Stamp → Option Stamp → ℕ → ℕ → Type 0
IsDueFirst none none i j = i ≤ j
IsDueFirst none (some b) i j = Unit
IsDueFirst (some a) none i j = ⊥
IsDueFirst (some a) (some b) i j =
    (stamp_leb b a ≡ false) ⊎ ((stamp_leb a b ≡ true) × (stamp_leb b a ≡ true) × (i ≤ j))

abbrev pub Precedes : Task → Task → Type 0
Precedes a b =
    IsAbove a.priority b.priority
    ⊎ ((a.priority ≡ b.priority) × IsDueFirst a.next_due_at b.next_due_at a.id b.id)

&&_left : (a b : Bool) → a && b ≡ true → a ≡ true
&&_left true b h = refl
&&_left false b h = h

&&_right : (a b : Bool) → a && b ≡ true → b ≡ true
&&_right true b h = h
&&_right false b h = ground (arith, h)

due_by_iff : (now : Stamp) (due : Option Stamp) → (due_by now due ≡ true) ↔ IsDueBy now due
due_by_iff now none = (λ _. tt, λ _. refl)
due_by_iff now (some due) = (λ h. h, λ h. h)

in_scope_iff : (repo_id : Option ℕ) (t : Task) → (in_scope repo_id t ≡ true) ↔ IsAsked repo_id t
in_scope_iff none t = (λ _. tt, λ _. refl)
in_scope_iff (some r) t = (λ h. ground (arith, h), λ h. ground (arith, h))

is_pending_iff : (s : TaskStatus) → (is_pending s ≡ true) ↔ (s ≡ pending)
is_pending_iff s = (λ h. ground (arith, h), λ h. ground (arith, h))

pub is_candidate_iff :
    (now : ℕ) (repo_id : Option ℕ) (t : Task)
    → (is_candidate now repo_id t ≡ true) ↔ MayTake now repo_id t
is_candidate_iff now repo_id t =
    let (p, p') = is_pending_iff t.status in
    let (d, d') = due_by_iff (to_iso now) t.next_due_at in
    let (a, a') = in_scope_iff repo_id t in
    (
      λ h. (
        p (&&_left (is_pending t.status) _ h),
        d (&&_left (due_by (to_iso now) t.next_due_at) _ (&&_right (is_pending t.status) _ h)),
        a (&&_right (due_by (to_iso now) t.next_due_at) _ (&&_right (is_pending t.status) _ h)),
      ),
      λ h. rw (p' h.0, d' h.1) (a' h.2),
    )

then_by-split :
    {A : Type 0} (p q : A → A → Bool) (a b : A)
    → then_by p q a b ≡ true
    → (p a b ≡ true) × ((p b a ≡ false) ⊎ ((p b a ≡ true) × (q a b ≡ true)))
unfolding then_by
then_by-split p q a b h = ground (arith, h)

above :
    (p q : Priority) {R : Type 0}
    → leb (rank p) (rank q) ≡ true
    → (leb (rank q) (rank p) ≡ false) ⊎ R
    → IsAbove p q ⊎ ((p ≡ q) × R)
above high high h (inl e) = ground (arith, e)
above high high h (inr r) = inr (refl, r)
above high normal h k = inl tt
above high low h k = inl tt
above normal high h k = ground (arith, h)
above normal normal h (inl e) = ground (arith, e)
above normal normal h (inr r) = inr (refl, r)
above normal low h k = inl tt
above low high h k = ground (arith, h)
above low normal h k = ground (arith, h)
above low low h (inl e) = ground (arith, e)
above low low h (inr r) = inr (refl, r)

due_first :
    (a b : Option Stamp) (i j : ℕ)
    → leb (null_first a) (null_first b) ≡ true
    → (leb (null_first b) (null_first a) ≡ false)
      ⊎ ((due_leb a b ≡ true) × ((due_leb b a ≡ false) ⊎ ((due_leb b a ≡ true) × (leb i j ≡ true))))
    → IsDueFirst a b i j
unfolding due_leb
due_first none none i j h k = ground (arith, k)
due_first none (some b) i j h k = tt
due_first (some a) none i j h k = ground (arith, h)
due_first (some a) (some b) i j h k = ground (arith, k)

pub queue_leb-Precedes : (a b : QueuedTask) → queue_leb a b ≡ true → Precedes a.task b.task
unfolding queue_leb by_priority by_null by_due by_id
queue_leb-Precedes a b h =
    let (p, rest) = then_by-split by_priority _ a b h in
    above a.task.priority b.task.priority p (elim rest [
      | inl e ↦ inl e
      | inr (e, next) ↦
          let (n, after) = then_by-split by_null _ a b next in
          inr (
            due_first a.task.next_due_at b.task.next_due_at a.task.id b.task.id n (elim after [
              | inl e' ↦ inl e'
              | inr (e', last) ↦ inr (then_by-split by_due by_id a b last)
            ]))
    ])
