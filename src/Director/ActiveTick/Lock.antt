-- ===== src/Director/ActiveTick/Lock.antt =====
-- Lemmas on taking and releasing the lock (src/director/active-tick.ts).
use openronin.Common.{
  ℕ, ◌+◌, ◌<◌, ◌≡◌, ◌≢◌, ◌↔◌, inl, inr, refl, String, Bool, true, false, not, none, some, List, [],
  ◌∷◌, ◌++◌, ◌==◌, ltb, All, arith, Bool-cases,
}
use openronin.Sql.{select, select_all, update, count}
use openronin.Director.ActiveTick.{
  ActiveTick, is_fresh_of, is_expired_of, get_active_tick, try_acquire_tick, release_tick,
}

-- At most one row of a repository: `repo_id` is the primary key.
abbrev pub HasOneRow : List ActiveTick → Type 0
HasOneRow [] = Unit
HasOneRow (row ∷ rows) = All (λ (r : ActiveTick). r.repo_id ≢ row.repo_id) rows × HasOneRow rows

-- Where no row is of the repository, none is expired and none is fresh.
none_expired :
    (repo_id now : ℕ) (rows : List ActiveTick)
    → count (λ row. row.repo_id == repo_id) rows ≡ 0
    → count (is_expired_of repo_id now) rows ≡ 0
unfolding count
none_expired repo_id now [] h = refl
none_expired repo_id now (r ∷ rows) h = ground (arith, none_expired repo_id now rows)

none_fresh :
    (repo_id now : ℕ) (rows : List ActiveTick)
    → count (λ row. row.repo_id == repo_id) rows ≡ 0
    → select (is_fresh_of repo_id now) rows ≡ none
unfolding count select
none_fresh repo_id now [] h = refl
none_fresh repo_id now (r ∷ rows) h = ground (arith, none_fresh repo_id now rows)

others :
    (repo_id : ℕ) (r : ActiveTick) (rows : List ActiveTick)
    → All (λ (x : ActiveTick). x.repo_id ≢ r.repo_id) rows
    → r.repo_id ≡ repo_id
    → count (λ row. row.repo_id == repo_id) rows ≡ 0
unfolding count
others repo_id r [] h e = refl
others repo_id r (x ∷ rows) (n, h) e = ground (arith, others repo_id r rows h e)

-- Where ids are a key, a row of the repository is expired exactly when none is fresh.
expired_or_fresh :
    (repo_id now : ℕ) (rows : List ActiveTick)
    → HasOneRow rows
    → ltb 0 (count (λ row. row.repo_id == repo_id) rows) ≡ true
    → (ltb 0 (count (is_expired_of repo_id now) rows) ≡ true)
      ↔ (select (is_fresh_of repo_id now) rows ≡ none)
unfolding count select
expired_or_fresh repo_id now [] key h = ground arith
expired_or_fresh repo_id now (r ∷ rows) (own, key) h = elim (Bool-cases (r.repo_id == repo_id)) [
  | inl e ↦
      let alone = others repo_id r rows own (ground arith) in
      ground (arith, none_expired repo_id now rows alone, none_fresh repo_id now rows alone)
  | inr e ↦ ground (arith, expired_or_fresh repo_id now rows key)
]

-- Where each repository has at most one row, a tick takes the lock exactly when no unexpired row
-- of its repository is there.
pub try_acquire_tick_iff :
    (rows : List ActiveTick) (repo_id pid : ℕ) (reason : String) (ttl_s now : ℕ)
    → HasOneRow rows
    → ((try_acquire_tick rows repo_id pid reason ttl_s now).1 ≡ true)
      ↔ (get_active_tick rows repo_id now ≡ none)
unfolding try_acquire_tick get_active_tick
try_acquire_tick_iff rows repo_id pid reason ttl_s now key =
    elim (Bool-cases (ltb 0 (count (λ row. row.repo_id == repo_id) rows))) [
      | inl e ↦ ground (arith, expired_or_fresh repo_id now rows key e)
      | inr e ↦ ground (arith, none_fresh repo_id now rows)
    ]

update_nothing :
    (p : ActiveTick → Bool) (mine : ActiveTick) (rows : List ActiveTick)
    → count p rows ≡ 0
    → update p (λ row. mine) rows ≡ rows
unfolding count update
update_nothing p mine [] h = refl
update_nothing p mine (r ∷ rows) h = elim (Bool-cases (p r)) [
  | inl e ↦ ground (arith, e, h)
  | inr e ↦ rw (e, update_nothing p mine rows (ground (arith, e, h))) refl
]

-- A tick that does not get the lock leaves it as it is.
pub try_acquire_tick_refused :
    (rows : List ActiveTick) (repo_id pid : ℕ) (reason : String) (ttl_s now : ℕ)
    → (try_acquire_tick rows repo_id pid reason ttl_s now).1 ≡ false
    → (try_acquire_tick rows repo_id pid reason ttl_s now).0 ≡ rows
unfolding try_acquire_tick
try_acquire_tick_refused rows repo_id pid reason ttl_s now h =
    elim (Bool-cases (ltb 0 (count (λ row. row.repo_id == repo_id) rows))) [
      | inl e ↦
          rw (e, try_acquire_tick)
            (update_nothing (is_expired_of repo_id now) _ rows (ground (arith, e, h)))
      | inr e ↦ ground (arith, e, h)
    ]

-- the row of a tick that starts
abbrev pub started : ℕ → ℕ → String → ℕ → ℕ → ActiveTick
started repo_id pid reason ttl_s now = record {
  repo_id = repo_id;
  started_at = now;
  holder_pid = pid;
  reason = reason;
  ttl_s = ttl_s;
}

module _ (repo_id pid : ℕ) (reason : String) (ttl_s now later : ℕ)
    (live : later < now + ttl_s) where
  inserted_fresh :
      (rows : List ActiveTick)
      → count (λ row. row.repo_id == repo_id) rows ≡ 0
      → select (is_fresh_of repo_id later) (rows ++ started repo_id pid reason ttl_s now ∷ [])
        ≡ some (started repo_id pid reason ttl_s now)
  unfolding count select
  inserted_fresh [] h = ground (arith, live)
  inserted_fresh (r ∷ rows) h = ground (arith, inserted_fresh rows)

  reclaimed_fresh :
      (rows : List ActiveTick)
      → HasOneRow rows
      → ltb 0 (count (is_expired_of repo_id now) rows) ≡ true
      → select
          (is_fresh_of repo_id later)
          (update (is_expired_of repo_id now) (λ row. started repo_id pid reason ttl_s now) rows)
        ≡ some (started repo_id pid reason ttl_s now)
  unfolding count select update
  reclaimed_fresh [] key h = ground arith
  reclaimed_fresh (r ∷ rows) (own, key) h = elim (Bool-cases (r.repo_id == repo_id)) [
    | inl e ↦
        ground
          (arith, live, none_expired repo_id now rows (others repo_id r rows own (ground arith)))
    | inr e ↦ ground (arith, reclaimed_fresh rows key)
  ]

  -- Where each repository has at most one row, a tick that took the lock is the active one at every
  -- moment before its time to live is over.
  pub try_acquire_tick_held :
      (rows : List ActiveTick)
      → HasOneRow rows
      → (try_acquire_tick rows repo_id pid reason ttl_s now).1 ≡ true
      → get_active_tick (try_acquire_tick rows repo_id pid reason ttl_s now).0 repo_id later
        ≡ some (started repo_id pid reason ttl_s now)
  unfolding try_acquire_tick get_active_tick
  try_acquire_tick_held rows key h =
      elim (Bool-cases (ltb 0 (count (λ row. row.repo_id == repo_id) rows))) [
        | inl e ↦ rw (e, try_acquire_tick) (reclaimed_fresh rows key (ground (arith, e, h)))
        | inr e ↦ rw (e, try_acquire_tick) (inserted_fresh rows (ground arith))
      ]

pub released_count :
    (repo_id : ℕ) (rows : List ActiveTick)
    → count (λ row. row.repo_id == repo_id) (select_all (λ row. not (row.repo_id == repo_id)) rows)
      ≡ 0
unfolding count select_all
released_count repo_id [] = refl
released_count repo_id (r ∷ rows) = ground (arith, released_count repo_id rows)

-- Releasing frees the repository whoever holds the lock: the next tick that asks gets it at once,
-- also when the lock that was released belonged to another tick.
pub release_tick_frees :
    (rows : List ActiveTick) (repo_id pid : ℕ) (reason : String) (ttl_s now : ℕ)
    → (get_active_tick (release_tick rows repo_id) repo_id now ≡ none)
      × ((try_acquire_tick (release_tick rows repo_id) repo_id pid reason ttl_s now).1 ≡ true)
unfolding release_tick try_acquire_tick get_active_tick
release_tick_frees rows repo_id pid reason ttl_s now = (
  none_fresh repo_id now (select_all (λ row. not (row.repo_id == repo_id)) rows)
      (released_count repo_id rows),
  rw (released_count repo_id rows) refl,
)
