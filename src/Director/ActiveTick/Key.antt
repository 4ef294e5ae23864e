-- ===== src/Director/ActiveTick/Key.antt =====
-- The primary key of the lock's table (src/director/active-tick.ts).
use openronin.Common.{
  ℕ, ◌≡◌, ◌≢◌, refl, sym, ◌∙◌, String, Bool, not, List, [], ◌∷◌, ◌++◌, ◌==◌, ltb, All, arith,
  Bool-cases, inl, inr, if_intro,
}
use openronin.Sql.{select_all, update, count}
use openronin.Director.ActiveTick.{ActiveTick, is_expired_of, try_acquire_tick, release_tick}
use openronin.Director.ActiveTick.Lock.{HasOneRow, started}

abbrev IsOther : ActiveTick → ActiveTick → Type 0
IsOther r x = x.repo_id ≢ r.repo_id

updated_others :
    (repo_id now : ℕ) (mine r : ActiveTick) (rows : List ActiveTick)
    → mine.repo_id ≡ repo_id
    → All (IsOther r) rows
    → All (IsOther r) (update (is_expired_of repo_id now) (λ row. mine) rows)
unfolding update
updated_others repo_id now mine r [] e h = tt
updated_others repo_id now mine r (x ∷ rows) e (n, h) = (
  elim (Bool-cases (is_expired_of repo_id now x)) [
    | inl k ↦ rw (k, IsOther) (λ same. n (ground (arith, e, k, same)))
    | inr k ↦ rw (k, IsOther) n
  ],
  updated_others repo_id now mine r rows e h,
)

same_others :
    (a b : ActiveTick) (rows : List ActiveTick)
    → a.repo_id ≡ b.repo_id
    → All (IsOther a) rows
    → All (IsOther b) rows
same_others a b [] e h = tt
same_others a b (x ∷ rows) e (n, h) = (λ k. n (k ∙ sym e), same_others a b rows e h)

update-HasOneRow :
    (repo_id now : ℕ) (mine : ActiveTick) (rows : List ActiveTick)
    → mine.repo_id ≡ repo_id
    → HasOneRow rows
    → HasOneRow (update (is_expired_of repo_id now) (λ row. mine) rows)
unfolding update
update-HasOneRow repo_id now mine [] e h = tt
update-HasOneRow repo_id now mine (r ∷ rows) e (own, h) =
    let rest = updated_others repo_id now mine r rows e own in
    let key = update-HasOneRow repo_id now mine rows e h in
    elim (Bool-cases (is_expired_of repo_id now r)) [
      | inl k ↦ rw (k) (same_others r mine _ (ground (arith, e, k)) rest, key)
      | inr k ↦ rw (k) (rest, key)
    ]

append_others :
    (r mine : ActiveTick) (rows : List ActiveTick)
    → mine.repo_id ≢ r.repo_id
    → All (IsOther r) rows
    → All (IsOther r) (rows ++ mine ∷ [])
append_others r mine [] n h = (n, tt)
append_others r mine (x ∷ rows) n (k, h) = (k, append_others r mine rows n h)

append-HasOneRow :
    (mine : ActiveTick) (rows : List ActiveTick)
    → count (λ row. row.repo_id == mine.repo_id) rows ≡ 0
    → HasOneRow rows
    → HasOneRow (rows ++ mine ∷ [])
unfolding count
append-HasOneRow mine [] c h = (tt, tt)
append-HasOneRow mine (r ∷ rows) c (own, h) = (
  append_others r mine rows (λ e. ground (arith, c, e)) own,
  append-HasOneRow mine rows (ground (arith, c)) h,
)

kept_others :
    (p : ActiveTick → Bool) (r : ActiveTick) (rows : List ActiveTick)
    → All (IsOther r) rows
    → All (IsOther r) (select_all p rows)
unfolding select_all
kept_others p r [] h = tt
kept_others p r (x ∷ rows) (n, h) =
    if_intro (All (IsOther r)) (p x) (n, kept_others p r rows h) (kept_others p r rows h)

select_all-HasOneRow :
    (p : ActiveTick → Bool) (rows : List ActiveTick)
    → HasOneRow rows
    → HasOneRow (select_all p rows)
unfolding select_all
select_all-HasOneRow p [] h = tt
select_all-HasOneRow p (r ∷ rows) (own, h) =
    if_intro HasOneRow (p r) (kept_others p r rows own, select_all-HasOneRow p rows h)
      (select_all-HasOneRow p rows h)

-- Taking the lock and releasing it keep at most one row of each repository.
pub try_acquire_tick-HasOneRow :
    (rows : List ActiveTick) (repo_id pid : ℕ) (reason : String) (ttl_s now : ℕ)
    → HasOneRow rows
    → HasOneRow (try_acquire_tick rows repo_id pid reason ttl_s now).0
      × HasOneRow (release_tick rows repo_id)
unfolding try_acquire_tick release_tick
try_acquire_tick-HasOneRow rows repo_id pid reason ttl_s now h = (
  elim (Bool-cases (ltb 0 (count (λ row. row.repo_id == repo_id) rows))) [
    | inl e ↦
        rw (e, try_acquire_tick)
          (update-HasOneRow repo_id now (started repo_id pid reason ttl_s now) rows refl h)
    | inr e ↦
        rw (e, try_acquire_tick)
          (append-HasOneRow (started repo_id pid reason ttl_s now) rows (ground arith) h)
  ],
  select_all-HasOneRow (λ row. not (row.repo_id == repo_id)) rows h,
)
