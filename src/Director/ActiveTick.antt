-- ===== src/Director/ActiveTick.antt =====
-- The lock that lets one tick run for a repository (src/director/active-tick.ts). Both formats of a
-- moment here are `datetime`'s, so a moment is a number of seconds.
pub mod Lock
pub mod Key
pub mod Exclusion
use openronin.Common.{
  ℕ, ◌+◌, String, Bool, true, false, not, ◌&&◌, Option, none, some, List, [], ◌∷◌, ◌++◌, ◌==◌, ltb,
  leb, is_some, if◌then◌else◌,
}
use openronin.Sql.{select, select_all, update, count}

pub record ActiveTick : Type 0 where
  pub repo_id : ℕ
  pub started_at : ℕ
  pub holder_pid : ℕ
  pub reason : String
  pub ttl_s : ℕ

-- `datetime(started_at, '+' || ttl_s || ' seconds') > datetime('now')`
abbrev pub is_fresh : ℕ → ActiveTick → Bool
is_fresh now row = ltb now (row.started_at + row.ttl_s)

abbrev pub is_fresh_of : ℕ → ℕ → ActiveTick → Bool
is_fresh_of repo_id now row = row.repo_id == repo_id && is_fresh now row

-- the row that the UPDATE reclaims
abbrev pub is_expired_of : ℕ → ℕ → ActiveTick → Bool
is_expired_of repo_id now row = row.repo_id == repo_id && leb (row.started_at + row.ttl_s) now

unfoldable pub get_active_tick : List ActiveTick → ℕ → ℕ → Option ActiveTick
get_active_tick rows repo_id now = select (is_fresh_of repo_id now) rows

-- `repo_id` is the primary key, so INSERT OR IGNORE inserts when there is no row of it
unfoldable pub try_acquire_tick : List ActiveTick → ℕ → ℕ → String → ℕ → ℕ → List ActiveTick × Bool
try_acquire_tick rows repo_id pid reason ttl_s now =
    let mine : ActiveTick = record {
      repo_id = repo_id;
      started_at = now;
      holder_pid = pid;
      reason = reason;
      ttl_s = ttl_s;
    } in
    if ltb 0 (count (λ row. row.repo_id == repo_id) rows)
    then (
      update (is_expired_of repo_id now) (λ row. mine) rows,
      ltb 0 (count (is_expired_of repo_id now) rows),
    )
    else (rows ++ mine ∷ [], true)

unfoldable pub release_tick : List ActiveTick → ℕ → List ActiveTick
release_tick rows repo_id = select_all (λ row. not (row.repo_id == repo_id)) rows

abbrev pub default_ttl_s : ℕ
default_ttl_s = 300
