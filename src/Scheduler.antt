-- ===== src/Scheduler.antt =====
-- The scheduler's loops in one process (`startScheduler` of src/scheduler/index.ts): a worker per
-- repository with its busy flag, the drains that are in flight, the reconciliation, and the
-- activities that a shutdown waits for. A worker is an object, so a drain in flight holds on to the
-- worker it was started with, by `uid`, also when the map has dropped it. What a drain does is
-- Worker.drain_repo; `ensureRepo` has given `repo_id`.
pub mod Sound
pub mod Begins
pub mod Exclusive
pub mod Stopping
use openronin.Common.{
  ℕ, suc, String, Bool, true, false, not, ◌&&◌, ◌||◌, Option, none, some, List, [], ◌∷◌, ◌++◌, ◌==◌,
  str_eq, if◌then◌else◌, ◌≡◌,
}
use openronin.Sql.{select, select_all, update}

-- a repository that the configuration watches and does not hide
pub record WatchedRepo : Type 0 where
  pub repo_key : String
  pub repo_id : ℕ

pub record InternalWorker : Type 0 where
  pub uid : ℕ
  pub repo_key : String
  pub repo_id : ℕ
  pub busy : Bool

-- a call of `drainRepo` that has not settled
pub record Drain : Type 0 where
  pub worker : ℕ
  pub repo_key : String

pub record Loops : Type 0 where
  pub workers : List InternalWorker
  pub worker_seq : ℕ
  pub draining : List Drain
  pub reconcile_busy : Bool
  pub stopped : Bool
  pub activities : List ℕ
  pub activity_counter : ℕ

abbrev pub has_key : String → InternalWorker → Bool
has_key key w = str_eq w.repo_key key

abbrev pub is_worker : ℕ → InternalWorker → Bool
is_worker uid w = w.uid == uid

abbrev pub new_worker : ℕ → WatchedRepo → InternalWorker
new_worker uid repo = record {
  uid = uid;
  repo_key = repo.repo_key;
  repo_id = repo.repo_id;
  busy = false;
}

abbrev pub ensured : Loops → WatchedRepo → Option InternalWorker → Loops × InternalWorker
ensured s repo (some w) = (s, w)
ensured s repo none = (
  record s {
    workers = s.workers ++ new_worker (suc s.worker_seq) repo ∷ [];
    worker_seq = suc s.worker_seq;
  },
  new_worker (suc s.worker_seq) repo,
)

unfoldable pub ensure_worker : Loops → WatchedRepo → Loops × InternalWorker
ensure_worker s repo = ensured s repo (select (has_key repo.repo_key) s.workers)

abbrev pub set_busy : Bool → InternalWorker → InternalWorker
set_busy busy w = record w { busy = busy }

-- one turn of the loop of `tickDrain`, up to where the drain waits for its first answer
abbrev pub begin : Loops × InternalWorker → Loops
begin (s, w) = if w.busy then s else record s {
  workers = update (is_worker w.uid) (set_busy true) s.workers;
  draining = record { worker = w.uid; repo_key = w.repo_key } ∷ s.draining;
}

unfoldable pub begin_all : Loops → List WatchedRepo → Loops
begin_all s [] = s
begin_all s (repo ∷ repos) = begin_all (begin (ensure_worker s repo)) repos

unfoldable pub tick_drain : Loops → List WatchedRepo → Loops
tick_drain s watched = if s.stopped then s else begin_all s watched

-- the `finally` of a drain, whose place among those in flight is given
unfoldable pub finish_drain : Loops → List Drain → Drain → List Drain → Loops
finish_drain s before d after = record s {
  workers = update (is_worker d.worker) (set_busy false) s.workers;
  draining = before ++ after;
}

unfoldable pub ensure_all : Loops → List WatchedRepo → Loops
ensure_all s [] = s
ensure_all s (repo ∷ repos) = ensure_all (ensure_worker s repo).0 repos

abbrev pub has_repo : List WatchedRepo → String → Bool
has_repo [] key = false
has_repo (r ∷ rs) key = str_eq r.repo_key key || has_repo rs key

-- `workerStatuses`, as far as it changes the map
unfoldable pub worker_statuses : Loops → List WatchedRepo → Loops
worker_statuses s watched =
    let t = ensure_all s watched in
    record t {
      workers = select_all (λ (w : InternalWorker). has_repo watched w.repo_key) t.workers;
    }

unfoldable pub begin_reconcile : Loops → Loops
begin_reconcile s = if s.reconcile_busy || s.stopped then s else record s { reconcile_busy = true }

unfoldable pub end_reconcile : Loops → Loops
end_reconcile s = record s { reconcile_busy = false }

unfoldable pub track_activity : Loops → Loops × ℕ
track_activity s = (
  record s {
    activities = s.activities ++ suc s.activity_counter ∷ [];
    activity_counter = suc s.activity_counter;
  },
  suc s.activity_counter,
)

unfoldable pub end_activity : Loops → ℕ → Loops
end_activity s id = record s { activities = select_all (λ a. not (a == id)) s.activities }

abbrev pub is_nonempty : {A : Type 0} → List A → Bool
is_nonempty [] = false
is_nonempty (x ∷ xs) = true

unfoldable pub any_worker_busy : Loops → Bool
any_worker_busy s =
    is_nonempty (select_all (λ (w : InternalWorker). w.busy) s.workers)
    || (s.reconcile_busy || is_nonempty s.activities)

-- the first statement of `stop`; it then waits until `any_worker_busy` is false or its time is over
unfoldable pub begin_stop : Loops → Loops
begin_stop s = record s { stopped = true }

-- What may happen next in the process.
pub data Step : Loops → Loops → Type 0 where
  drain : (s : Loops) (watched : List WatchedRepo) → Step s (tick_drain s watched)
  finish :
      (s : Loops) (before : List Drain) (d : Drain) (after : List Drain)
      → s.draining ≡ before ++ d ∷ after
      → Step s (finish_drain s before d after)
  show : (s : Loops) (watched : List WatchedRepo) → Step s (worker_statuses s watched)
  reconcile : (s : Loops) → Step s (begin_reconcile s)
  reconciled : (s : Loops) → Step s (end_reconcile s)
  track : (s : Loops) → Step s (track_activity s).0
  untrack : (s : Loops) (id : ℕ) → Step s (end_activity s id)
  stop : (s : Loops) → Step s (begin_stop s)

pub data Steps : Loops → Loops → Type 0 where
  stay : (s : Loops) → Steps s s
  then : (s s' s'' : Loops) → Steps s s' → Step s' s'' → Steps s s''

-- the scheduler as it starts
abbrev pub booted : Loops
booted = record {
  workers = [];
  worker_seq = 0;
  draining = [];
  reconcile_busy = false;
  stopped = false;
  activities = [];
  activity_counter = 0;
}
