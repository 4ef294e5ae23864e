-- ===== src/Recovery.antt =====
-- The sweep at startup over what the last process left running (`recoverStuckTasks` of
-- src/scheduler/index.ts, with the report of src/storage/recovery.ts as a value). The tables of
-- runs and deploys come with it; `C` is the type of a run's cost.
pub mod Sweep
pub mod Loops
use openronin.Common.{
  ℕ, zero, suc, ◌+◌, ◌-◌, ◌/◌, String, Bool, true, false, not, ◌&&◌, ◌||◌, Option, none, some, List,
  [], ◌∷◌, ◌++◌, Text, codes, length, take, ltb, leb, ◌==◌, if◌then◌else◌,
}
use openronin.Sql.{update, count}
use openronin.Stamp.{Stamp, to_iso, sql_datetime}
use openronin.Store.{Task, Db, TaskStatus, pending, done, high, is_running}
use openronin.Store.Runs.{Run, Deploy, RunStatus, in_flight}

abbrev pub starts_with : Text → Text → Bool
starts_with [] s = true
starts_with (p ∷ ps) [] = false
starts_with (p ∷ ps) (c ∷ cs) = p == c && starts_with ps cs

-- `replace(s, pat, '')`; the counter is what is left of an occurrence that is being dropped
unfoldable pub remove : Text → ℕ → Text → Text
remove pat skip [] = []
remove pat (suc skip) (c ∷ cs) = remove pat skip cs
remove pat zero (c ∷ cs) =
    let dropped = remove pat (length pat - 1) cs in
    let kept = c ∷ remove pat zero cs in if starts_with pat (c ∷ cs) then dropped else kept

abbrev pub stamp_mark : Text
stamp_mark = codes "[crash recovery"

-- how often the mark stands in a text
unfoldable pub stamps : Text → ℕ
unfolding remove
stamps s = (length s - length (remove stamp_mark zero s)) / length stamp_mark

abbrev pub stamp : Text
stamp = codes "[crash recovery: was running at shutdown]"

abbrev pub abandoned_note : Text
abandoned_note = codes " [abandoned: too many crash recoveries — kick manually]"

abbrev pub orphaned_run : Text
orphaned_run = codes "[crash recovery: orphaned run, process exited mid-call]"

abbrev pub orphaned_deploy : Text
orphaned_deploy = codes "[crash recovery: orphaned deploy, process exited mid-call]"

abbrev pub or_empty : Option Text → Text
or_empty none = []
or_empty (some e) = e

abbrev pub is_looping : Option Text → Bool
is_looping none = false
is_looping (some e) = leb 3 (stamps e)

-- the first UPDATE
unfoldable pub to_abandon : Task → Bool
to_abandon t = is_running t.status && is_looping t.last_error

unfoldable pub abandon : ℕ → Task → Task
abandon now t = record t {
  status = done;
  next_due_at = some (sql_datetime (now + 86_400_000));
  last_error = some (or_empty t.last_error ++ abandoned_note);
}

abbrev pub error_limit : ℕ
error_limit = 1024

-- `COALESCE(last_error || ' | ', '')`
abbrev pub prefix : Option Text → Text
prefix none = []
prefix (some e) = e ++ codes " | "

unfoldable pub add_stamp : Option Text → Text
add_stamp e = take error_limit (prefix e ++ stamp)

-- the second UPDATE
unfoldable pub reset : Task → Task
reset t = record t {
  status = pending;
  priority = high;
  next_due_at = none;
  last_error = some (add_stamp t.last_error);
}

pub record Tables (C : Type 0) : Type 0 where
  pub db : Db
  pub runs : List (Run C)
  pub deploys : List Deploy

pub record Report : Type 0 where
  pub ts : Stamp
  pub recovered : Bool
  pub tasks : ℕ
  pub runs : ℕ
  pub deploys : ℕ
  pub clean_shutdown : Bool

unfoldable pub close_deploy : ℕ → Deploy → Deploy
close_deploy now d = record d {
  status = RunStatus.error;
  finished_at = some (sql_datetime now);
  error = some (or_empty d.error ++ orphaned_deploy);
}

module _ {C : Type 0} where
  unfoldable pub close_run : ℕ → Run C → Run C
  close_run now r = record r {
    status = RunStatus.error;
    finished_at = some (sql_datetime now);
    error = some (or_empty r.error ++ orphaned_run);
  }

  unfoldable pub recover_stuck_tasks : Tables C → ℕ → Tables C × Report
  recover_stuck_tasks s now =
      let abandoned : ℕ = count to_abandon s.db.tasks in
      let tasks : List Task = update to_abandon (abandon now) s.db.tasks in
      let recovered_tasks : ℕ = count (λ t. is_running t.status) tasks in
      let recovered_runs : ℕ = count (λ (r : Run C). in_flight r.status) s.runs in
      let recovered_deploys : ℕ = count (λ (d : Deploy). in_flight d.status) s.deploys in
      let any_recovered : Bool =
        ltb 0 abandoned
        || (ltb 0 recovered_tasks || (ltb 0 recovered_runs || ltb 0 recovered_deploys)) in
      (
        record {
          db = record (s.db) { tasks = update (λ t. is_running t.status) reset tasks };
          runs = update (λ (r : Run C). in_flight r.status) (close_run now) s.runs;
          deploys = update (λ (d : Deploy). in_flight d.status) (close_deploy now) s.deploys;
        },
        record {
          ts = to_iso now;
          recovered = any_recovered;
          tasks = recovered_tasks;
          runs = recovered_runs;
          deploys = recovered_deploys;
          clean_shutdown = not any_recovered;
        },
      )
