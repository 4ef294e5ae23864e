-- ===== src/Lib.antt =====
-- openronin: an agent that works on the issues and pull requests of repositories. This library models
-- the part of it that decides what is worked on, when, by which lane and under which permission, in
-- antt, and proves what that part relies on.
--
-- The program. A SQLite database holds repositories, tasks, branches of pull requests, runs of engines
-- and the Director's tables (src/storage). Reconciliation and webhooks put tasks into a queue, which is
-- the tasks table itself (src/scheduler/queue.ts). The worker takes a task, fetches its item from the
-- provider, picks a lane and runs it, then puts the task back with its next due date
-- (src/scheduler/worker.ts, src/scheduler/cadence.ts). A lane calls engines through the supervisor,
-- which keeps a record of each call and a daily cap on cost (src/supervisor/index.ts). At startup a
-- sweep puts back what the last process left running (src/scheduler/index.ts). The Director proposes
-- work: its service ticks the repositories under a lock, a tick asks an engine within a budget, and the
-- executor carries the decisions out under a mode and permissions, or queues them for a human, who
-- approves or rejects them (src/director).
--
-- The files.
--   Common     tests on numbers, lists over the native numbers, texts as code points.
--   Sql        SELECT, UPDATE, COUNT and ORDER BY ... LIMIT 1 on lists of rows; Sql/Order and Sql/Laws
--              have their lemmas.
--   Stamp      timestamps as the database stores and compares them, in two text formats.
--   Cadence    scheduler/cadence.ts: durations, age buckets, the next due date.
--   Store      the rows of storage/db.ts; Store/Tasks, Store/Branches and Store/Runs are
--              storage/tasks.ts, storage/pr-branches.ts and storage/runs.ts.
--   Queue      scheduler/queue.ts: enqueue, dequeue, markDone, markError, requeuePaused, queueStats;
--              Queue/Claims says which task may be taken and which of two first.
--   Recovery   recoverStuckTasks of scheduler/index.ts.
--   Scheduler  the loops of scheduler/index.ts as a step relation of one process: Scheduler/Sound has
--              the invariant, Scheduler/Begins, Scheduler/Exclusive and Scheduler/Stopping its use.
--   Webhooks   server/webhooks.ts: GitHub, and Webhooks/Trackers for GitLab, Jira and Todoist.
--   Deploys    lanes/deploy.ts and storage/deploys.ts: Deploys/Ran and Deploys/Finished on what a
--              deploy runs and records, Deploys/Remote on where.
--   Patch      the patch lane of lanes/patch.ts: Patch/Guards on what may pass and Patch/Pushes on
--              what reaches the remote.
--   Messages   isBotMessage and withPrefix of lanes/messages.ts.
--   Lane       pickLane of scheduler/worker.ts.
--   Worker     processOne, drain and drainRepo of scheduler/worker.ts: Worker/Base has what a round
--              meets, Worker/Lanes the body of the try, Worker the catch and the loops.
--   Reconcile  planTask of scheduler/reconcile.ts; Reconcile/Wanted says when a row is to be queued.
--   Supervisor selectEngine, checkDailyCostCap and runJob of supervisor/index.ts.
--   Director   Director/Types, Director/Decisions (decisions.ts, chat.ts, notes.ts), Director/Executor
--              (Provider, Actions and the gates) and Director/Approval (both executor.ts),
--              Director/ActiveTick (active-tick.ts), Director/Budget (budget.ts),
--              Director/Retrospective (retrospective.ts, trust-ramp.ts), Director/Dedup (dedup.ts and
--              the recording of a tick's decisions), Director/Tick (tick.ts) and Director/Service
--              (index.ts).
--   Tests      the theorems at concrete data.
-- A definition has the name of the function that it models, in snake_case.
--
-- The model. A table is a list of rows in id order with its AUTOINCREMENT counter; a statement is
-- one step, and so is dequeue, which is a transaction. The clock is an argument of each operation,
-- or the `clock` of the Director's tables, in milliseconds since the epoch. An error is a value:
-- `none` or a constructor of the result. What is outside the program is a parameter: the provider's
-- answers (given the calls before them), the lanes and engines (any outcome, any effect on the
-- database, or a throw), JSON.parse, the pause file, the host's time zone, the patterns that
-- classify error messages. Costs are of an abstract type. A text that is only built and stored is a
-- constructor that holds its parts; a text that is cut or searched is a list of code points.
--
-- Loops. `drain` is structural on the list of its rounds, as many as its limit. The retries of the
-- executor are structural on the list of delays. Neither runs on fuel. What happens in the process of
-- the scheduler, and among the processes that tick a repository, is a path of steps.
--
-- Not modelled: the admin pages, the HTTP server, the command line, the providers, the engines, the
-- other lanes, the rendering of prompts and messages, and the migrations, which are input, output or
-- rendering; the poll of pull requests in reconciliation, the slash commands, and the Director's digest
-- and follow-up sweep, which build on the parts modelled here.
pub mod Common
pub mod Sql
pub mod Stamp
pub mod Cadence
pub mod Store
pub mod Queue
pub mod Recovery
pub mod Lane
pub mod Worker
pub mod Reconcile
pub mod Scheduler
pub mod Messages
pub mod Patch
pub mod Deploys
pub mod Webhooks
pub mod Supervisor
pub mod Director
pub mod Tests
