-- ===== src/Tests/Data.antt =====
-- A repository with three tasks, its configuration, and a world around it.
use openronin.Common.{ℕ, Bool, true, false, Option, none, some, [], ◌∷◌, Text, codes}
use openronin.Cadence.{Cadence}
use openronin.Store.{Task, Db, TaskStatus, pending, running, Priority, high, normal, issue, vcs}
use openronin.Queue.{QueuedTask}
use openronin.Lane.{triage, patch, pr_dialog, RepoConfig, Item, ItemState}
use openronin.Worker.{
  World, returned, Thrown, rate_limited, Fetched, AnalyzeOutcome, PatchOutcome, DialogOutcome,
}

abbrev pub a_task : ℕ → TaskStatus → Priority → Option Text → Task
a_task id status priority last_error = record {
  id = id;
  repo_id = 1;
  external_id = "7";
  kind = issue;
  status = status;
  priority = priority;
  next_due_at = none;
  last_run_at = none;
  snapshot_hash = none;
  decision_json = none;
  last_error = last_error;
  source = vcs;
}

abbrev pub shop : Db
shop = record {
  tasks =
      a_task 1 pending normal none ∷ a_task 2 pending high none ∷ a_task 3 running high none ∷ [];
  task_seq = 3;
  repos =
      record { id = 1; provider = "github"; owner = "acme"; name = "shop"; watched = true } ∷ [];
  repo_seq = 1;
  branches = [];
  branch_seq = 0;
}

abbrev pub idle_shop : Db
idle_shop = record shop { tasks = a_task 3 running high none ∷ [] }

abbrev pub urgent : QueuedTask
urgent = record {
  task = a_task 2 pending high none;
  provider = "github";
  owner = "acme";
  repo_name = "shop";
}

abbrev pub urgent_running : QueuedTask
urgent_running = record urgent { task = a_task 2 running high none }

abbrev pub every_hour : Cadence
every_hour = record { hot = codes "1h"; default = codes "1h"; cold = codes "1h" }

abbrev pub shop_config : Bool → RepoConfig
shop_config hidden = record {
  provider = "github";
  owner = "acme";
  name = "shop";
  watched = true;
  hidden = hidden;
  lanes = triage ∷ patch ∷ pr_dialog ∷ [];
  cadence = none;
  patch_trigger_label = "ronin";
  pr_dialog_skip_authors = [];
  auto_merge_enabled = false;
}

abbrev pub an_item : Item
an_item = record {
  number = 7;
  kind = issue;
  state = ItemState.opened;
  labels = "ronin" ∷ [];
  created_at = 0;
}

abbrev pub limit_hit : Thrown
limit_hit = record { cause = rate_limited (some 9_000_000); message = codes "rate limited" }

abbrev pub a_world : Bool → Bool → Fetched → World
a_world paused hidden fetched = record {
  paused = paused;
  repos = shop_config hidden ∷ [];
  cadence = every_hour;
  rate_limit_cooldown = codes "30m";
  number_of = λ _. 7;
  parse_decision = λ _. none;
  names_404 = λ _. false;
  get_item = λ _ _. fetched;
  run_analyze = λ _ _ db. returned AnalyzeOutcome.ready db;
  run_patch = λ _ _ db. returned PatchOutcome.pr_opened db;
  run_patch_multi = λ _ _ db. returned PatchOutcome.pr_opened db;
  run_pr_dialog = λ _ _ db. returned DialogOutcome.pushed db;
  run_review = λ _ _ db. returned tt db;
}
