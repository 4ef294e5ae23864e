-- ===== src/Deploys.antt =====
-- The deploy lane (src/lanes/deploy.ts) and the rows that it writes (src/storage/deploys.ts). What
-- `spawnSync` answers is a parameter, given the argument vectors before: its two outputs as trimmed, or
-- a throw. `decimal` is `String` on a number. `spawnSync` blocks, so a deploy is one step; how long it
-- took is left out.
pub mod Ran
pub mod Finished
pub mod Remote
use openronin.Common.{
  ℕ, suc, String, Bool, true, false, not, ◌&&◌, ◌||◌, Option, none, some, List, [], ◌∷◌, ◌++◌, ◌==◌,
  Text, codes, take, if◌then◌else◌, is_some,
}
use openronin.Sql.{update}
use openronin.Stamp.{sql_datetime}
use openronin.Store.Runs.{Deploy, RunStatus}

pub data DeployMode : Type 0 where
  local ssh : DeployMode

pub data DeployOutcome : Type 0 where
  success build_failed error : DeployOutcome

pub record SshTarget : Type 0 where
  pub user : Text
  pub host : Text
  pub port : Option ℕ
  pub key_path : Option Text
  pub strict_host_key_checking : Option Bool

pub record DeployInput : Type 0 where
  pub repo_id : ℕ
  pub sha : String
  pub branch : String
  pub triggered_by : String
  pub commands : List Text
  pub mode : Option DeployMode
  pub ssh : Option SshTarget

pub record DeployResult : Type 0 where
  pub outcome : DeployOutcome
  pub deploy_id : ℕ
  pub error : Option Text

-- what `spawnSync` returns
pub record Exit : Type 0 where
  pub status : Option ℕ
  pub stdout : Text
  pub stderr : Text
  pub error : Option Text

pub data Spawned : Type 0 where
  exited : Exit → Spawned
  threw : Text → Spawned

-- the deploys with their AUTOINCREMENT counter, and the argument vectors that were run
pub record DeployState : Type 0 where
  pub deploys : List Deploy
  pub seq : ℕ
  pub log : List (List Text)

abbrev pub create_deploy : List Deploy → ℕ → DeployInput → ℕ → List Deploy
create_deploy deploys id input now =
    deploys
    ++ record {
      id = id;
      repo_id = input.repo_id;
      sha = input.sha;
      branch = input.branch;
      triggered_by = input.triggered_by;
      status = RunStatus.running;
      error = none;
      started_at = sql_datetime now;
      finished_at = none;
    }
      ∷ []

abbrev pub concluded : RunStatus → Option Text → ℕ → Deploy → Deploy
concluded status detail now d = record d {
  status = status;
  error = detail;
  finished_at = some (sql_datetime now);
}

abbrev pub finish_deploy : List Deploy → ℕ → RunStatus → Option Text → ℕ → List Deploy
finish_deploy deploys id status detail now =
    update (λ (d : Deploy). d.id == id) (concluded status detail now) deploys

-- a string that JavaScript takes for true
abbrev pub is_filled : Text → Bool
is_filled [] = false
is_filled (c ∷ cs) = true

-- `host.includes("@")`
abbrev pub has_at : Text → Bool
has_at [] = false
has_at (c ∷ cs) = c == 64 || has_at cs

abbrev pub has_host : Option SshTarget → Bool
has_host none = false
has_host (some t) = is_filled t.host

abbrev pub strict_args : Option Bool → List Text
strict_args (some false) =
    codes "-o"
    ∷ codes "StrictHostKeyChecking=no"
    ∷ codes "-o"
    ∷ codes "UserKnownHostsFile=/dev/null"
    ∷ []
strict_args (some true) = []
strict_args none = []

abbrev pub key_args : Option Text → List Text
key_args none = []
key_args (some p) =
    if is_filled p then codes "-i" ∷ p ∷ codes "-o" ∷ codes "IdentitiesOnly=yes" ∷ [] else []

abbrev pub target_of : SshTarget → Text
target_of t = if has_at t.host then t.host else t.user ++ codes "@" ++ t.host

-- a command as it is run, with the name that a failure gives it
pub record Command : Type 0 where
  pub argv : List Text
  pub label : Text

module _ (decimal : ℕ → Text) where
  -- 0 and 22 are left to the client
  abbrev pub port_args : Option ℕ → List Text
  port_args none = []
  port_args (some p) = if not (p == 0) && not (p == 22) then codes "-p" ∷ decimal p ∷ [] else []

  abbrev pub ssh_command : Text → SshTarget → Command
  ssh_command cmd t = record {
    argv =
        codes "ssh"
        ∷ codes "-T"
        ∷ codes "-o"
        ∷ codes "BatchMode=yes"
        ∷ (strict_args t.strict_host_key_checking
            ++ port_args t.port
            ++ key_args t.key_path
            ++ target_of t ∷ cmd ∷ []);
    label = codes "ssh " ++ target_of t;
  }

  abbrev pub build_command : Text → DeployMode → Option SshTarget → Command
  build_command cmd DeployMode.ssh (some t) = ssh_command cmd t
  build_command cmd DeployMode.ssh none = record {
    argv = codes "bash" ∷ codes "-c" ∷ cmd ∷ [];
    label = codes "local";
  }
  build_command cmd DeployMode.local target = record {
    argv = codes "bash" ∷ codes "-c" ∷ cmd ∷ [];
    label = codes "local";
  }

  abbrev pub status_text : Option ℕ → Text
  status_text none = codes "?"
  status_text (some n) = decimal n

  -- the detail of a failed command, cut to 2000
  abbrev pub failure_text : Text → Exit → Text
  failure_text label e = take 2000 (elim e.error [
    | some message ↦ message
    | none ↦
        label
        ++ codes " exit "
        ++ status_text e.status
        ++ codes ": "
        ++ (if is_filled e.stderr then e.stderr else e.stdout)
  ])

-- `result.status !== 0 || result.error`
abbrev pub is_failure : Exit → Bool
is_failure e = elim e.status [ none ↦ true | some n ↦ not (n == 0) || is_some e.error ]

-- how the loop over the commands ends
pub data Ended : Type 0 where
  all_ran : Ended
  failed : Text → Ended
  raised : Text → Ended

abbrev pub no_host : Text
no_host = codes "deploy.mode=ssh but ssh.host is missing"

abbrev pub is_ssh : DeployMode → Bool
is_ssh DeployMode.ssh = true
is_ssh DeployMode.local = false

abbrev pub mode_of : Option DeployMode → DeployMode
mode_of none = DeployMode.local
mode_of (some m) = m

module _ (decimal : ℕ → Text) (spawn : List (List Text) → List Text → Spawned) where
  abbrev pub on_spawned :
      Text → Spawned → List (List Text) → List (List Text) × Ended → List (List Text) × Ended
  on_spawned label (threw m) log rest = (log, raised (take 2000 m))
  on_spawned label (exited e) log rest =
      if is_failure e then (log, failed (failure_text decimal label e)) else rest

  unfoldable pub run_commands :
      DeployMode → Option SshTarget → List Text → List (List Text) → List (List Text) × Ended
  run_commands mode target [] log = (log, all_ran)
  run_commands mode target (cmd ∷ cmds) log =
      let c = build_command decimal cmd mode target in
      let rest = run_commands mode target cmds (log ++ c.argv ∷ []) in
      on_spawned c.label (spawn log c.argv) (log ++ c.argv ∷ []) rest

  abbrev pub conclude :
      DeployState
      → ℕ
      → ℕ
      → DeployOutcome
      → RunStatus
      → Option Text
      → List (List Text)
      → DeployState × DeployResult
  conclude s id now outcome status detail log = (
    record { deploys = finish_deploy s.deploys id status detail now; seq = s.seq; log = log },
    record { outcome = outcome; deploy_id = id; error = detail },
  )

  abbrev pub on_ended : DeployState → ℕ → ℕ → List (List Text) × Ended → DeployState × DeployResult
  on_ended s id now (log, all_ran) = conclude s id now success RunStatus.ok none log
  on_ended s id now (log, failed m) = conclude s id now build_failed RunStatus.error (some m) log
  on_ended s id now (log, raised m) =
      conclude s id now DeployOutcome.error RunStatus.error (some m) log

  -- from `start` to `now`
  unfoldable pub run_deploy : DeployInput → ℕ → ℕ → DeployState → DeployState × DeployResult
  run_deploy input start now s =
      let id = suc s.seq in
      let created : DeployState = record s {
        deploys = create_deploy s.deploys id input start;
        seq = id;
      } in
      let mode = mode_of input.mode in
      if is_ssh mode && not (has_host input.ssh)
      then conclude created id now DeployOutcome.error RunStatus.error (some no_host) s.log
      else on_ended created id now (run_commands mode input.ssh input.commands s.log)
