-- ===== src/Deploys/Finished.antt =====
-- What a deploy ran and what its row says (src/lanes/deploy.ts).
use openronin.Common.{
  ℕ, suc, ◌≤◌, Bool, true, false, not, ◌&&◌, ◌≡◌, ◌⊎◌, inl, inr, refl, Option, none, some, List, [],
  ◌∷◌, ◌++◌, ◌==◌, Text, map, All, arith, if_case,
}
use openronin.Sql.Laws.{update_last, All-imp}
use openronin.Stamp.{sql_datetime}
use openronin.Store.Runs.{Deploy, RunStatus}
use openronin.Deploys.{
  DeployMode, DeployOutcome, success, build_failed, SshTarget, DeployInput, DeployState,
  DeployResult, Spawned, Ended, all_ran, failed, raised, run_deploy, on_ended, has_host, is_ssh,
  mode_of, create_deploy, conclude,
}
use openronin.Deploys.Ran.{AllSucceed, Stops, HasRun, argv_of, run_commands-HasRun}

module _ (decimal : ℕ → Text) (spawn : List (List Text) → List Text → Spawned) (mode : DeployMode)
    (target : Option SshTarget) where
  -- what the commands came to, for each outcome of a deploy; `misconfigured` without a host
  abbrev pub Explains :
      Bool → List Text → List (List Text) → List (List Text) → DeployOutcome → Type 0
  Explains misconfigured cmds log log' success =
      (misconfigured ≡ false)
      × (log' ≡ log ++ map (argv_of decimal spawn mode target) cmds)
      × AllSucceed decimal spawn mode target cmds log
  Explains misconfigured cmds log log' build_failed =
      (misconfigured ≡ false) × Stops decimal spawn mode target cmds log log'
  Explains misconfigured cmds log log' DeployOutcome.error =
      ((misconfigured ≡ true) × (log' ≡ log))
      ⊎ ((misconfigured ≡ false) × Stops decimal spawn mode target cmds log log')

  on_ended-Explains :
      (s : DeployState) (id now : ℕ) (cmds : List Text) (log : List (List Text))
      (r : List (List Text) × Ended) (misconfigured : Bool)
      → misconfigured ≡ false
      → HasRun decimal spawn mode target cmds log r
      → Explains misconfigured cmds log
          (on_ended decimal spawn s id now r).0.log
          (on_ended decimal spawn s id now r).1.outcome
  on_ended-Explains s id now cmds log (log', all_ran) b e (l, ok) = (e, l, ok)
  on_ended-Explains s id now cmds log (log', failed m) b e h = (e, h)
  on_ended-Explains s id now cmds log (log', raised m) b e h = inr (e, h)

-- the status of the row for each outcome
abbrev pub status_of : DeployOutcome → RunStatus
status_of success = RunStatus.ok
status_of build_failed = RunStatus.error
status_of DeployOutcome.error = RunStatus.error

-- the row of a deploy that has come to an end
abbrev pub final_row : DeployInput → ℕ → ℕ → DeployResult → Deploy
final_row input start now r = record {
  id = r.deploy_id;
  repo_id = input.repo_id;
  sha = input.sha;
  branch = input.branch;
  triggered_by = input.triggered_by;
  status = status_of r.outcome;
  error = r.error;
  started_at = sql_datetime start;
  finished_at = some (sql_datetime now);
}

abbrev pub is_misconfigured : DeployInput → Bool
is_misconfigured input = is_ssh (mode_of input.mode) && not (has_host input.ssh)

module _ (decimal : ℕ → Text) (spawn : List (List Text) → List Text → Spawned) (input : DeployInput)
    (start now : ℕ) (s : DeployState) where
  abbrev IsConcluded : DeployState × DeployResult → Type 0
  IsConcluded (s', r) =
      (r.deploy_id ≡ suc s.seq)
      × (s'.seq ≡ suc s.seq)
      × (s'.deploys ≡ s.deploys ++ final_row input start now r ∷ [])

  abbrev opened_state : DeployState
  opened_state = record s {
    deploys = create_deploy s.deploys (suc s.seq) input start;
    seq = suc s.seq;
  }

  conclude-IsConcluded :
      All (λ (d : Deploy). d.id ≤ s.seq) s.deploys
      → (outcome : DeployOutcome) (detail : Option Text) (log : List (List Text))
      → IsConcluded (
          conclude decimal spawn opened_state
            (suc s.seq)
            now
            outcome
            (status_of outcome)
            detail
            log)
  conclude-IsConcluded ids outcome detail log = (
    refl,
    refl,
    update_last (λ (d : Deploy). d.id == suc s.seq) _ s.deploys _
        (All-imp _ _ s.deploys (λ d h. ground (arith, h)) ids) (ground arith),
  )

  on_ended-IsConcluded :
      All (λ (d : Deploy). d.id ≤ s.seq) s.deploys
      → (r : List (List Text) × Ended)
      → IsConcluded (on_ended decimal spawn opened_state (suc s.seq) now r)
  on_ended-IsConcluded ids (log, all_ran) = conclude-IsConcluded ids success none log
  on_ended-IsConcluded ids (log, failed m) = conclude-IsConcluded ids build_failed (some m) log
  on_ended-IsConcluded ids (log, raised m) =
      conclude-IsConcluded ids DeployOutcome.error (some m) log

  abbrev pub IsFinished : DeployState × DeployResult → Type 0
  IsFinished r =
      IsConcluded r
      × Explains decimal spawn (mode_of input.mode) input.ssh (is_misconfigured input)
          input.commands s.log r.0.log r.1.outcome

  -- A deploy ends with one new row, of the next id, that is finished: `ok` if the outcome is success,
  -- `error` with the detail otherwise, and no other row is touched. Success means that every command was
  -- run, in order, and exited with 0; a failed build, that the commands up to the first one that did not
  -- succeed were run and none after it; an error, the same, or that ssh has no host and nothing was run.
  -- The ids of the table are at most its counter.
  pub run_deploy-IsFinished :
      All (λ (d : Deploy). d.id ≤ s.seq) s.deploys
      → IsFinished (run_deploy decimal spawn input start now s)
  unfolding run_deploy
  run_deploy-IsFinished ids =
      if_case IsFinished (is_misconfigured input)
        (λ e. (conclude-IsConcluded ids DeployOutcome.error _ s.log, inl (e, refl)))
        (λ e. (
          on_ended-IsConcluded ids _,
          on_ended-Explains decimal spawn (mode_of input.mode) input.ssh opened_state (suc s.seq)
              now input.commands s.log _ _ e
              (run_commands-HasRun decimal spawn (mode_of input.mode) input.ssh input.commands
                s.log),
        ))
