-- ===== src/Tests/Deploying.antt =====
-- Deploys on concrete data.
use openronin.Common.{ℕ, ◌+◌, refl, false, some, none, List, [], ◌∷◌, All, Text, codes}
use openronin.Deploys.{DeployMode, DeployInput, DeployState, Spawned, exited, run_deploy}
use openronin.Deploys.Finished.{IsFinished, run_deploy-IsFinished}
use openronin.Deploys.Remote.{RunsSsh, run_deploy-RunsSsh}

-- `pull` over ssh, then `make`, with a key and another port
abbrev two_commands : DeployInput
two_commands = record {
  repo_id = 1;
  sha = "aaa";
  branch = "main";
  triggered_by = "bot";
  commands = codes "pull" ∷ codes "make" ∷ [];
  mode = some DeployMode.ssh;
  ssh = some (record {
    user = codes "ci";
    host = codes "web";
    port = some 2222;
    key_path = some (codes "/k");
    strict_host_key_checking = some false;
  });
}

abbrev pub one_digit : ℕ → Text
one_digit n = (48 + n) ∷ []

-- the first command succeeds, the second exits with 2
abbrev pub second_fails : List (List Text) → List Text → Spawned
second_fails [] argv = exited (record { status = some 0; stdout = []; stderr = []; error = none })
second_fails (before ∷ others) argv =
    exited (record { status = some 2; stdout = []; stderr = codes "no rule"; error = none })

abbrev pub no_deploys : DeployState
no_deploys = record { deploys = []; seq = 4; log = [] }

run_deploy-IsFinished_example :
    IsFinished one_digit second_fails two_commands 1000 2000 no_deploys
      (run_deploy one_digit second_fails two_commands 1000 2000 no_deploys)
run_deploy-IsFinished_example =
    run_deploy-IsFinished one_digit second_fails two_commands 1000 2000 no_deploys tt

run_deploy-RunsSsh_example :
    All RunsSsh (run_deploy one_digit second_fails two_commands 1000 2000 no_deploys).0.log
run_deploy-RunsSsh_example =
    run_deploy-RunsSsh one_digit second_fails two_commands 1000 2000 no_deploys refl tt
