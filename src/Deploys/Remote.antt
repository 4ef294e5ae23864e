-- ===== src/Deploys/Remote.antt =====
-- Where the commands of a deploy run (src/lanes/deploy.ts).
use openronin.Common.{
  ℕ, suc, true, not, ◌≡◌, refl, sym, Option, none, some, List, [], ◌∷◌, ◌++◌, Text, codes, All,
  arith, if_intro, if_case, subst,
}
use openronin.Deploys.{
  DeployMode, SshTarget, DeployInput, DeployState, DeployResult, Spawned, threw, exited, Ended,
  all_ran, failed, raised, is_failure, run_commands, run_deploy, build_command, on_spawned,
  on_ended, has_host, create_deploy,
}

-- The argument vector runs ssh.
abbrev pub RunsSsh : List Text → Type 0
RunsSsh [] = ⊥
RunsSsh (w ∷ ws) = w ≡ codes "ssh"

All-last :
    {A : Type 0} (P : A → Type 0) (xs : List A) (x : A) → All P xs → P x → All P (xs ++ x ∷ [])
All-last P [] x h p = (p, tt)
All-last P (y ∷ xs) x (h, hs) p = (h, All-last P xs x hs p)

module _ (decimal : ℕ → Text) (spawn : List (List Text) → List Text → Spawned) where
  on_spawned-All :
      (P : List Text → Type 0) (label : Text) (a : Spawned) (log : List (List Text))
      (rest : List (List Text) × Ended)
      → All P log
      → All P rest.0
      → All P (on_spawned decimal spawn label a log rest).0
  on_spawned-All P label (threw m) log rest h k = h
  on_spawned-All P label (exited e) log rest h k =
      if_intro (λ (r : List (List Text) × Ended). All P r.0) (is_failure e) h k

  run_commands-All :
      (t : SshTarget) (cmds : List Text) (log : List (List Text))
      → All RunsSsh log
      → All RunsSsh (run_commands decimal spawn DeployMode.ssh (some t) cmds log).0
  unfolding run_commands
  run_commands-All t [] log h = h
  run_commands-All t (c ∷ cs) log h =
      let b = build_command decimal c DeployMode.ssh (some t) in
      let log' = log ++ b.argv ∷ [] in
      let k = All-last RunsSsh log b.argv h refl in
      on_spawned-All RunsSsh b.label (spawn log b.argv) log'
        (run_commands decimal spawn DeployMode.ssh (some t) cs log') k
        (run_commands-All t cs log' k)

  on_ended-log :
      (s : DeployState) (id now : ℕ) (r : List (List Text) × Ended)
      → (on_ended decimal spawn s id now r).0.log ≡ r.0
  on_ended-log s id now (log, all_ran) = refl
  on_ended-log s id now (log, failed m) = refl
  on_ended-log s id now (log, raised m) = refl

  on_target :
      (target : Option SshTarget) (cmds : List Text) (log : List (List Text))
      → has_host target ≡ true
      → All RunsSsh log
      → All RunsSsh (run_commands decimal spawn DeployMode.ssh target cmds log).0
  on_target none cmds log h k = ground (arith, h)
  on_target (some t) cmds log h k = run_commands-All t cmds log k

  -- A deploy whose mode is ssh runs nothing but ssh on this host, whatever its target is and however its
  -- commands end.
  pub run_deploy-RunsSsh :
      (input : DeployInput) (start now : ℕ) (s : DeployState)
      → input.mode ≡ some DeployMode.ssh
      → All RunsSsh s.log
      → All RunsSsh (run_deploy decimal spawn input start now s).0.log
  unfolding run_deploy
  run_deploy-RunsSsh input start now s m h = rw m (
      if_case (λ (r : DeployState × DeployResult). All RunsSsh r.0.log) (not (has_host input.ssh))
        (λ _. h)
        (λ e.
          subst (All RunsSsh)
            (sym (
              on_ended-log
                (record s {
                  deploys = create_deploy s.deploys (suc s.seq) input start;
                  seq = suc s.seq;
                })
                (suc s.seq) now _))
            (on_target input.ssh input.commands s.log (ground (arith, e)) h)))
