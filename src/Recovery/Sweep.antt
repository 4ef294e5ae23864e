-- ===== src/Recovery/Sweep.antt =====
-- Lemmas on one sweep and a second one (`recoverStuckTasks` of src/scheduler/index.ts).
use openronin.Common.{ℕ, ◌≡◌, refl, Bool, true, false, List, All, arith, sym, ◌∙◌}
use openronin.Sql.{update}
use openronin.Sql.Laws.{All-update, All-intro, All-imp, count_zero, update_id, updated}
use openronin.Store.{Task, is_running}
use openronin.Store.Runs.{Run, Deploy, in_flight}
use openronin.Recovery.{
  Tables, to_abandon, abandon, reset, close_run, close_deploy, recover_stuck_tasks,
}

reset_idle : (t : Task) → is_running (updated (λ x. is_running x.status) reset t).status ≡ false
unfolding reset
reset_idle t = ground arith

close_deploy_idle :
    (now : ℕ) (d : Deploy)
    → in_flight (updated (λ x. in_flight x.status) (close_deploy now) d).status ≡ false
unfolding close_deploy
close_deploy_idle now d = ground arith

module _ {C : Type 0} where
  close_run_idle :
      (now : ℕ) (r : Run C)
      → in_flight (updated (λ x. in_flight x.status) (close_run now) r).status ≡ false
  unfolding close_run
  close_run_idle now r = ground arith

  -- No row of any of the three tables is running.
  pub record IsIdle (s : Tables C) : Type 0 where
    pub tasks : All (λ t. is_running t.status ≡ false) s.db.tasks
    pub runs : All (λ r. in_flight r.status ≡ false) s.runs
    pub deploys : All (λ d. in_flight d.status ≡ false) s.deploys

  -- After the sweep no task, no run and no deploy is left running.
  pub recover_stuck_tasks-IsIdle : (s : Tables C) (now : ℕ) → IsIdle (recover_stuck_tasks s now).0
  unfolding recover_stuck_tasks
  recover_stuck_tasks-IsIdle s now = record {
    tasks = All-update _ _ reset _ (All-intro _ _ reset_idle);
    runs = All-update _ _ (close_run now) s.runs (All-intro _ s.runs (close_run_idle now));
    deploys =
        All-update _ _ (close_deploy now) s.deploys (All-intro _ s.deploys (close_deploy_idle now));
  }

idle-not-abandoned : (t : Task) → is_running t.status ≡ false → to_abandon t ≡ false
unfolding to_abandon
idle-not-abandoned t h = ground arith

unchanged {ℓ} :
    {A : Type ℓ} (p : A → Bool) (f : A → A) (xs : List A)
    → All (λ x. p x ≡ false) xs
    → update p f xs ≡ xs
unchanged p f xs h =
    update_id p f xs (
      All-imp (λ x. p x ≡ false) (λ x. p x ≡ true → f x ≡ x) xs (λ x e k. absurd (cc (sym e ∙ k)))
        h)

module _ {C : Type 0} where
  -- What a sweep reports and leaves when there was nothing to recover.
  pub record IsClean (s : Tables C) (now : ℕ) : Type 0 where
    pub same : (recover_stuck_tasks s now).0 ≡ s
    pub nothing : (recover_stuck_tasks s now).1.recovered ≡ false
    pub clean : (recover_stuck_tasks s now).1.clean_shutdown ≡ true
    pub no_tasks : (recover_stuck_tasks s now).1.tasks ≡ 0
    pub no_runs : (recover_stuck_tasks s now).1.runs ≡ 0
    pub no_deploys : (recover_stuck_tasks s now).1.deploys ≡ 0

  IsIdle-IsClean : (s : Tables C) (now : ℕ) → IsIdle s → IsClean s now
  unfolding recover_stuck_tasks
  IsIdle-IsClean s now h =
      let no_abandon = All-imp _ _ s.db.tasks idle-not-abandoned h.tasks in
      let same_tasks = unchanged to_abandon (abandon now) s.db.tasks no_abandon in
      let same_reset = unchanged (λ (t : Task). is_running t.status) reset s.db.tasks h.tasks in
      let same_runs = unchanged (λ (r : Run C). in_flight r.status) (close_run now) s.runs h.runs in
      let same_deploys =
        unchanged (λ (d : Deploy). in_flight d.status) (close_deploy now) s.deploys h.deploys in
      let zero_abandon = count_zero to_abandon s.db.tasks no_abandon in
      let zero_tasks = count_zero (λ (t : Task). is_running t.status) s.db.tasks h.tasks in
      let zero_runs = count_zero (λ (r : Run C). in_flight r.status) s.runs h.runs in
      let zero_deploys = count_zero (λ (d : Deploy). in_flight d.status) s.deploys h.deploys in
      record {
        same = rw (same_tasks, same_reset, same_runs, same_deploys) refl;
        nothing = rw (same_tasks, zero_abandon, zero_tasks, zero_runs, zero_deploys) refl;
        clean = rw (same_tasks, zero_abandon, zero_tasks, zero_runs, zero_deploys) refl;
        no_tasks = rw (same_tasks, zero_tasks) refl;
        no_runs = zero_runs;
        no_deploys = zero_deploys;
      }

  -- A second sweep, whenever it runs, changes no table, counts nothing and reports a clean
  -- shutdown.
  pub recover_stuck_tasks_twice :
      (s : Tables C) (now later : ℕ) → IsClean (recover_stuck_tasks s now).0 later
  recover_stuck_tasks_twice s now later =
      IsIdle-IsClean (recover_stuck_tasks s now).0 later (recover_stuck_tasks-IsIdle s now)
