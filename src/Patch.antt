-- ===== src/Patch.antt =====
-- The patch lane (src/lanes/patch.ts). Git, the agent and the host answer through a Workdir; each is
-- asked at most once in a run. What the lane does outside the database is a log of effects: an
-- acknowledgement whose failure is swallowed is one entry. The prompt, the texts of messages and the
-- run that the supervisor records are left out.
pub mod Base
pub mod Guards
pub mod Pushes
use openronin.Common.{
  ℕ, zero, suc, ◌+◌, String, Bool, true, false, not, ◌&&◌, ◌||◌, Option, none, some, List, [], ◌∷◌,
  ◌++◌, ◌==◌, ltb, leb, Text, str_eq, if◌then◌else◌, is_some,
}
use openronin.Sql.{select_all, count, first_by, update}
use openronin.Store.{Db, Branch, Kind, BranchStatus, created, opened, closed, dirty, Task}
use openronin.Store.Tasks.{RepoRef, ensure_repo, upsert_task, record_task_decision}
use openronin.Store.Branches.{NewBranch, record_pr_branch}
use openronin.Messages.{starts_with}
use openronin.Patch.Base.{
  DiffStats, Blocked, matched_path, touched, check_guardrails, PatchOutcome, Why, PatchResult,
  Tried, Leftover, Workdir, Effect, PatchRepo, PatchItem, PatchState, is_active, is_closed,
  active_branch, closed_count, emit, head_or, branch_of, end, tell, too_large, touches, pr_opened,
  no_changes, guardrail_blocked, error, lane_disabled, no_token, active_pr, worktree_dirty,
  no_commits, blocked, raised, pr, done, threw, commit_failed, still_dirty, clean, acknowledged,
  agent_ran, leftovers_committed, pushed, pr_requested, told_blocked, told_failed, told_opened,
  label_removed, cleaned_up,
}

module _ (numbered : String → ℕ → String) (detail_text : Why → Text) (decision_text : Why → String)
    (short : String → String) (w : Workdir) (repo : PatchRepo) (now : ℕ) where
  abbrev pub record_outcome :
      ℕ
      → String
      → Option String
      → Option String
      → Option ℕ
      → Option String
      → BranchStatus
      → Option Text
      → Why
      → PatchState
      → PatchState
  record_outcome task_id branch base head pr_number pr_url status last_error why s = record s {
    db =
        record_task_decision
          (record_pr_branch s.db
            (branch_of task_id branch base head pr_number pr_url status last_error) now)
          task_id (short (head_or base head)) (decision_text why) now;
  }

  -- the `catch`
  abbrev pub on_threw : ℕ → String → Text → PatchState → PatchState × PatchResult
  on_threw task_id branch message s = end PatchOutcome.error task_id (raised message) (
      tell told_failed (record s {
        db =
            record_pr_branch s.db
              (branch_of task_id branch none none none none BranchStatus.error none) now;
      }))

  abbrev pub on_created :
      ℕ → String → String → String → Tried (ℕ × String) → PatchState → PatchState × PatchResult
  on_created task_id branch base head (threw m) s = on_threw task_id branch m s
  on_created task_id branch base head (done (number, url)) s = end pr_opened task_id (pr number) (
      tell told_opened (
        record_outcome task_id branch (some base) (some head) (some number) (some url) opened none
          (pr number) s))

  abbrev pub on_pushed :
      ℕ → String → String → String → Tried (Unit {0}) → PatchState → PatchState × PatchResult
  on_pushed task_id branch base head (threw m) s = on_threw task_id branch m s
  on_pushed task_id branch base head (done _) s =
      on_created task_id branch base head w.pull_request (emit pr_requested s)

  abbrev pub on_guardrails :
      ℕ → String → String → String → Option Blocked → PatchState → PatchState × PatchResult
  on_guardrails task_id branch base head (some b) s = end guardrail_blocked task_id (blocked b) (
      record_outcome task_id branch (some base) (some head) none none BranchStatus.guardrail_blocked
        (some (detail_text (blocked b))) (blocked b) (tell told_blocked s))
  on_guardrails task_id branch base head none s =
      on_pushed task_id branch base head w.push (emit pushed s)

  abbrev pub on_committed :
      ℕ → String → String → String → Tried DiffStats → PatchState → PatchState × PatchResult
  on_committed task_id branch base head (threw m) s = on_threw task_id branch m s
  on_committed task_id branch base head (done stats) s =
      on_guardrails task_id branch base head
        (check_guardrails stats repo.protected_paths repo.max_diff_lines) s

  -- from the comparison of HEAD with the base on
  unfoldable pub on_head : ℕ → String → String → String → PatchState → PatchState × PatchResult
  on_head task_id branch base head s =
      if str_eq head base
      then end no_changes task_id no_commits (
          record_outcome task_id branch (some base) (some head) none none BranchStatus.no_changes
            none no_commits (tell told_failed s))
      else on_committed task_id branch base head w.committed s

  abbrev pub on_dirty : ℕ → String → String → String → PatchState → PatchState × PatchResult
  on_dirty task_id branch base head s = end guardrail_blocked task_id worktree_dirty (
      record_outcome task_id branch (some base) (some head) none none dirty
        (some (detail_text worktree_dirty)) worktree_dirty (tell told_blocked s))

  abbrev pub on_leftover :
      ℕ → String → String → String → Leftover → PatchState → PatchState × PatchResult
  on_leftover task_id branch base head (clean sha) s = on_head task_id branch base sha s
  on_leftover task_id branch base head commit_failed s = on_dirty task_id branch base head s
  on_leftover task_id branch base head still_dirty s = on_dirty task_id branch base head s

  -- the worktree after the agent's run
  unfoldable pub on_worktree :
      ℕ → String → String → String → DiffStats → PatchState → PatchState × PatchResult
  on_worktree task_id branch base head stats s =
      if not stats.has_changes
      then on_head task_id branch base head s
      else if is_some (touched stats.files_changed repo.protected_paths)
      then on_dirty task_id branch base head s
      else on_leftover task_id branch base head w.leftover (emit leftovers_committed s)

  abbrev pub on_agent :
      ℕ → String → String → Tried (String × DiffStats) → PatchState → PatchState × PatchResult
  on_agent task_id branch base (threw m) s = on_threw task_id branch m s
  on_agent task_id branch base (done (head, stats)) s =
      on_worktree task_id branch base head stats (emit agent_ran s)

  abbrev pub on_checkout :
      ℕ → String → String → Tried (Unit {0}) → PatchState → PatchState × PatchResult
  on_checkout task_id branch base (threw m) s = on_threw task_id branch m s
  on_checkout task_id branch base (done _) s = on_agent task_id branch base w.agent s

  abbrev pub on_clone : ℕ → String → Tried String → PatchState → PatchState × PatchResult
  on_clone task_id branch (threw m) s = on_threw task_id branch m s
  on_clone task_id branch (done base) s = on_checkout task_id branch base w.checked_out s

  abbrev pub on_existing : ℕ → String → Option Branch → PatchState → PatchState × PatchResult
  on_existing task_id branch (some b) s =
      (s, record { outcome = no_changes; task_id = some task_id; detail = active_pr })
  on_existing task_id branch none s = on_clone task_id branch w.base_sha (emit acknowledged s)

  abbrev pub branch_name : Db → ℕ → String → String
  branch_name db task_id base =
      if ltb 0 (closed_count db task_id)
      then numbered base (suc (closed_count db task_id))
      else base

  unfoldable pub run_patch : PatchItem → PatchState → PatchState × PatchResult
  run_patch item s =
      if not repo.has_lane
      then (s, record { outcome = PatchOutcome.error; task_id = none; detail = lane_disabled })
      else if not repo.has_token
      then (s, record { outcome = PatchOutcome.error; task_id = none; detail = no_token })
      else (let ensured = ensure_repo s.db repo.ref in
          let task = upsert_task ensured.0 ensured.1 item.id_text item.kind in
          on_existing task.1 (branch_name task.0 task.1 item.base_branch)
            (active_branch task.0 task.1) (record s { db = task.0 }))
