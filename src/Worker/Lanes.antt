-- ===== src/Worker/Lanes.antt =====
-- The body of the `try` in `processOne` (src/scheduler/worker.ts): the fetch of the item, the lane and
-- what is done after it.
use openronin.Common.{ℕ, ◌+◌, Bool, true, false, ◌&&◌, Option, none, some, ◌==◌, if◌then◌else◌}
use openronin.Sql.{update}
use openronin.Stamp.{to_iso, sql_datetime}
use openronin.Store.{Branch, Db, Kind, issue, pull_request, BranchStatus}
use openronin.Store.Tasks.{ensure_repo}
use openronin.Store.Branches.{get_pr_branch_by_pr_number}
use openronin.Queue.{QueuedTask, mark_done}
use openronin.Lane.{
  Lane, triage, analyze, patch, patch_multi, pr_dialog, RepoConfig, Item, is_closed, is_closed_item,
  pick_lane,
}
use openronin.Worker.Base.{
  Ran, returned, threw, AnalyzeOutcome, PatchOutcome, DialogOutcome, got, failed, World, WorkStatus,
  ok, skipped, WorkResult, day, ◌>>=◌, is_error, patch_status, dialog_status, is_parking,
  enqueue_immediate, next_due,
}

module _ (w : World) (repo : RepoConfig) (item : Item) (id : ℕ) (now : ℕ) where
  abbrev result : WorkStatus → Option Lane → WorkResult
  result status lane = record { task_id = id; status = status; lane = lane }

  unfoldable pub after_analyze : AnalyzeOutcome → Db → Ran WorkResult
  after_analyze AnalyzeOutcome.ready db =
      returned (result ok (some analyze))
        (enqueue_immediate (mark_done db id (some (to_iso (now + 1000))) now) id)
  after_analyze outcome db = next_due w repo now now db >>= λ due db.
      returned (result (is_error outcome) (some analyze)) (mark_done db id (some due) now)

  -- the end of the two patch lanes
  unfoldable pub after_patch : Lane → PatchOutcome → Db → Ran WorkResult
  after_patch lane outcome db =
      if is_parking outcome
      then returned (result (patch_status outcome) (some lane))
          (mark_done db id (some (to_iso (now + day))) now)
      else (next_due w repo item.created_at now db >>= λ due db.
          returned (result (patch_status outcome) (some lane)) (mark_done db id (some due) now))

  unfoldable pub after_dialog : DialogOutcome → Db → Ran WorkResult
  after_dialog outcome db = next_due w repo now now db >>= λ due db.
      returned (result (dialog_status outcome) (some pr_dialog)) (mark_done db id (some due) now)

  unfoldable pub after_review : Unit {0} → Db → Ran WorkResult
  after_review _ db = next_due w repo item.created_at now db >>= λ due db.
      returned (result ok (some triage)) (mark_done db id (some due) now)

  unfoldable pub no_lane : Db → Ran WorkResult
  no_lane db = next_due w repo now now db >>= λ due db.
      returned (result skipped none) (mark_done db id (some due) now)

  -- the lane that was picked; `deep_review` cannot be, and would fall through to the review
  unfoldable pub run_lane : Option Lane → Db → Ran WorkResult
  unfolding no_lane after_analyze after_patch after_dialog after_review
  run_lane none db = no_lane db
  run_lane (some analyze) db = w.run_analyze repo item db >>= after_analyze
  run_lane (some patch) db = w.run_patch repo item db >>= after_patch patch
  run_lane (some patch_multi) db = w.run_patch_multi repo item db >>= after_patch patch_multi
  run_lane (some pr_dialog) db = w.run_pr_dialog repo item db >>= after_dialog
  run_lane (some _) db = w.run_review repo item db >>= after_review

abbrev close_row : Db → ℕ → Option Branch → Db
close_row db now none = db
close_row db now (some b) = if is_closed b.status then db else record db {
  branches =
      update (λ x. x.id == b.id)
        (λ x. record x { status = BranchStatus.closed; updated_at = some (sql_datetime now) })
        db.branches;
}

abbrev is_pull_request : Kind → Bool
is_pull_request pull_request = true
is_pull_request issue = false

-- a closed pull request that we opened: its branch is closed too
unfoldable pub close_our_branch : Item → ℕ → ℕ → ℕ → Db → Db
close_our_branch item repo_id number now db =
    if is_pull_request item.kind && is_closed_item item.state
    then close_row db now (get_pr_branch_by_pr_number db repo_id number)
    else db

-- the body of the `try`
unfoldable pub attempt : World → RepoConfig → QueuedTask → ℕ → Db → Ran WorkResult
unfolding close_our_branch run_lane
attempt w repo q now db = elim (w.get_item repo q.task.external_id) [
  | failed e ↦ threw e db
  | got item ↦
      let (db', repo_id) =
        ensure_repo db
          (record { provider = repo.provider; owner = repo.owner; name = repo.name }) in
      let number : ℕ = w.number_of q.task.external_id in
      let db'' : Db = close_our_branch item repo_id number now db' in
      run_lane w repo item q.task.id now
        (pick_lane w.parse_decision repo item db'' repo_id number q.task.external_id) db''
]
