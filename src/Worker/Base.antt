-- ===== src/Worker/Base.antt =====
-- What a round of the worker meets (src/scheduler/worker.ts): the world around it, what a lane or a
-- provider throws, and the outcomes of the lanes.
use openronin.Common.{
  ℕ, ◌*◌, String, Bool, true, false, ◌&&◌, ◌||◌, Option, none, some, List, ◌==◌, Text, codes,
  str_eq,
}
use openronin.Sql.{select, update}
use openronin.Stamp.{Stamp}
use openronin.Cadence.{Cadence, compute_next_due_at}
use openronin.Store.{Db, pending, high}
use openronin.Queue.{QueuedTask}
use openronin.Lane.{Lane, RepoConfig, Item, Stored}

-- what a caught value is, as far as the handler looks
pub data Cause : Type 0 where
  cost_cap_exceeded : Cause
  rate_limited : (reset_at : Option ℕ) → Cause
  -- any other error, with its `status` if it has one
  other : (status : Option ℕ) → Cause

pub record Thrown : Type 0 where
  pub cause : Cause
  pub message : Text

pub data Ran (A : Type 0) : Type 0 where
  returned : A → Db → Ran A
  threw : Thrown → Db → Ran A

pub data AnalyzeOutcome : Type 0 where
  ready needs_clarification skipped_awaiting_answer error : AnalyzeOutcome

pub data PatchOutcome : Type 0 where
  pr_opened no_changes guardrail_blocked error : PatchOutcome

pub data DialogOutcome : Type 0 where
  pushed no_new_feedback no_changes guardrail_blocked max_iterations needs_human error :
      DialogOutcome

pub data Fetched : Type 0 where
  got : Item → Fetched
  failed : Thrown → Fetched

pub record World : Type 0 where
  pub paused : Bool
  pub repos : List RepoConfig
  pub cadence : Cadence
  pub rate_limit_cooldown : Text
  pub number_of : String → ℕ
  pub parse_decision : String → Option Stored
  pub names_404 : Text → Bool
  pub get_item : RepoConfig → String → Fetched
  pub run_analyze : RepoConfig → Item → Db → Ran AnalyzeOutcome
  pub run_patch : RepoConfig → Item → Db → Ran PatchOutcome
  pub run_patch_multi : RepoConfig → Item → Db → Ran PatchOutcome
  pub run_pr_dialog : RepoConfig → Item → Db → Ran DialogOutcome
  -- the review, with the report that is written after it
  pub run_review : RepoConfig → Item → Db → Ran (Unit {0})

pub data WorkStatus : Type 0 where
  ok error skipped : WorkStatus

pub record WorkResult : Type 0 where
  pub task_id : ℕ
  pub status : WorkStatus
  pub lane : Option Lane

abbrev pub hour : ℕ
hour = 3_600_000

abbrev pub day : ℕ
day = 24 * hour

unfoldable pub find_repo : List RepoConfig → QueuedTask → Option RepoConfig
find_repo repos q =
    select
      (λ r. str_eq r.provider q.provider && (str_eq r.owner q.owner && str_eq r.name q.repo_name))
      repos

unfoldable pub enqueue_immediate : Db → ℕ → Db
enqueue_immediate db task_id = record db {
  tasks =
      update (λ t. t.id == task_id)
        (λ t. record t { status = pending; priority = high; next_due_at = none }) db.tasks;
}

abbrev pub is_404 : Option ℕ → Bool
is_404 none = false
is_404 (some status) = status == 404

-- `isVcs404`
abbrev pub is_vcs_404 : World → Thrown → Option ℕ → Bool
is_vcs_404 w e status = is_404 status || w.names_404 e.message

infixl 5 ◌>>=◌
abbrev pub ◌>>=◌ : {A B : Type 0} → Ran A → (A → Db → Ran B) → Ran B
returned a db >>= f = f a db
threw e db >>= f = threw e db

abbrev pub invalid_duration : Thrown
invalid_duration = record { cause = other none; message = codes "Invalid duration" }

abbrev pub cadence_of : World → Option Cadence → Cadence
cadence_of w none = w.cadence
cadence_of w (some c) = c

-- `computeNextDueAt`, which throws on a malformed duration
unfoldable pub next_due : World → RepoConfig → ℕ → ℕ → Db → Ran Stamp
next_due w repo created now db =
    elim (compute_next_due_at created (cadence_of w repo.cadence) now) [
      | none ↦ threw invalid_duration db
      | some due ↦ returned due db
    ]

abbrev pub is_error : AnalyzeOutcome → WorkStatus
is_error AnalyzeOutcome.error = WorkStatus.error
is_error _ = ok

abbrev pub patch_status : PatchOutcome → WorkStatus
patch_status PatchOutcome.error = WorkStatus.error
patch_status _ = ok

abbrev pub dialog_status : DialogOutcome → WorkStatus
dialog_status DialogOutcome.error = WorkStatus.error
dialog_status _ = ok

abbrev pub is_parking : PatchOutcome → Bool
is_parking PatchOutcome.guardrail_blocked = true
is_parking PatchOutcome.no_changes = true
is_parking _ = false
