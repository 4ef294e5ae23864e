-- ===== src/Webhooks.antt =====
-- The webhooks of the trackers and of the repositories' hosts (src/server/webhooks.ts). The verdict of
-- `verifyWebhookSignature` on a secret and the parsed body are parts of a request. A deploy that a
-- push starts is Deploys.run_deploy; its activity in the scheduler is left out. Number conversions of
-- the path and `String(number)` are parameters too.
pub mod Rows
pub mod Verified
pub mod Trackers
use openronin.Common.{
  ℕ, zero, suc, String, Bool, true, false, not, ◌&&◌, ◌||◌, Option, none, some, List, [], ◌∷◌, ◌==◌,
  ◌++◌, codes, Text, str_eq, has_text, if◌then◌else◌,
}
use openronin.Sql.{select}
use openronin.Store.{Db, Repo, Kind, issue, pull_request, Priority, high, normal}
use openronin.Store.Tasks.{
  RepoRef, is_repo, get_repo_id, ensure_repo, upsert_task, upsert_jira_task, upsert_todoist_task,
}
use openronin.Store.Branches.{lift_transient_park}
use openronin.Queue.{enqueue}
use openronin.Messages.{is_bot_message}
use openronin.Deploys.{
  DeployMode as RunMode, SshTarget, DeployInput, DeployState, Spawned, run_deploy,
}

pub data DeployMode : Type 0 where
  disabled local ssh : DeployMode

pub record DeployConfig : Type 0 where
  pub mode : DeployMode
  pub trigger_branch : String
  pub bot_login : String
  pub require_bot_push : Bool
  pub commands : List Text
  pub ssh : Option SshTarget

pub record JiraTracker : Type 0 where
  pub webhook_secret : String

pub record TodoistTracker : Type 0 where
  pub webhook_secret : String
  pub project_id : String
  pub label_filter : String

-- a repository of the configuration
pub record HookRepo : Type 0 where
  pub ref : RepoRef
  pub hidden : Bool
  pub deploy : DeployConfig
  pub jira_tracker : Option JiraTracker
  pub todoist_tracker : Option TodoistTracker

-- a row of `webhook_secrets`
pub record Secret : Type 0 where
  pub repo_id : ℕ
  pub secret : String

pub data Ignored : Type 0 where
  repo_hidden deploy_disabled no_deploy_commands not_trigger_branch not_bot_push branch_deletion :
      Ignored
  no_number event_not_handled bot_self_event push_not_routed project_mismatch label_mismatch :
      Ignored

pub data Response : Type 0 where
  -- with the HTTP status
  failed : ℕ → Response
  ignored : Ignored → Response
  deploy_started : DeployInput → Response
  queued : (task_id : ℕ) (lifted : Bool) → Response

pub record Request (P : Type 0) : Type 0 where
  -- none where `Number(...)` is not finite
  pub repo_id : Option ℕ
  pub event : String
  pub verified : String → Bool
  -- none where JSON.parse throws
  pub payload : Option P

abbrev pub Hooked : Type 0
Hooked = Db × Response

abbrev pub secret_of : List Secret → ℕ → Option Secret
secret_of secrets repo_id = select (λ s. s.repo_id == repo_id) secrets

abbrev pub or_empty : {A : Type 0} → Option (List A) → List A
or_empty none = []
or_empty (some t) = t

abbrev pub text_or_empty : Option String → String
text_or_empty none = ""
text_or_empty (some t) = t

-- `comment?.body ?? review?.body ?? ""`
abbrev pub candidate_body : Option Text → Option Text → Text
candidate_body (some body) review = body
candidate_body none review = or_empty review

abbrev pub is_filled : Text → Bool
is_filled [] = false
is_filled (c ∷ cs) = true

pub record GithubPayload : Type 0 where
  -- `issue?.number ?? pull_request?.number`
  pub number : Option ℕ
  -- `issue?.pull_request || pull_request`
  pub is_pr : Bool
  pub comment_body : Option Text
  pub review_body : Option Text
  -- of a push
  pub ref : Option String
  pub after : Option String
  pub sender_login : Option String

abbrev pub relevant_events : List String
relevant_events =
    "issues" ∷ "issue_comment" ∷ "pull_request" ∷ "pull_request_review"
    ∷ "pull_request_review_comment" ∷ []

abbrev pub has_id : ℕ → Option ℕ → Bool
has_id id none = false
has_id id (some n) = n == id

-- the repository of the configuration whose row has the id
unfoldable pub repo_with_id : Db → List HookRepo → ℕ → Option HookRepo
repo_with_id db repos id = select (λ r. has_id id (get_repo_id db r.ref)) repos

abbrev pub is_disabled : DeployMode → Bool
is_disabled disabled = true
is_disabled _ = false

abbrev pub is_empty : {A : Type 0} → List A → Bool
is_empty [] = true
is_empty (x ∷ xs) = false

abbrev pub zero_sha : String
zero_sha = "0000000000000000000000000000000000000000"

abbrev pub text_eq : Text → Text → Bool
text_eq [] [] = true
text_eq (c ∷ cs) (d ∷ ds) = c == d && text_eq cs ds
text_eq [] (d ∷ ds) = false
text_eq (c ∷ cs) [] = false

abbrev pub on_branch : String → String → Bool
on_branch ref branch = text_eq (codes ref) (codes "refs/heads/" ++ codes branch)

abbrev pub run_mode : DeployMode → Option RunMode
run_mode disabled = none
run_mode local = some RunMode.local
run_mode ssh = some RunMode.ssh

-- the push of GitHub, up to the arguments of the deploy
unfoldable pub on_push : Db → HookRepo → GithubPayload → Hooked
on_push db cfg p =
    let d = cfg.deploy in
    let sha = text_or_empty p.after in
    let sender = text_or_empty p.sender_login in
    if is_disabled d.mode
    then (db, ignored deploy_disabled)
    else if is_empty d.commands
    then (db, ignored no_deploy_commands)
    else if not (on_branch (text_or_empty p.ref) d.trigger_branch)
    then (db, ignored not_trigger_branch)
    else if d.require_bot_push && not (str_eq sender d.bot_login)
    then (db, ignored not_bot_push)
    else if str_eq sha "" || str_eq sha zero_sha
    then (db, ignored branch_deletion)
    else (
      (ensure_repo db cfg.ref).0,
      deploy_started (record {
        repo_id = (ensure_repo db cfg.ref).1;
        sha = sha;
        branch = d.trigger_branch;
        triggered_by = sender;
        commands = d.commands;
        mode = run_mode d.mode;
        ssh = d.ssh;
      }),
    )

module _ (bot_prefix : Text) (id_text : ℕ → String) where
  -- the body is there and one of our own
  abbrev pub is_own : Text → Bool
  is_own body = is_filled body && is_bot_message bot_prefix body

  -- ── GitHub ──

  abbrev pub kind_of : Bool → Kind
  kind_of true = pull_request
  kind_of false = issue

  abbrev pub lift_if : Bool → Db → ℕ → ℕ → Db × Bool
  lift_if true db task_id now = lift_transient_park db task_id now
  lift_if false db task_id now = (db, false)

  -- the writes for an event that counts
  unfoldable pub queue_github : Db → HookRepo → ℕ → Bool → Text → ℕ → Hooked
  queue_github db cfg number is_pr body now =
      let ensured = ensure_repo db cfg.ref in
      let task = upsert_task ensured.0 ensured.1 (id_text number) (kind_of is_pr) in
      let lifted = lift_if (is_filled body && not is_pr) task.0 task.1 now in
      (enqueue lifted.0 task.1 high none, queued task.1 lifted.1)

  abbrev pub on_number : Db → HookRepo → String → GithubPayload → ℕ → Option ℕ → Hooked
  on_number db cfg event p now none = (db, ignored no_number)
  on_number db cfg event p now (some zero) = (db, ignored no_number)
  on_number db cfg event p now (some (suc n)) =
      if not (has_text event relevant_events)
      then (db, ignored event_not_handled)
      else if is_own (candidate_body p.comment_body p.review_body)
      then (db, ignored bot_self_event)
      else queue_github db cfg (suc n) p.is_pr (candidate_body p.comment_body p.review_body) now

  abbrev pub on_github_repo : Db → String → GithubPayload → ℕ → Option HookRepo → Hooked
  on_github_repo db event p now none = (db, failed 404)
  on_github_repo db event p now (some cfg) =
      if cfg.hidden
      then (db, ignored repo_hidden)
      else if str_eq event "push"
      then on_push db cfg p
      else on_number db cfg event p now p.number

  abbrev pub on_github_payload : Db → List HookRepo → ℕ → String → ℕ → Option GithubPayload → Hooked
  on_github_payload db repos id event now none = (db, failed 400)
  on_github_payload db repos id event now (some p) =
      on_github_repo db event p now (repo_with_id db repos id)

  abbrev pub on_github_secret :
      Db → List HookRepo → ℕ → Request GithubPayload → ℕ → Option Secret → Hooked
  on_github_secret db repos id r now none = (db, failed 404)
  on_github_secret db repos id r now (some s) =
      if not (r.verified s.secret)
      then (db, failed 401)
      else on_github_payload db repos id r.event now r.payload

  abbrev pub on_github_id :
      Db → List Secret → List HookRepo → Request GithubPayload → ℕ → Option ℕ → Hooked
  on_github_id db secrets repos r now none = (db, failed 400)
  on_github_id db secrets repos r now (some id) =
      on_github_secret db repos id r now (secret_of secrets id)

  unfoldable pub route_github :
      Db → List Secret → List HookRepo → Request GithubPayload → ℕ → Hooked
  route_github db secrets repos r now = on_github_id db secrets repos r now r.repo_id

  module _ (decimal : ℕ → Text) (spawn : List (List Text) → List Text → Spawned) where
    -- `runDeploy` awaits nothing: a deploy that is started is over when the answer is given
    abbrev pub start_deploy : DeployState → ℕ → ℕ → Hooked → (Db × DeployState) × Response
    start_deploy s now later (db, deploy_started input) =
        ((db, (run_deploy decimal spawn input now later s).0), deploy_started input)
    start_deploy s now later (db, failed status) = ((db, s), failed status)
    start_deploy s now later (db, ignored why) = ((db, s), ignored why)
    start_deploy s now later (db, queued id lifted) = ((db, s), queued id lifted)

    -- the handler, from `now` to `later`
    unfoldable pub github_webhook :
        Db
        → DeployState
        → List Secret
        → List HookRepo
        → Request GithubPayload
        → ℕ
        → ℕ
        → (Db × DeployState) × Response
    github_webhook db s secrets repos r now later =
        start_deploy s now later (route_github db secrets repos r now)
