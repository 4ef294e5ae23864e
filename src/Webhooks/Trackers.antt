-- ===== src/Webhooks/Trackers.antt =====
-- The webhooks of GitLab, Jira and Todoist (src/server/webhooks.ts).
pub mod Handled
use openronin.Common.{
  ℕ, zero, suc, String, Bool, true, false, not, ◌&&◌, Option, none, some, List, [], ◌∷◌, ◌==◌, Text,
  str_eq, has_text, if◌then◌else◌,
}
use openronin.Sql.{select}
use openronin.Store.{Db, Repo, Kind, issue, pull_request, Priority, high, normal}
use openronin.Store.Tasks.{
  RepoRef, is_repo, ensure_repo, upsert_task, upsert_jira_task, upsert_todoist_task,
}
use openronin.Queue.{enqueue}
use openronin.Messages.{is_bot_message}
use openronin.Webhooks.{
  HookRepo, JiraTracker, TodoistTracker, Secret, Request, Hooked, failed, ignored, queued,
  repo_hidden, no_number, event_not_handled, bot_self_event, push_not_routed, project_mismatch,
  label_mismatch, secret_of, or_empty, text_or_empty, is_filled, is_own,
}

pub record GitlabPayload : Type 0 where
  pub object_kind : Option String
  pub iid : Option ℕ
  pub noteable_type : Option String
  pub noteable_iid : Option ℕ
  pub note : Option Text

pub record JiraPayload : Type 0 where
  pub webhook_event : Option String
  pub issue_key : Option String
  pub comment_body : Option Text

pub record TodoistPayload : Type 0 where
  pub event_name : Option String
  pub id : Option String
  pub item_id : Option String
  pub project_id : Option String
  pub content : Option Text
  pub labels : Option (List String)

-- the configuration's entry for a row of `repos`
abbrev pub config_of_row : List HookRepo → Option Repo → Option HookRepo
config_of_row repos none = none
config_of_row repos (some row) = select (λ r. is_repo r.ref row) repos

abbrev pub config_of : Db → List HookRepo → ℕ → Option HookRepo
config_of db repos id = config_of_row repos (select (λ (r : Repo). r.id == id) db.repos)

module _ (bot_prefix : Text) (id_text : ℕ → String) where
  -- ── GitLab ──

  abbrev pub queue_gitlab : Db → HookRepo → ℕ → Kind → Hooked
  queue_gitlab db cfg number kind =
      let ensured = ensure_repo db cfg.ref in
      let task = upsert_task ensured.0 ensured.1 (id_text number) kind in
      (enqueue task.0 task.1 high none, queued task.1 false)

  abbrev pub on_gitlab_repo : Db → ℕ → Kind → Option HookRepo → Hooked
  on_gitlab_repo db number kind none = (db, failed 404)
  on_gitlab_repo db number kind (some cfg) =
      if cfg.hidden then (db, ignored repo_hidden) else queue_gitlab db cfg number kind

  abbrev pub on_gitlab_number : Db → List HookRepo → ℕ → GitlabPayload → Kind → Option ℕ → Hooked
  on_gitlab_number db repos id p kind none = (db, ignored no_number)
  on_gitlab_number db repos id p kind (some zero) = (db, ignored no_number)
  on_gitlab_number db repos id p kind (some (suc n)) =
      if is_own bot_prefix id_text (or_empty p.note)
      then (db, ignored bot_self_event)
      else on_gitlab_repo db (suc n) kind (config_of db repos id)

  abbrev pub note_kind : String → Kind
  note_kind noteable = if str_eq noteable "MergeRequest" then pull_request else issue

  unfoldable pub on_gitlab_kind : Db → List HookRepo → ℕ → GitlabPayload → String → Hooked
  on_gitlab_kind db repos id p kind =
      if str_eq kind "merge_request"
      then on_gitlab_number db repos id p pull_request p.iid
      else if str_eq kind "note"
      then on_gitlab_number db repos id p (note_kind (text_or_empty p.noteable_type)) p.noteable_iid
      else if str_eq kind "push"
      then (db, ignored push_not_routed)
      else (db, ignored event_not_handled)

  abbrev pub on_gitlab_payload : Db → List HookRepo → ℕ → Option GitlabPayload → Hooked
  on_gitlab_payload db repos id none = (db, failed 400)
  on_gitlab_payload db repos id (some p) =
      on_gitlab_kind db repos id p (text_or_empty p.object_kind)

  abbrev pub on_gitlab_secret :
      Db → List HookRepo → ℕ → Request GitlabPayload → Option Secret → Hooked
  on_gitlab_secret db repos id r none = (db, failed 404)
  on_gitlab_secret db repos id r (some s) =
      if not (r.verified s.secret)
      then (db, failed 401)
      else on_gitlab_payload db repos id r.payload

  abbrev pub on_gitlab_id :
      Db → List Secret → List HookRepo → Request GitlabPayload → Option ℕ → Hooked
  on_gitlab_id db secrets repos r none = (db, failed 400)
  on_gitlab_id db secrets repos r (some id) = on_gitlab_secret db repos id r (secret_of secrets id)

  unfoldable pub gitlab_webhook : Db → List Secret → List HookRepo → Request GitlabPayload → Hooked
  gitlab_webhook db secrets repos r = on_gitlab_id db secrets repos r r.repo_id

  -- ── Jira ──

  abbrev pub jira_events : List String
  jira_events = "jira:issue_created" ∷ "jira:issue_updated" ∷ "jira:issue_commented" ∷ []

  abbrev pub jira_priority : String → Priority
  jira_priority event = if str_eq event "jira:issue_created" then high else normal

  abbrev pub queue_jira : Db → HookRepo → String → String → Hooked
  queue_jira db cfg event key =
      let ensured = ensure_repo db cfg.ref in
      let task = upsert_jira_task ensured.0 ensured.1 key in
      (enqueue task.0 task.1 (jira_priority event) none, queued task.1 false)

  unfoldable pub on_jira_event : Db → HookRepo → JiraPayload → String → String → Hooked
  on_jira_event db cfg p event key =
      if not (has_text event jira_events)
      then (db, ignored event_not_handled)
      else if str_eq key ""
      then (db, ignored no_number)
      else if str_eq event "jira:issue_commented"
          && is_bot_message bot_prefix (or_empty p.comment_body)
      then (db, ignored bot_self_event)
      else queue_jira db cfg event key

  abbrev pub on_jira_payload : Db → HookRepo → Option JiraPayload → Hooked
  on_jira_payload db cfg none = (db, failed 400)
  on_jira_payload db cfg (some p) =
      on_jira_event db cfg p (text_or_empty p.webhook_event) (text_or_empty p.issue_key)

  -- the signature is asked for where a secret is configured
  abbrev pub is_rejected : String → (String → Bool) → Bool
  is_rejected secret verified = not (str_eq secret "") && not (verified secret)

  abbrev pub on_jira_tracker : Db → HookRepo → Request JiraPayload → Option JiraTracker → Hooked
  on_jira_tracker db cfg r none = (db, failed 404)
  on_jira_tracker db cfg r (some t) =
      if cfg.hidden
      then (db, ignored repo_hidden)
      else if is_rejected t.webhook_secret r.verified
      then (db, failed 401)
      else on_jira_payload db cfg r.payload

  abbrev pub on_jira_repo : Db → Request JiraPayload → Option HookRepo → Hooked
  on_jira_repo db r none = (db, failed 404)
  on_jira_repo db r (some cfg) = on_jira_tracker db cfg r cfg.jira_tracker

  abbrev pub on_jira_id : Db → List HookRepo → Request JiraPayload → Option ℕ → Hooked
  on_jira_id db repos r none = (db, failed 400)
  on_jira_id db repos r (some id) = on_jira_repo db r (config_of db repos id)

  unfoldable pub jira_webhook : Db → List HookRepo → Request JiraPayload → Hooked
  jira_webhook db repos r = on_jira_id db repos r r.repo_id

  -- ── Todoist ──

  abbrev pub todoist_events : List String
  todoist_events = "item:added" ∷ "item:updated" ∷ "note:added" ∷ []

  -- `item_id ?? id` for a note
  abbrev pub todoist_id : Bool → TodoistPayload → String
  todoist_id false p = text_or_empty p.id
  todoist_id true p = elim p.item_id [ none ↦ text_or_empty p.id | some id ↦ id ]

  abbrev pub todoist_priority : String → Priority
  todoist_priority event = if str_eq event "item:added" then high else normal

  abbrev pub queue_todoist : Db → HookRepo → String → String → Hooked
  queue_todoist db cfg event key =
      let ensured = ensure_repo db cfg.ref in
      let task = upsert_todoist_task ensured.0 ensured.1 key in
      (enqueue task.0 task.1 (todoist_priority event) none, queued task.1 false)

  unfoldable pub on_todoist_event :
      Db → HookRepo → TodoistTracker → TodoistPayload → String → Hooked
  on_todoist_event db cfg t p event =
      let is_note = str_eq event "note:added" in
      let key = todoist_id is_note p in
      let project = text_or_empty p.project_id in
      if not (has_text event todoist_events)
      then (db, ignored event_not_handled)
      else if str_eq key ""
      then (db, ignored no_number)
      else if not (str_eq project "") && not (str_eq project t.project_id)
      then (db, ignored project_mismatch)
      else if not (str_eq t.label_filter "")
          && (not is_note && not (has_text t.label_filter (or_empty p.labels)))
      then (db, ignored label_mismatch)
      else if is_note && is_bot_message bot_prefix (or_empty p.content)
      then (db, ignored bot_self_event)
      else queue_todoist db cfg event key

  abbrev pub on_todoist_payload : Db → HookRepo → TodoistTracker → Option TodoistPayload → Hooked
  on_todoist_payload db cfg t none = (db, failed 400)
  on_todoist_payload db cfg t (some p) = on_todoist_event db cfg t p (text_or_empty p.event_name)

  abbrev pub on_todoist_tracker :
      Db → HookRepo → Request TodoistPayload → Option TodoistTracker → Hooked
  on_todoist_tracker db cfg r none = (db, failed 404)
  on_todoist_tracker db cfg r (some t) =
      if cfg.hidden
      then (db, ignored repo_hidden)
      else if is_rejected t.webhook_secret r.verified
      then (db, failed 401)
      else on_todoist_payload db cfg t r.payload

  abbrev pub on_todoist_repo : Db → Request TodoistPayload → Option HookRepo → Hooked
  on_todoist_repo db r none = (db, failed 404)
  on_todoist_repo db r (some cfg) = on_todoist_tracker db cfg r cfg.todoist_tracker

  abbrev pub on_todoist_id : Db → List HookRepo → Request TodoistPayload → Option ℕ → Hooked
  on_todoist_id db repos r none = (db, failed 400)
  on_todoist_id db repos r (some id) = on_todoist_repo db r (config_of db repos id)

  unfoldable pub todoist_webhook : Db → List HookRepo → Request TodoistPayload → Hooked
  todoist_webhook db repos r = on_todoist_id db repos r r.repo_id
