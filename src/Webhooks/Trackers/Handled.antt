-- ===== src/Webhooks/Trackers/Handled.antt =====
-- What an event of a tracker can do (src/server/webhooks.ts).
use openronin.Common.{
  ℕ, String, true, false, not, ◌≡◌, ◌≢◌, ◌⊎◌, inl, inr, eq_iff, Bool-cases, arith, refl, Option,
  none, some, List, Text, if_case, if_intro, ◌&&◌, has_text, str_eq,
}
use openronin.Store.{Db, Priority, high, normal}
use openronin.Store.Tasks.{upsert_jira_task, upsert_todoist_task}
use openronin.Messages.{is_bot_message}
use openronin.Webhooks.{
  HookRepo, JiraTracker, TodoistTracker, Request, Hooked, failed, ignored, deploy_started, queued,
  or_empty, text_or_empty,
}
use openronin.Webhooks.Rows.{IsQueued, upsert-HasTask, enqueue-IsQueued}
use openronin.Webhooks.Trackers.{
  JiraPayload, jira_events, jira_priority, on_jira_event, on_jira_payload, is_rejected,
  on_jira_tracker, on_jira_repo, on_jira_id, jira_webhook, config_of, TodoistPayload,
  todoist_events, todoist_id, todoist_priority, on_todoist_event,
}

module _ (bot_prefix : Text) (id_text : ℕ → String) where
  -- A refusal leaves the tables; a queued task is in the queue, and `A` holds of the event.
  abbrev pub IsTracked : Db → Priority → Type 0 → Hooked → Type 0
  IsTracked db priority A (db', failed status) = db' ≡ db
  IsTracked db priority A (db', ignored why) = db' ≡ db
  IsTracked db priority A (db', deploy_started input) = ⊥
  IsTracked db priority A (db', queued id lifted) = A × IsQueued db' id priority

  -- The event is signed, if the tracker has a secret.
  abbrev pub IsAccepted : {P : Type 0} → Request P → String → Type 0
  IsAccepted r secret = (secret ≡ "") ⊎ (r.verified secret ≡ true)

  accepted :
      {P : Type 0} (r : Request P) (secret : String)
      → is_rejected bot_prefix id_text secret r.verified ≡ false
      → IsAccepted r secret
  accepted r secret h = elim (Bool-cases (str_eq secret "")) [
    | inl e ↦ inl ((eq_iff secret "").0 e)
    | inr e ↦ inr (ground (arith, h, e))
  ]

  -- A created issue is of high priority, every other event of normal priority.
  abbrev pub HasPriority : String → Priority → Type 0
  HasPriority event p =
      ((event ≡ "jira:issue_created") × (p ≡ high))
      ⊎ ((event ≢ "jira:issue_created") × (p ≡ normal))

  jira_priority-HasPriority :
      (event : String) → HasPriority event (jira_priority bot_prefix id_text event)
  jira_priority-HasPriority event =
      if_case (HasPriority event) (str_eq event "jira:issue_created")
        (λ e. inl ((eq_iff event "jira:issue_created").0 e, refl))
        (λ e. inr ((λ same. ground (arith, e, (eq_iff event "jira:issue_created").1 same)), refl))

  -- the tracker of the request's repository has this of its secret
  abbrev pub HasJira : Db → List HookRepo → Request JiraPayload → Type 0
  HasJira db repos r =
      (id : ℕ) × (r.repo_id ≡ some id)
      × ((cfg : HookRepo) × (config_of db repos id ≡ some cfg)
          × (cfg.hidden ≡ false)
          × ((t : JiraTracker) × (cfg.jira_tracker ≡ some t) × IsAccepted r t.webhook_secret))

  abbrev pub event_of : Option JiraPayload → String
  event_of none = ""
  event_of (some p) = text_or_empty p.webhook_event

  on_jira_event-IsTracked :
      (db : Db) (cfg : HookRepo) (p : JiraPayload) (event key : String) (A : Type 0)
      → A
      → IsTracked db
          (jira_priority bot_prefix id_text event)
          A
          (on_jira_event bot_prefix id_text db cfg p event key)
  unfolding on_jira_event upsert_jira_task
  on_jira_event-IsTracked db cfg p event key A a =
      let ok = IsTracked db (jira_priority bot_prefix id_text event) A in
      if_intro ok (not (has_text event (jira_events bot_prefix id_text))) refl (
        if_intro ok (str_eq key "") refl (
          if_intro ok
            (str_eq event "jira:issue_commented"
              && is_bot_message bot_prefix (or_empty p.comment_body))
            refl (a, enqueue-IsQueued _ _ _ (upsert-HasTask _ _ _ _ _))))

  on_jira_payload-IsTracked :
      (db : Db) (cfg : HookRepo) (o : Option JiraPayload) (A : Type 0)
      → A
      → IsTracked db
          (jira_priority bot_prefix id_text (event_of o))
          A
          (on_jira_payload bot_prefix id_text db cfg o)
  on_jira_payload-IsTracked db cfg none A a = refl
  on_jira_payload-IsTracked db cfg (some p) A a = on_jira_event-IsTracked db cfg p _ _ A a

  on_jira_tracker-IsTracked :
      (db : Db) (repos : List HookRepo) (id : ℕ) (cfg : HookRepo) (r : Request JiraPayload)
      (o : Option JiraTracker)
      → r.repo_id ≡ some id
      → config_of db repos id ≡ some cfg
      → cfg.jira_tracker ≡ o
      → IsTracked db
          (jira_priority bot_prefix id_text (event_of r.payload))
          (HasJira db repos r)
          (on_jira_tracker bot_prefix id_text db cfg r o)
  on_jira_tracker-IsTracked db repos id cfg r none e c j = refl
  on_jira_tracker-IsTracked db repos id cfg r (some t) e c j =
      let ok =
        IsTracked db (jira_priority bot_prefix id_text (event_of r.payload)) (HasJira db repos r) in
      if_case ok cfg.hidden (λ _. refl)
        (λ hidden.
          if_case ok (is_rejected bot_prefix id_text t.webhook_secret r.verified) (λ _. refl)
            (λ good.
              on_jira_payload-IsTracked db cfg r.payload _
                (id, e, (cfg, c, hidden, (t, j, accepted r t.webhook_secret good)))))

  on_jira_repo-IsTracked :
      (db : Db) (repos : List HookRepo) (id : ℕ) (r : Request JiraPayload) (o : Option HookRepo)
      → r.repo_id ≡ some id
      → config_of db repos id ≡ o
      → IsTracked db
          (jira_priority bot_prefix id_text (event_of r.payload))
          (HasJira db repos r)
          (on_jira_repo bot_prefix id_text db r o)
  on_jira_repo-IsTracked db repos id r none e c = refl
  on_jira_repo-IsTracked db repos id r (some cfg) e c =
      on_jira_tracker-IsTracked db repos id cfg r cfg.jira_tracker e c refl

  on_jira_id-IsTracked :
      (db : Db) (repos : List HookRepo) (r : Request JiraPayload) (o : Option ℕ)
      → r.repo_id ≡ o
      → IsTracked db
          (jira_priority bot_prefix id_text (event_of r.payload))
          (HasJira db repos r)
          (on_jira_id bot_prefix id_text db repos r o)
  on_jira_id-IsTracked db repos r none e = refl
  on_jira_id-IsTracked db repos r (some id) e =
      on_jira_repo-IsTracked db repos id r (config_of db repos id) e refl

  -- An event of Jira that fails or is ignored leaves the tables as they were, and starts no deploy; one
  -- that queues a task is of a visible repository with a Jira tracker, signed if the tracker has a
  -- secret, and the task's row is pending with no due date, at high priority for a created issue and at
  -- normal priority otherwise.
  pub jira_webhook-IsTracked :
      (db : Db) (repos : List HookRepo) (r : Request JiraPayload)
      → (priority : Priority) × HasPriority (event_of r.payload) priority
        × IsTracked db priority (HasJira db repos r) (jira_webhook bot_prefix id_text db repos r)
  unfolding jira_webhook
  jira_webhook-IsTracked db repos r = (
    _,
    jira_priority-HasPriority (event_of r.payload),
    on_jira_id-IsTracked db repos r r.repo_id refl,
  )

  -- The event names the tracker's project or none, a task has the label that the tracker filters by,
  -- and a comment is not one of our own.
  abbrev pub PassesFilters : TodoistTracker → TodoistPayload → String → Type 0
  PassesFilters t p event =
      (not (str_eq (text_or_empty p.project_id) "")
          && not (str_eq (text_or_empty p.project_id) t.project_id)
        ≡ false)
      × (not (str_eq t.label_filter "")
            && (not (str_eq event "note:added")
                && not (has_text t.label_filter (or_empty p.labels)))
          ≡ false)
      × (str_eq event "note:added" && is_bot_message bot_prefix (or_empty p.content) ≡ false)

  -- An event of Todoist that is ignored leaves the tables as they were; one that queues a task passed
  -- the tracker's filters, and the task's row is pending with no due date, at high priority for an
  -- added item and at normal priority otherwise.
  pub on_todoist_event-IsTracked :
      (db : Db) (cfg : HookRepo) (t : TodoistTracker) (p : TodoistPayload) (event : String)
      → IsTracked db
          (todoist_priority bot_prefix id_text event)
          (PassesFilters t p event)
          (on_todoist_event bot_prefix id_text db cfg t p event)
  unfolding on_todoist_event upsert_todoist_task
  on_todoist_event-IsTracked db cfg t p event =
      let ok = IsTracked db (todoist_priority bot_prefix id_text event) (PassesFilters t p event) in
      let is_note = str_eq event "note:added" in
      let project = text_or_empty p.project_id in
      if_intro ok (not (has_text event (todoist_events bot_prefix id_text))) refl (
        if_intro ok (str_eq (todoist_id bot_prefix id_text is_note p) "") refl (
          if_case ok (not (str_eq project "") && not (str_eq project t.project_id)) (λ _. refl)
            (λ same_project.
              if_case ok
                (not (str_eq t.label_filter "")
                  && (not is_note && not (has_text t.label_filter (or_empty p.labels))))
                (λ _. refl)
                (λ labelled.
                  if_case ok (is_note && is_bot_message bot_prefix (or_empty p.content)) (λ _. refl)
                    (λ not_own. (
                      (same_project, labelled, not_own),
                      enqueue-IsQueued _ _ _ (upsert-HasTask _ _ _ _ _),
                    ))))))
