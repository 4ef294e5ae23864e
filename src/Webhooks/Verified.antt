-- ===== src/Webhooks/Verified.antt =====
-- What an event of GitHub can do (src/server/webhooks.ts).
use openronin.Common.{
  ℕ, zero, suc, String, Bool, true, false, not, ◌≡◌, refl, ap, Option, none, some, List, Text,
  if_case, if_intro, ◌&&◌, ◌||◌, arith, has_text, str_eq, subst, sym, All, ◌≤◌,
}
use openronin.Sql.Laws.{select-mem}
use openronin.Store.{Db, high}
use openronin.Store.Tasks.{get_repo_id, upsert_task}
use openronin.Store.Branches.{lift_transient_park}
use openronin.Webhooks.{
  HookRepo, Secret, failed, ignored, deploy_started, queued, Request, Hooked, secret_of,
  candidate_body, is_filled, GithubPayload, relevant_events, has_id, repo_with_id, is_disabled,
  is_empty, zero_sha, on_branch, on_push, is_own, lift_if, queue_github, on_number, on_github_repo,
  on_github_payload, on_github_secret, on_github_id, github_webhook, text_or_empty, route_github,
  start_deploy, Response,
}
use openronin.Store.Runs.{Deploy}
use openronin.Deploys.{DeployState, DeployResult, Spawned}
use openronin.Deploys.Finished.{IsFinished, run_deploy-IsFinished}
use openronin.Webhooks.Rows.{HasTask, IsQueued, upsert-HasTask, enqueue-IsQueued, ensure_repo-same}

-- The request names a repository with a secret, and its signature is good for that secret.
abbrev pub IsAuthentic : {P : Type 0} → List Secret → Request P → Type 0
IsAuthentic secrets r =
    (id : ℕ) × (r.repo_id ≡ some id)
    × ((s : Secret) × (secret_of secrets id ≡ some s) × (r.verified s.secret ≡ true))

module _ (bot_prefix : Text) (id_text : ℕ → String) (secrets : List Secret) where
  -- What the answer says of the tables but the deploys: a refusal and a deploy leave them, and a deploy
  -- of the target and a queued task come of an authentic request; the task is in the queue.
  abbrev pub IsRouted : Db → Option ℕ → Type 0 → Hooked → Type 0
  IsRouted db target authentic (db', failed status) = db' ≡ db
  IsRouted db target authentic (db', ignored why) = db' ≡ db
  IsRouted db target authentic (db', deploy_started input) =
      (db' ≡ db) × authentic × (some input.repo_id ≡ target)
  IsRouted db target authentic (db', queued id lifted) = authentic × IsQueued db' id high

  lift_if-HasTask :
      (b : Bool) (db : Db) (id now : ℕ)
      → HasTask db id
      → HasTask (lift_if bot_prefix id_text b db id now).0 id
  unfolding lift_transient_park
  lift_if-HasTask true db id now h = h
  lift_if-HasTask false db id now h = h

  queue_github-IsRouted :
      (db db₀ : Db) (cfg : HookRepo) (n : ℕ) (is_pr : Bool) (body : Text) (now : ℕ)
      (target : Option ℕ) (A : Type 0)
      → A
      → IsRouted db₀ target A (queue_github bot_prefix id_text db cfg n is_pr body now)
  unfolding queue_github upsert_task
  queue_github-IsRouted db db₀ cfg n is_pr body now target A a = (
    a,
    enqueue-IsQueued _ _ high
        (lift_if-HasTask (is_filled body && not is_pr) _ _ now (upsert-HasTask _ _ _ _ _)),
  )

  on_number-IsRouted :
      (db : Db) (cfg : HookRepo) (event : String) (p : GithubPayload) (now : ℕ) (o : Option ℕ)
      (target : Option ℕ) (A : Type 0)
      → A
      → IsRouted db target A (on_number bot_prefix id_text db cfg event p now o)
  on_number-IsRouted db cfg event p now none target A a = refl
  on_number-IsRouted db cfg event p now (some zero) target A a = refl
  on_number-IsRouted db cfg event p now (some (suc n)) target A a =
      if_intro (IsRouted db target A) (not (has_text event relevant_events)) refl (
        if_intro (IsRouted db target A)
          (is_own bot_prefix id_text (candidate_body p.comment_body p.review_body)) refl
          (queue_github-IsRouted db db cfg (suc n) p.is_pr _ now target A a))

  on_push-IsRouted :
      (db : Db) (cfg : HookRepo) (p : GithubPayload) (id : ℕ) (A : Type 0)
      → get_repo_id db cfg.ref ≡ some id
      → A
      → IsRouted db (some id) A (on_push db cfg p)
  unfolding on_push
  on_push-IsRouted db cfg p id A e a =
      let ok = IsRouted db (some id) A in
      let d = cfg.deploy in
      let sha = text_or_empty p.after in
      if_intro ok (is_disabled d.mode) refl (
        if_intro ok (is_empty d.commands) refl (
          if_intro ok (not (on_branch (text_or_empty p.ref) d.trigger_branch)) refl (
            if_intro ok
              (d.require_bot_push && not (str_eq (text_or_empty p.sender_login) d.bot_login)) refl
              (if_intro ok (str_eq sha "" || str_eq sha zero_sha) refl (
                ap (λ (x : Db × ℕ). x.0) (ensure_repo-same db cfg.ref id e),
                a,
                ap (λ (x : Db × ℕ). some x.1) (ensure_repo-same db cfg.ref id e),
              )))))

  on_github_repo-IsRouted :
      (db : Db) (event : String) (p : GithubPayload) (now : ℕ) (id : ℕ) (A : Type 0)
      (o : Option HookRepo)
      → ((cfg : HookRepo) → o ≡ some cfg → get_repo_id db cfg.ref ≡ some id)
      → A
      → IsRouted db (some id) A (on_github_repo bot_prefix id_text db event p now o)
  on_github_repo-IsRouted db event p now id A none e a = refl
  on_github_repo-IsRouted db event p now id A (some cfg) e a =
      if_intro (IsRouted db (some id) A) cfg.hidden refl (
        if_intro (IsRouted db (some id) A) (str_eq event "push")
          (on_push-IsRouted db cfg p id A (e cfg refl) a)
          (on_number-IsRouted db cfg event p now p.number (some id) A a))

  has_id-some : (id : ℕ) (o : Option ℕ) → has_id id o ≡ true → o ≡ some id
  has_id-some id none h = ground (arith, h)
  has_id-some id (some n) h = ap some (ground (arith, h))

  on_github_payload-IsRouted :
      (db : Db) (repos : List HookRepo) (id : ℕ) (event : String) (now : ℕ)
      (o : Option GithubPayload) (A : Type 0)
      → A
      → IsRouted db (some id) A (on_github_payload bot_prefix id_text db repos id event now o)
  unfolding repo_with_id
  on_github_payload-IsRouted db repos id event now none A a = refl
  on_github_payload-IsRouted db repos id event now (some p) A a =
      on_github_repo-IsRouted db event p now id A (repo_with_id db repos id)
        (λ cfg e. has_id-some id _ (select-mem _ repos e).1) a

  on_github_secret-IsRouted :
      (db : Db) (repos : List HookRepo) (id : ℕ) (r : Request GithubPayload) (now : ℕ)
      (o : Option Secret)
      → r.repo_id ≡ some id
      → secret_of secrets id ≡ o
      → IsRouted db r.repo_id
          (IsAuthentic secrets r)
          (on_github_secret bot_prefix id_text db repos id r now o)
  on_github_secret-IsRouted db repos id r now none e k = refl
  on_github_secret-IsRouted db repos id r now (some s) e k =
      if_case (IsRouted db r.repo_id (IsAuthentic secrets r)) (not (r.verified s.secret))
        (λ _. refl)
        (λ v.
          subst
            (λ (o : Option ℕ).
              IsRouted db o (IsAuthentic secrets r)
                (on_github_payload bot_prefix id_text db repos id r.event now r.payload))
            (sym e)
            (on_github_payload-IsRouted db repos id r.event now r.payload _
              (id, e, (s, k, ground (arith, v)))))

  on_github_id-IsRouted :
      (db : Db) (repos : List HookRepo) (r : Request GithubPayload) (now : ℕ) (o : Option ℕ)
      → r.repo_id ≡ o
      → IsRouted db r.repo_id
          (IsAuthentic secrets r)
          (on_github_id bot_prefix id_text db secrets repos r now o)
  on_github_id-IsRouted db repos r now none e = refl
  on_github_id-IsRouted db repos r now (some id) e =
      on_github_secret-IsRouted db repos id r now (secret_of secrets id) e refl

  route_github-IsRouted :
      (db : Db) (repos : List HookRepo) (r : Request GithubPayload) (now : ℕ)
      → IsRouted db r.repo_id
          (IsAuthentic secrets r)
          (route_github bot_prefix id_text db secrets repos r now)
  unfolding route_github
  route_github-IsRouted db repos r now = on_github_id-IsRouted db repos r now r.repo_id refl

  module _ (decimal : ℕ → Text) (spawn : List (List Text) → List Text → Spawned) (s : DeployState)
      (now later : ℕ) where
    -- What the answer says of the tables and the deploys.
    abbrev pub IsHandled : Db → Option ℕ → Type 0 → (Db × DeployState) × Response → Type 0
    IsHandled db target authentic ((db', s'), failed status) = (db' ≡ db) × (s' ≡ s)
    IsHandled db target authentic ((db', s'), ignored why) = (db' ≡ db) × (s' ≡ s)
    IsHandled db target authentic ((db', s'), deploy_started input) =
        (db' ≡ db)
        × authentic
        × (some input.repo_id ≡ target)
        × ((result : DeployResult) × IsFinished decimal spawn input now later s (s', result))
    IsHandled db target authentic ((db', s'), queued id lifted) =
        authentic × IsQueued db' id high × (s' ≡ s)

    start_deploy-IsHandled :
        (db : Db) (target : Option ℕ) (A : Type 0) (h : Hooked)
        → All (λ (d : Deploy). d.id ≤ s.seq) s.deploys
        → IsRouted db target A h
        → IsHandled db target A (start_deploy bot_prefix id_text decimal spawn s now later h)
    start_deploy-IsHandled db target A (db', failed status) ids e = (e, refl)
    start_deploy-IsHandled db target A (db', ignored why) ids e = (e, refl)
    start_deploy-IsHandled db target A (db', deploy_started input) ids (e, a, t) =
        (e, a, t, (_, run_deploy-IsFinished decimal spawn input now later s ids))
    start_deploy-IsHandled db target A (db', queued id lifted) ids (a, q) = (a, q, refl)

    -- The answer to an event of GitHub says what it did, where the ids of deploys are at most their
    -- counter: if it failed or was ignored, all tables are as they were; if it started a deploy, the
    -- request was signed with the secret of its repository, the deploys have one more row, of that
    -- repository and finished as the commands ended, and the other tables are as they were; if it
    -- queued a task, the request was signed, the task's row is pending at high priority with no due
    -- date, and the deploys are as they were.
    pub github_webhook-IsHandled :
        (db : Db) (repos : List HookRepo) (r : Request GithubPayload)
        → All (λ (d : Deploy). d.id ≤ s.seq) s.deploys
        → IsHandled db r.repo_id
            (IsAuthentic secrets r)
            (github_webhook bot_prefix id_text decimal spawn db s secrets repos r now later)
    unfolding github_webhook
    github_webhook-IsHandled db repos r ids =
        start_deploy-IsHandled db r.repo_id (IsAuthentic secrets r) _ ids
          (route_github-IsRouted db repos r now)
