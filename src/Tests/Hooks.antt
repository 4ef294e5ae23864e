-- ===== src/Tests/Hooks.antt =====
-- Events of the webhooks, and our own messages, on concrete data.
use openronin.Common.{ℕ, String, true, false, none, some, [], ◌∷◌, Text, codes, List}
use openronin.Webhooks.{HookRepo, DeployMode, Secret, Request, GithubPayload, github_webhook}
use openronin.Webhooks.Verified.{IsAuthentic, IsHandled, github_webhook-IsHandled}
use openronin.Webhooks.Trackers.{JiraPayload, jira_webhook}
use openronin.Webhooks.Trackers.Handled.{
  IsTracked, HasJira, HasPriority, event_of, jira_webhook-IsTracked,
}
use openronin.Store.{Priority}
use openronin.Tests.Data.{shop}
use openronin.Tests.Deploying.{one_digit, second_fails, no_deploys}

abbrev bot : Text
bot = codes "bot:"

abbrev seven : ℕ → String
seven n = "7"

abbrev hook_repo : HookRepo
hook_repo = record {
  ref = record { provider = "github"; owner = "acme"; name = "shop" };
  hidden = false;
  deploy = record {
    mode = DeployMode.local;
    trigger_branch = "main";
    bot_login = "bot";
    require_bot_push = true;
    commands = codes "pull" ∷ codes "make" ∷ [];
    ssh = none;
  };
  jira_tracker = some (record { webhook_secret = "s" });
  todoist_tracker = none;
}

abbrev secrets : List Secret
secrets = record { repo_id = 1; secret = "s" } ∷ []

-- the bot pushes to the branch that is deployed
abbrev a_push : Request GithubPayload
a_push = record {
  repo_id = some 1;
  event = "push";
  verified = λ s. true;
  payload = some (record {
    number = none;
    is_pr = false;
    comment_body = none;
    review_body = none;
    ref = some "refs/heads/main";
    after = some "abc";
    sender_login = some "bot";
  });
}

github_webhook-IsHandled_example :
    IsHandled bot seven secrets one_digit second_fails no_deploys 1000 2000 shop
      (some 1)
      (IsAuthentic secrets a_push)
      (github_webhook bot seven one_digit second_fails shop no_deploys secrets
        (hook_repo ∷ [])
        a_push
        1000
        2000)
github_webhook-IsHandled_example =
    github_webhook-IsHandled bot seven secrets one_digit second_fails no_deploys 1000 2000 shop
      (hook_repo ∷ []) a_push tt

abbrev created : Request JiraPayload
created = record {
  repo_id = some 1;
  event = "";
  verified = λ s. true;
  payload = some (record {
    webhook_event = some "jira:issue_created";
    issue_key = some "AC-7";
    comment_body = none;
  });
}

jira_webhook-IsTracked_example :
    (priority : Priority) × HasPriority bot seven (event_of bot seven created.payload) priority
    × IsTracked bot seven shop priority
        (HasJira bot seven shop (hook_repo ∷ []) created)
        (jira_webhook bot seven shop (hook_repo ∷ []) created)
jira_webhook-IsTracked_example = jira_webhook-IsTracked bot seven shop (hook_repo ∷ []) created
