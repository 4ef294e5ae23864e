-- ===== src/Tests/Patching.antt =====
-- A run of the patch lane on concrete data.
use openronin.Common.{ℕ, ◌+◌, ◌≤◌, String, ◌≡◌, ◌↔◌, false, true, none, [], ◌∷◌, All, Text, codes}
use openronin.Store.{issue}
use openronin.Patch.Base.{
  DiffStats, Workdir, done, still_dirty, PatchRepo, PatchItem, PatchState, check_guardrails, Why,
}
use openronin.Patch.{run_patch}
use openronin.Patch.Guards.{IsFree, check_guardrails_iff}
use openronin.Patch.Pushes.{IsGuarded, run_patch-IsGuarded}
use openronin.Tests.Data.{shop}

abbrev small : DiffStats
small = record {
  has_changes = true;
  files_changed = codes "src/a.ts" ∷ [];
  lines_added = 3;
  lines_removed = 1;
}

check_guardrails_iff_example :
    (check_guardrails small (codes ".github/" ∷ []) 500 ≡ none)
    ↔ ((3 + 1 ≤ 500) × All (IsFree (codes ".github/" ∷ [])) (codes "src/a.ts" ∷ []))
check_guardrails_iff_example = check_guardrails_iff small (codes ".github/" ∷ []) 500

abbrev tidy : DiffStats
tidy = record { has_changes = false; files_changed = []; lines_added = 0; lines_removed = 0 }

abbrev a_workdir : Workdir
a_workdir = record {
  base_sha = done "aaa";
  checked_out = done tt;
  agent = done ("bbb", tidy);
  leftover = still_dirty;
  committed = done small;
  push = done tt;
  pull_request = done (8, "u");
}

abbrev a_repo : PatchRepo
a_repo = record {
  ref = record { provider = "github"; owner = "acme"; name = "shop" };
  has_lane = true;
  has_token = true;
  protected_paths = codes ".github/" ∷ [];
  max_diff_lines = 500;
}

abbrev an_issue : PatchItem
an_issue = record { id_text = "7"; kind = issue; base_branch = "openronin/7-retry" }

abbrev idle : PatchState
idle = record { db = shop; log = [] }

abbrev second : String → ℕ → String
second base n = "openronin/7-retry-2"

abbrev no_text : Why → Text
no_text why = []

abbrev no_json : Why → String
no_json why = "{}"

abbrev whole : String → String
whole sha = sha

run_patch-IsGuarded_example :
    IsGuarded second no_text no_json whole a_workdir a_repo 1000 idle
      (run_patch second no_text no_json whole a_workdir a_repo 1000 an_issue idle)
run_patch-IsGuarded_example =
    run_patch-IsGuarded second no_text no_json whole a_workdir a_repo 1000 an_issue idle
