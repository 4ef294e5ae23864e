-- ===== src/Tests/Branches.antt =====
-- Recorded branches on concrete data.
use openronin.Common.{none, some, [], ◌∷◌, All}
use openronin.Stamp.{sql_datetime}
use openronin.Store.{Db, Branch, BranchStatus}
use openronin.Store.Branches.{NewBranch, record_pr_branch}
use openronin.Store.Branches.Rows.{HasArgs, record_pr_branch-HasArgs}
use openronin.Tests.Data.{shop}

abbrev a_branch : Branch
a_branch = record {
  id = 1;
  task_id = 2;
  branch = "ronin/7";
  base_sha = none;
  head_sha = none;
  pr_number = some 8;
  pr_url = some "u";
  status = BranchStatus.error;
  iterations = 0;
  conflict_resolutions_count = 0;
  last_error = none;
  created_at = sql_datetime 0;
  updated_at = none;
}

abbrev branched : Db
branched = record shop { branches = a_branch ∷ []; branch_seq = 1 }

-- what a lane passes when it fails before it has a pull request
abbrev failed_again : NewBranch
failed_again = record {
  task_id = 2;
  branch = "ronin/7";
  base_sha = none;
  head_sha = none;
  pr_number = none;
  pr_url = none;
  status = some BranchStatus.error;
  last_error = none;
}

record_pr_branch-HasArgs_example :
    All (HasArgs failed_again) (record_pr_branch branched failed_again 1000).branches
record_pr_branch-HasArgs_example = record_pr_branch-HasArgs branched failed_again 1000
