-- ===== src/Tests/Provider.antt =====
-- A provider, a context and a proposal.
use openronin.Common.{true, none, [], ◌∷◌, codes}
use openronin.Director.Types.{Mode, Authority, Payload, merge_pr, squash, Outcome}
use openronin.Director.Executor.{
  State, Context, Vcs, VcsCall, close_item, Answer, resolved, refused, Reply,
}

abbrev pub a_reply : Reply
a_reply = record { number = 7; url = "u"; merged = true; sha = none; reason = none }

abbrev pub answers : VcsCall → Answer
answers (close_item _) = refused (codes "timeout")
answers _ = resolved a_reply

-- a provider that cannot close
abbrev pub slow_vcs : Vcs
slow_vcs = record { answer = λ _ c. answers c; not_built = none; is_transient = λ _. true }

abbrev pub all_flags : Authority
all_flags = record {
  can_create_issues = true;
  can_label = true;
  can_close_issues = true;
  can_comment = true;
  can_approve_pr = true;
  can_merge = true;
  can_modify_charter = true;
}

abbrev pub a_context : Mode → Context
a_context mode = record { vcs = slow_vcs; mode = mode; authority = all_flags; now = 1000 }

abbrev pub proposed : Payload → State
proposed p = record {
  log = [];
  db = record {
    clock = 1000;
    decisions =
        record {
          id = 1;
          repo_id = 1;
          ts = 0;
          rationale = "because";
          payload = p;
          payload_hash = none;
          outcome = Outcome.pending;
          outcome_ts = none;
          outcome_details = none;
        }
        ∷ [];
    decision_seq = 1;
    messages = [];
    message_seq = 0;
    notes = [];
    note_seq = 0;
  };
}

abbrev pub merging : Payload
merging = merge_pr 7 squash
