-- ===== src/Tests/Directing.antt =====
-- Carrying out decisions on concrete data.
use openronin.Common.{◌≡◌, ◌⊎◌, refl, true, [], ◌∷◌, codes}
use openronin.Director.Types.{full_auto, close_issue}
use openronin.Director.Executor.{
  post_comment, close_item, execute_decision, run_decision, with_transient_retry, delays_ms, err,
}
use openronin.Director.Executor.Gates.{Permitted, Unattended, execute_decision-calls}
use openronin.Director.Executor.Effects.{
  Retried, with_transient_retry-Retried, CannotClose, with_transient_retry-close_issue,
}
use openronin.Tests.Provider.{a_reply, slow_vcs, all_flags, a_context, proposed, merging}

execute_decision-calls_example :
    ((execute_decision (a_context full_auto) 1 1 merging (proposed merging)).0.log ≡ [])
    ⊎ (Permitted merging all_flags × Unattended merging full_auto)
execute_decision-calls_example =
    execute_decision-calls (a_context full_auto) 1 1 merging (proposed merging)

with_transient_retry-Retried_example :
    Retried
      (λ _. true)
      (run_decision slow_vcs 1 1 merging)
      delays_ms
      (proposed merging)
      (with_transient_retry
        (λ _. true)
        delays_ms
        (run_decision slow_vcs 1 1 merging)
        (proposed merging))
with_transient_retry-Retried_example =
    with_transient_retry-Retried (λ _. true) (run_decision slow_vcs 1 1 merging) delays_ms
      (proposed merging)

cannot_close : CannotClose slow_vcs 7 "stale"
cannot_close = record {
  built = refl;
  posted = a_reply;
  posts = λ _. refl;
  timeout = codes "timeout";
  closes = λ _. refl;
  retried = refl;
}

with_transient_retry-close_issue_example :
    with_transient_retry
      (λ _. true)
      delays_ms
      (run_decision slow_vcs 1 1 (close_issue 7 "stale"))
      (proposed merging)
    ≡ err (codes "timeout") (record (proposed merging) {
      log =
          post_comment 7 "stale"
          ∷ close_item 7
          ∷ post_comment 7 "stale"
          ∷ close_item 7
          ∷ post_comment 7 "stale"
          ∷ close_item 7
          ∷ post_comment 7 "stale"
          ∷ close_item 7
          ∷ [];
    })
unfolding cannot_close
with_transient_retry-close_issue_example =
    with_transient_retry-close_issue slow_vcs 7 "stale" cannot_close 1 1 (proposed merging)
