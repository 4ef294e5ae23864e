-- ===== src/Director/Executor/Effects.antt =====
-- The attempts of `withTransientRetry` (src/director/executor.ts).
use openronin.Common.{
  ℕ, suc, ◌≤◌, ◌≡◌, inl, inr, ap, refl, Bool, true, false, none, List, [], ◌∷◌, ◌++◌, ◌∙◌, arith,
  Bool-cases, length, Text, String,
}
use openronin.Director.Types.{close_issue}
use openronin.Director.Executor.{
  State, Exec, Ran, ok, err, with_transient_retry, Vcs, VcsCall, resolved, refused, Reply,
  post_comment, close_item, run_decision, delays_ms,
}

module _ {A : Type 0} (is_transient : Text → Bool) (fn : Exec A) where
  -- `n` attempts in a row: all but the last failed with a transient error.
  pub data Tries : ℕ → State → Ran A → Type 0 where
    last : {s : State} {r : Ran A} → fn s ≡ r → Tries 1 s r
    again :
        {n : ℕ} {s s' : State} {e : Text} {r : Ran A}
        → fn s ≡ err e s'
        → is_transient e ≡ true
        → Tries n s' r
        → Tries (suc n) s r

  -- Why no further attempt is made, where at most `most` are.
  pub data Ends (n most : ℕ) : Ran A → Type 0 where
    success : (a : A) (s : State) → Ends n most (ok a s)
    terminal : (e : Text) (s : State) → is_transient e ≡ false → Ends n most (err e s)
    exhausted : (e : Text) (s : State) → n ≡ most → Ends n most (err e s)

  Ends-later : {n most : ℕ} (r : Ran A) → Ends n most r → Ends (suc n) (suc most) r
  Ends-later _ (success a s) = success a s
  Ends-later _ (terminal e s h) = terminal e s h
  Ends-later _ (exhausted e s h) = exhausted e s (ap suc h)

  suc_le : {m n : ℕ} → m ≤ n → suc m ≤ suc n
  suc_le h = omega arith

  Ends-once : (r : Ran A) → Ends 1 1 r
  Ends-once (ok a s) = success a s
  Ends-once (err e s) = exhausted e s refl

  -- what a run with these delays does from `s`, and what its result `r` tells of it
  pub record Retried (delays : List ℕ) (s : State) (r : Ran A) : Type 0 where
    pub attempts : ℕ
    pub bounded : attempts ≤ suc (length delays)
    pub tried : Tries attempts s r
    pub ended : Ends attempts (suc (length delays)) r

  Retried-once :
      (delays : List ℕ) (s : State) (r : Ran A)
      → fn s ≡ r
      → Ends 1 (suc (length delays)) r
      → Retried delays s r
  Retried-once delays s r h e = record {
    attempts = 1;
    bounded = omega arith;
    tried = last h;
    ended = e;
  }

  Retried-again :
      (d : ℕ) (ds : List ℕ) (s s' : State) (e : Text) (r : Ran A)
      → fn s ≡ err e s'
      → is_transient e ≡ true
      → Retried ds s' r
      → Retried (d ∷ ds) s r
  Retried-again d ds s s' e r h t ih = record {
    attempts = suc ih.attempts;
    bounded = suc_le ih.bounded;
    tried = again h t ih.tried;
    ended = Ends-later r ih.ended;
  }

  retry_step :
      (d : ℕ) (ds : List ℕ) (s : State)
      → ((s' : State) → Retried ds s' (with_transient_retry is_transient ds fn s'))
      → (r : Ran A) → fn s ≡ r
      → Retried (d ∷ ds) s (with_transient_retry is_transient (d ∷ ds) fn s)
  unfolding with_transient_retry
  retry_step d ds s ih (ok a s') h =
      rw (h, with_transient_retry) (Retried-once (d ∷ ds) s (ok a s') h (success a s'))
  retry_step d ds s ih (err e s') h = elim (Bool-cases (is_transient e)) [
    | inl t ↦
        rw (h, t, with_transient_retry)
          (Retried-again d ds s s' e (with_transient_retry is_transient ds fn s') h t (ih s'))
    | inr f ↦
        rw (h, f, with_transient_retry) (Retried-once (d ∷ ds) s (err e s') h (terminal e s' f))
  ]

  pub retry_err :
      (d : ℕ) (ds : List ℕ) (s s' : State) (e : Text)
      → fn s ≡ err e s'
      → is_transient e ≡ true
      → with_transient_retry is_transient (d ∷ ds) fn s ≡ with_transient_retry is_transient ds fn s'
  unfolding with_transient_retry
  retry_err d ds s s' e h t = rw (h, with_transient_retry) rw (t) refl

  -- A run with retries makes one attempt, and a further one after each transient error while a delay
  -- is left. It ends at the first success, at the first error that is not transient, or when the
  -- delays are used up, and its result is that of the last attempt.
  pub with_transient_retry-Retried :
      (delays : List ℕ) (s : State)
      → Retried delays s (with_transient_retry is_transient delays fn s)
  unfolding with_transient_retry
  with_transient_retry-Retried [] s = Retried-once [] s (fn s) refl (Ends-once (fn s))
  with_transient_retry-Retried (d ∷ ds) s =
      retry_step d ds s (λ s'. with_transient_retry-Retried ds s') (fn s) refl

-- a provider that posts comments and answers every close with the same transient error
pub record CannotClose (vcs : Vcs) (number : ℕ) (reason : String) : Type 0 where
  pub built : vcs.not_built ≡ none
  pub posted : Reply
  pub posts : (log : List VcsCall) → vcs.answer log (post_comment number reason) ≡ resolved posted
  pub timeout : Text
  pub closes : (log : List VcsCall) → vcs.answer log (close_item number) ≡ refused timeout
  pub retried : vcs.is_transient timeout ≡ true

module _ (vcs : Vcs) (number : ℕ) (reason : String) (h : CannotClose vcs number reason) where
  abbrev pub after_close : State → State
  after_close s = record s {
    log = (s.log ++ post_comment number reason ∷ []) ++ close_item number ∷ [];
  }

  one_close :
      (decision_id repo_id : ℕ) (s : State)
      → run_decision vcs decision_id repo_id (close_issue number reason) s
        ≡ err h.timeout (after_close s)
  unfolding run_decision
  one_close decision_id repo_id s = rw (h.built, h.posts, h.closes) refl

  -- Where the comment can be posted and every close fails with a transient error, executing a
  -- close_issue posts its comment four times, once before each try to close.
  pub with_transient_retry-close_issue :
      (decision_id repo_id : ℕ) (s : State)
      → with_transient_retry vcs.is_transient delays_ms
          (run_decision vcs decision_id repo_id (close_issue number reason))
          s
        ≡ err h.timeout (after_close (after_close (after_close (after_close s))))
  unfolding with_transient_retry
  with_transient_retry-close_issue decision_id repo_id s =
      let fn = run_decision vcs decision_id repo_id (close_issue number reason) in
      let next = λ (d : ℕ) (ds : List ℕ) (s : State).
        retry_err vcs.is_transient fn d ds s (after_close s) h.timeout
          (one_close decision_id repo_id s) h.retried in
      next 1000 (5000 ∷ 20_000 ∷ []) s
      ∙ next 5000 (20_000 ∷ []) (after_close s)
      ∙ next 20_000 [] (after_close (after_close s))
      ∙ one_close decision_id repo_id (after_close (after_close (after_close s)))
