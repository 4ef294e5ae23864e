-- ===== src/Patch/Pushes.antt =====
-- What reaches the remote repository (src/lanes/patch.ts).
use openronin.Common.{
  ℕ, ◌+◌, String, Bool, true, false, not, ◌≡◌, ◌≢◌, ◌⊎◌, inl, inr, refl, sym, ◌∙◌, ap, Option, none,
  some, List, [], ◌∷◌, ◌++◌, Text, arith, if_intro, str_eq, is_some,
}
use openronin.Store.{Branch}
use openronin.Patch.Base.{
  DiffStats, Blocked, check_guardrails, touched, PatchOutcome, pr_opened, PatchResult, Why, Tried,
  done, threw, Workdir, Leftover, clean, commit_failed, still_dirty, Effect, pushed, pr_requested,
  told_failed, told_blocked, label_removed, cleaned_up, leftovers_committed, agent_ran,
  acknowledged, PatchRepo, PatchItem, PatchState,
}
use openronin.Patch.{
  run_patch, on_existing, on_clone, on_checkout, on_agent, on_worktree, on_leftover, on_dirty,
  on_head, on_committed, on_guardrails, on_threw,
}

-- how often the remote was written to
abbrev pub writes_one : Effect → ℕ
writes_one pushed = 1
writes_one pr_requested = 1
writes_one _ = 0

abbrev pub remote_writes : List Effect → ℕ
remote_writes [] = 0
remote_writes (e ∷ es) = writes_one e + remote_writes es

remote_writes-append :
    (xs ys : List Effect) → remote_writes (xs ++ ys) ≡ remote_writes xs + remote_writes ys
remote_writes-append [] ys = omega arith
remote_writes-append (x ∷ xs) ys = omega (arith, remote_writes-append xs ys)

remote_writes-local :
    (xs : List Effect) (e : Effect)
    → writes_one e ≡ 0
    → remote_writes (xs ++ e ∷ []) ≡ remote_writes xs
remote_writes-local xs e h = omega (arith, remote_writes-append xs (e ∷ []), h)

-- the log after a refusal that is told
told_locally :
    (xs : List Effect) (e : Effect)
    → writes_one e ≡ 0
    → remote_writes (((xs ++ e ∷ []) ++ label_removed ∷ []) ++ cleaned_up ∷ []) ≡ remote_writes xs
told_locally xs e h =
    remote_writes-local _ cleaned_up refl
    ∙ remote_writes-local _ label_removed refl
    ∙ remote_writes-local xs e h

-- whether a pull request was opened
abbrev is_opened : PatchOutcome → Bool
is_opened pr_opened = true
is_opened _ = false

not-opened : (o : PatchOutcome) → is_opened o ≡ false → o ≢ pr_opened
not-opened o h e = ground (arith, sym h ∙ ap is_opened e)

module _ (numbered : String → ℕ → String) (detail_text : Why → Text) (decision_text : Why → String)
    (short : String → String) (w : Workdir) (repo : PatchRepo) (now : ℕ) where
  -- The committed diff passed the guardrails.
  abbrev pub HasPassed : Type 0
  HasPassed =
      (stats : DiffStats) × (w.committed ≡ done stats)
      × (check_guardrails stats repo.protected_paths repo.max_diff_lines ≡ none)

  -- A run from `s` that has written nothing to the remote, or whose diff has passed; a pull request was
  -- opened only in the second case.
  abbrev pub IsGuarded : PatchState → PatchState × PatchResult → Type 0
  IsGuarded s r =
      HasPassed ⊎ ((remote_writes (r.0).log ≡ remote_writes s.log) × ((r.1).outcome ≢ pr_opened))

  -- nothing more was written to the remote
  abbrev Same : PatchState → PatchState → Type 0
  Same s s' = remote_writes s'.log ≡ remote_writes s.log

  on_threw-IsGuarded :
      (s s' : PatchState) (id : ℕ) (branch : String) (m : Text)
      → Same s s'
      → IsGuarded s (on_threw numbered detail_text decision_text short w repo now id branch m s')
  on_threw-IsGuarded s s' id branch m e =
      inr (told_locally s'.log told_failed refl ∙ e, not-opened _ refl)

  on_guardrails-IsGuarded :
      (s s' : PatchState) (id : ℕ) (branch base head : String) (o : Option Blocked)
      → Same s s'
      → (o ≡ none → HasPassed)
      → IsGuarded s (
          on_guardrails numbered detail_text decision_text short w repo now id branch base head o
            s')
  on_guardrails-IsGuarded s s' id branch base head none e p = inl (p refl)
  on_guardrails-IsGuarded s s' id branch base head (some b) e p =
      inr (told_locally s'.log told_blocked refl ∙ e, not-opened _ refl)

  on_committed-IsGuarded :
      (s s' : PatchState) (id : ℕ) (branch base head : String) (o : Tried DiffStats)
      → w.committed ≡ o
      → Same s s'
      → IsGuarded s (
          on_committed numbered detail_text decision_text short w repo now id branch base head o s')
  on_committed-IsGuarded s s' id branch base head (threw m) c e =
      on_threw-IsGuarded s s' id branch m e
  on_committed-IsGuarded s s' id branch base head (done stats) c e =
      on_guardrails-IsGuarded s s' id branch base head _ e (λ passed. (stats, c, passed))

  on_head-IsGuarded :
      (s s' : PatchState) (id : ℕ) (branch base head : String)
      → Same s s'
      → IsGuarded s
          (on_head numbered detail_text decision_text short w repo now id branch base head s')
  unfolding on_head
  on_head-IsGuarded s s' id branch base head e =
      if_intro (IsGuarded s) (str_eq head base)
        (inr (told_locally s'.log told_failed refl ∙ e, not-opened _ refl))
        (on_committed-IsGuarded s s' id branch base head w.committed refl e)

  on_dirty-IsGuarded :
      (s s' : PatchState) (id : ℕ) (branch base head : String)
      → Same s s'
      → IsGuarded s
          (on_dirty numbered detail_text decision_text short w repo now id branch base head s')
  on_dirty-IsGuarded s s' id branch base head e =
      inr (told_locally s'.log told_blocked refl ∙ e, not-opened _ refl)

  on_leftover-IsGuarded :
      (s s' : PatchState) (id : ℕ) (branch base head : String) (l : Leftover)
      → Same s s'
      → IsGuarded s
          (on_leftover numbered detail_text decision_text short w repo now id branch base head l s')
  on_leftover-IsGuarded s s' id branch base head (clean sha) e =
      on_head-IsGuarded s s' id branch base sha e
  on_leftover-IsGuarded s s' id branch base head commit_failed e =
      on_dirty-IsGuarded s s' id branch base head e
  on_leftover-IsGuarded s s' id branch base head still_dirty e =
      on_dirty-IsGuarded s s' id branch base head e

  on_worktree-IsGuarded :
      (s s' : PatchState) (id : ℕ) (branch base head : String) (stats : DiffStats)
      → Same s s'
      → IsGuarded s (
          on_worktree numbered detail_text decision_text short w repo now id branch base head stats
            s')
  unfolding on_worktree
  on_worktree-IsGuarded s s' id branch base head stats e =
      if_intro (IsGuarded s) (not stats.has_changes) (on_head-IsGuarded s s' id branch base head e)
        (if_intro (IsGuarded s) (is_some (touched stats.files_changed repo.protected_paths))
          (on_dirty-IsGuarded s s' id branch base head e)
          (on_leftover-IsGuarded s _ id branch base head w.leftover
            (remote_writes-local s'.log leftovers_committed refl ∙ e)))

  on_agent-IsGuarded :
      (s s' : PatchState) (id : ℕ) (branch base : String) (o : Tried (String × DiffStats))
      → Same s s'
      → IsGuarded s
          (on_agent numbered detail_text decision_text short w repo now id branch base o s')
  on_agent-IsGuarded s s' id branch base (threw m) e = on_threw-IsGuarded s s' id branch m e
  on_agent-IsGuarded s s' id branch base (done (head, stats)) e =
      on_worktree-IsGuarded s _ id branch base head stats
        (remote_writes-local s'.log agent_ran refl ∙ e)

  on_checkout-IsGuarded :
      (s s' : PatchState) (id : ℕ) (branch base : String) (o : Tried (Unit {0}))
      → Same s s'
      → IsGuarded s
          (on_checkout numbered detail_text decision_text short w repo now id branch base o s')
  on_checkout-IsGuarded s s' id branch base (threw m) e = on_threw-IsGuarded s s' id branch m e
  on_checkout-IsGuarded s s' id branch base (done _) e =
      on_agent-IsGuarded s s' id branch base w.agent e

  on_clone-IsGuarded :
      (s s' : PatchState) (id : ℕ) (branch : String) (o : Tried String)
      → Same s s'
      → IsGuarded s (on_clone numbered detail_text decision_text short w repo now id branch o s')
  on_clone-IsGuarded s s' id branch (threw m) e = on_threw-IsGuarded s s' id branch m e
  on_clone-IsGuarded s s' id branch (done base) e =
      on_checkout-IsGuarded s s' id branch base w.checked_out e

  on_existing-IsGuarded :
      (s s' : PatchState) (id : ℕ) (branch : String) (o : Option Branch)
      → Same s s'
      → IsGuarded s (on_existing numbered detail_text decision_text short w repo now id branch o s')
  on_existing-IsGuarded s s' id branch (some b) e = inr (e, not-opened _ refl)
  on_existing-IsGuarded s s' id branch none e =
      on_clone-IsGuarded s _ id branch w.base_sha (remote_writes-local s'.log acknowledged refl ∙ e)

  -- Whatever git, the agent and the host answer, a run of the patch lane pushes a branch or asks for a
  -- pull request only if the committed diff passed the guardrails, and only then it reports an opened
  -- pull request.
  pub run_patch-IsGuarded :
      (item : PatchItem) (s : PatchState)
      → IsGuarded s (run_patch numbered detail_text decision_text short w repo now item s)
  unfolding run_patch
  run_patch-IsGuarded item s =
      if_intro (IsGuarded s) (not repo.has_lane) (inr (refl, not-opened _ refl)) (
        if_intro (IsGuarded s) (not repo.has_token) (inr (refl, not-opened _ refl))
          (on_existing-IsGuarded s _ _ _ _ refl))
