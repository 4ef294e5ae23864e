-- ===== src/Lane/Laws.antt =====
-- Lemmas on `pickLane` (src/scheduler/worker.ts).
use openronin.Common.{
  ℕ, String, ◌≡◌, ◌≢◌, ◌⊎◌, ◌↔◌, Bool-cases, inl, inr, refl, true, false, Option, none, some, ap,
  sym, arith, has_text, eq_iff, Bool, List, [], ◌∷◌, All, Memᴰ, All-mem, ◌≤◌, ◌==◌,
}
use openronin.Sql.{first_by, select_all, select}
use openronin.Sql.Order.{IsOrder, first_by-IsLeast}
use openronin.Sql.Laws.{mem-select_all, select_all-mem}
use openronin.Store.Tasks.{is_task}
use openronin.Store.{Db, issue, pull_request, Branch, BranchStatus, Task}
use openronin.Lane.{
  Lane, analyze, deep_review, patch, patch_multi, pr_dialog, RepoConfig, Item, ItemState, Stored,
  includes, is_parked, stored_decision, pick_lane, analyze_first, is_word, is_closed,
  terminal_branch,
}
use openronin.Store.Branches.{get_pr_branch_by_pr_number, get_pr_branch_by_task, newer}

newer-IsOrder : IsOrder newer
newer-IsOrder = record {
  total = λ a b h. ground (arith, h);
  trans = λ a b c h k. ground (arith, h, k);
}

first_by-select_all :
    (p : Branch → Bool) (leq : Branch → Branch → Bool) (xs : List Branch)
    → first_by leq (select_all p xs) ≡ none
    → All (λ (b : Branch). p b ≡ false) xs
unfolding first_by select_all
first_by-select_all p leq [] h = tt
first_by-select_all p leq (x ∷ xs) h = elim (Bool-cases (p x)) [
  | inl e ↦ ground (arith, (rw (e, select_all) at h))
  | inr e ↦ (e, first_by-select_all p leq xs (rw (e, select_all) at h))
]

-- The task has no branch, or its newest one, the one with the greatest id, does not wait for a human.
abbrev pub IsFree : Db → ℕ → Type 0
IsFree db task_id =
    All (λ (b : Branch). (b.task_id == task_id) ≡ false) db.branches
    ⊎ ((b : Branch) × Memᴰ b db.branches
        × (b.task_id ≡ task_id)
        × ((c : Branch) → Memᴰ c db.branches → c.task_id ≡ task_id → c.id ≤ b.id)
        × (b.status ≢ BranchStatus.guardrail_blocked)
        × (b.status ≢ BranchStatus.no_changes)
        × (b.status ≢ BranchStatus.needs_human))

module _ (parse : String → Option Stored) (repo : RepoConfig) (item : Item) (db : Db) where
  -- A lane is picked only if the repository's configuration lists it; `deep_review` never is.
  pub pick_lane-configured :
      (repo_id number : ℕ) (external_id : String) {lane : Lane}
      → pick_lane parse repo item db repo_id number external_id ≡ some lane
      → (includes repo.lanes lane ≡ true) × (lane ≢ deep_review)
  unfolding pick_lane analyze_first
  pick_lane-configured repo_id number external_id h = ground arith

  IsFree-branch :
      (t : Task) (o : Option Branch)
      → get_pr_branch_by_task db t.id ≡ o
      → terminal_branch o ≡ false
      → IsFree db t.id
  unfolding get_pr_branch_by_task
  IsFree-branch t none e h =
      inl (first_by-select_all (λ (b : Branch). b.task_id == t.id) newer db.branches e)
  IsFree-branch t (some b) e h =
      let (found, newest) = first_by-IsLeast newer-IsOrder _ e in
      let (m, own) = mem-select_all (λ (x : Branch). x.task_id == t.id) db.branches found in
      inr (
        b,
        m,
        ground (arith, own),
        (λ c k same. ground (
          arith,
          All-mem (λ (x : Branch). newer b x ≡ true) _ newest
              (select_all-mem (λ (x : Branch). x.task_id == t.id) db.branches k
                (ground (arith, same))),
        )),
        ground (arith, h),
        ground (arith, h),
        ground (arith, h),
      )

  is_parked-IsFree :
      (repo_id : ℕ) (external_id : String)
      → is_parked db repo_id external_id ≡ false
      → (t : Task) → select (is_task repo_id external_id) db.tasks ≡ some t
      → IsFree db t.id
  unfolding is_parked
  is_parked-IsFree repo_id external_id h t e = IsFree-branch t _ refl (rw (e, is_parked) at h)

  -- What must hold before code is written for an issue.
  pub record MayPatch (repo_id : ℕ) (external_id : String) : Type 0 where
    pub an_issue : item.kind ≡ issue
    pub is_open : item.state ≡ ItemState.opened
    pub labelled : has_text repo.patch_trigger_label item.labels ≡ true
    pub not_parked :
        (t : Task) → select (is_task repo_id external_id) db.tasks ≡ some t → IsFree db t.id
    pub analysed :
        (includes repo.lanes analyze ≡ false)
        ⊎ ((stored : Stored) × (stored_decision parse db repo_id external_id ≡ some stored)
            × (stored.lane ≡ some "analyze")
            × (stored.state ≡ some "ready"))

  word : (w : String) (o : Option String) → is_word w o ≡ true → o ≡ some w
  word w none h = cc
  word w (some v) h = ap some ((eq_iff v w).0 h)

  ready_stored :
      (o : Option Stored) {lane : Lane}
      → analyze_first repo o ≡ lane
      → lane ≢ analyze
      → (stored : Stored) × (o ≡ some stored)
        × (stored.lane ≡ some "analyze")
        × (stored.state ≡ some "ready")
  unfolding analyze_first
  ready_stored none h ne = absurd (ne (sym h))
  ready_stored (some s) h ne =
      (s, refl, word "analyze" s.lane (ground arith), word "ready" s.state (ground arith))

  asked_analyst :
      (repo_id number : ℕ) (external_id : String) (lane : Lane)
      → pick_lane parse repo item db repo_id number external_id ≡ some lane
      → (lane ≡ patch) ⊎ (lane ≡ patch_multi)
      → includes repo.lanes analyze ≡ true
      → analyze_first repo (stored_decision parse db repo_id external_id) ≡ lane
  unfolding pick_lane
  asked_analyst repo_id number external_id lane h p e = ground arith

  -- A patch lane is picked only for an open issue that carries the trigger label, whose stored task has
  -- no branch or a newest one that is not guardrail_blocked, no_changes or needs_human, and that the
  -- analyst, where the repository uses one, has marked ready.
  pub pick_lane-MayPatch :
      (repo_id number : ℕ) (external_id : String) (lane : Lane)
      → pick_lane parse repo item db repo_id number external_id ≡ some lane
      → (lane ≡ patch) ⊎ (lane ≡ patch_multi)
      → MayPatch repo_id external_id
  unfolding pick_lane
  pick_lane-MayPatch repo_id number external_id lane h p = record {
    an_issue = ground arith;
    is_open = ground arith;
    labelled = ground arith;
    not_parked = is_parked-IsFree repo_id external_id (ground arith);
    analysed = elim (Bool-cases (includes repo.lanes analyze)) [
      | inr unused ↦ inl unused
      | inl used ↦
          inr
            (ready_stored _ (asked_analyst repo_id number external_id lane h p used) (ground arith))
    ];
  }

  -- A pull request is taken up exactly when it is open, the repository has the dialog lane, and the
  -- newest branch recorded for it is there and not closed; else no lane takes it.
  pub pick_lane-dialog :
      (repo_id number : ℕ) (external_id : String)
      → item.kind ≡ pull_request
      → ((pick_lane parse repo item db repo_id number external_id ≡ some pr_dialog)
          ⊎ (pick_lane parse repo item db repo_id number external_id ≡ none))
        × ((pick_lane parse repo item db repo_id number external_id ≡ some pr_dialog)
            ↔ (item.state ≡ ItemState.opened)
              × (includes repo.lanes pr_dialog ≡ true)
              × ((b : Branch) × (get_pr_branch_by_pr_number db repo_id number ≡ some b)
                  × (is_closed b.status ≡ false)))
  unfolding pick_lane
  pick_lane-dialog repo_id number external_id k = (ground arith, ground arith)
