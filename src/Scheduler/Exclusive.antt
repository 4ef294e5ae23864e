-- ===== src/Scheduler/Exclusive.antt =====
-- At most one drain in flight for a repository (src/scheduler/index.ts).
use openronin.Common.{
  ℕ, true, false, ◌≡◌, ◌≢◌, refl, sym, ◌∙◌, ap, Option, none, some, List, [], ◌∷◌, ◌++◌, if_intro,
  arith, All, subst, eq_iff, ◌||◌,
}
use openronin.Sql.{select, select_all, update}
use openronin.Sql.Laws.{select-mem, mem-select_all, select-select_all, updated, All-imp}
use openronin.Scheduler.{
  WatchedRepo, InternalWorker, Drain, Loops, has_key, is_worker, ensured, ensure_worker, set_busy,
  tick_drain, finish_drain, ensure_all, has_repo, worker_statuses, begin_reconcile, end_reconcile,
  track_activity, end_activity, begin_stop, Step, drain, finish, show, reconcile, reconciled, track,
  untrack, stop, Steps, stay, then, booted,
}
use openronin.Scheduler.Sound.{IsHeld, AllApart, IsSound, booted-IsSound, ensured-IsSound}
use openronin.Scheduler.Begins.{AreKeyed-busy, busy_uid, select-busy, begin_all-IsSound}

-- ── A drain ends ──

All-without :
    (P : Drain → Type 0) (before : List Drain) (d : Drain) (after : List Drain)
    → All P (before ++ d ∷ after)
    → All P (before ++ after)
All-without P [] d after (p, h) = h
All-without P (e ∷ before) d after (p, h) = (p, All-without P before d after h)

All-at :
    (P : Drain → Type 0) (before : List Drain) (d : Drain) (after : List Drain)
    → All P (before ++ d ∷ after)
    → P d
All-at P [] d after (p, h) = p
All-at P (e ∷ before) d after (p, h) = All-at P before d after h

AllApart-without :
    (before : List Drain) (d : Drain) (after : List Drain)
    → AllApart (before ++ d ∷ after)
    → AllApart (before ++ after) × All (λ (e : Drain). e.worker ≢ d.worker) (before ++ after)
AllApart-without [] d after (p, h) = (h, All-imp _ _ after (λ e x same. x.1 (sym same)) p)
AllApart-without (e ∷ before) d after (p, h) =
    let (rest, others) = AllApart-without before d after h in
    ((All-without _ before d after p, rest), ((All-at _ before d after p).1, others))

IsHeld-finished :
    (ws : List InternalWorker) (uid : ℕ) (e : Drain)
    → e.worker ≢ uid
    → IsHeld ws e
    → IsHeld (update (is_worker uid) (set_busy false) ws) e
IsHeld-finished ws uid e n (w, found, u, b) = (
  updated (is_worker uid) (set_busy false) w,
  select-busy uid false e.repo_key ws found,
  busy_uid uid false w ∙ u,
  rw (other) b,
)
  where
    other : is_worker uid w ≡ false
    other = ground arith

All-IsHeld :
    (ws : List InternalWorker) (uid : ℕ) (ds : List Drain)
    → All (λ (e : Drain). e.worker ≢ uid) ds
    → All (IsHeld ws) ds
    → All (IsHeld (update (is_worker uid) (set_busy false) ws)) ds
All-IsHeld ws uid [] n h = tt
All-IsHeld ws uid (e ∷ ds) (p, n) (q, h) = (IsHeld-finished ws uid e p q, All-IsHeld ws uid ds n h)

finish_drain-IsSound :
    (s : Loops) (before : List Drain) (d : Drain) (after : List Drain)
    → s.draining ≡ before ++ d ∷ after
    → IsSound s
    → IsSound (finish_drain s before d after)
unfolding finish_drain
finish_drain-IsSound s before d after e h =
    let (apart, others) = AllApart-without before d after (subst AllApart e h.apart) in
    record {
      keyed = AreKeyed-busy s.workers s.worker_seq d.worker false h.keyed;
      held =
          All-IsHeld s.workers d.worker (before ++ after) others
            (All-without _ before d after (subst (All (IsHeld s.workers)) e h.held));
      apart = apart;
    }

-- ── The statuses are shown ──

ensure_all-IsSound :
    (repos : List WatchedRepo) (s : Loops) → IsSound s → IsSound (ensure_all s repos)
unfolding ensure_all ensure_worker
ensure_all-IsSound [] s h = h
ensure_all-IsSound (repo ∷ repos) s h = ensure_all-IsSound repos _ (ensured-IsSound s repo _ h)

pub ensure_all-draining :
    (repos : List WatchedRepo) (s : Loops) → (ensure_all s repos).draining ≡ s.draining
unfolding ensure_all ensure_worker
ensure_all-draining [] s = refl
ensure_all-draining (repo ∷ repos) s =
    ensure_all-draining repos _ ∙ ensured-draining s repo (select (has_key repo.repo_key) s.workers)
  where
    ensured-draining :
        (s : Loops) (repo : WatchedRepo) (o : Option InternalWorker)
        → (ensured s repo o).0.draining ≡ s.draining
    ensured-draining s repo none = refl
    ensured-draining s repo (some w) = refl

-- the repositories of the drains in flight are among these
abbrev pub Covers : List WatchedRepo → List Drain → Type 0
Covers watched ds = All (λ (d : Drain). has_repo watched d.repo_key ≡ true) ds

IsHeld-kept :
    (ws : List InternalWorker) (watched : List WatchedRepo) (d : Drain)
    → IsHeld ws d
    → has_repo watched d.repo_key ≡ true
    → IsHeld (select_all (λ (w : InternalWorker). has_repo watched w.repo_key) ws) d
IsHeld-kept ws watched d (w, e, u, b) h =
    let (_, key) = select-mem _ ws e in
    (
      w,
      select-select_all _ _ ws e (ap (has_repo watched) ((eq_iff w.repo_key d.repo_key).0 key) ∙ h),
      u,
      b,
    )

All-kept :
    (ws : List InternalWorker) (watched : List WatchedRepo) (ds : List Drain)
    → Covers watched ds
    → All (IsHeld ws) ds
    → All (IsHeld (select_all (λ (w : InternalWorker). has_repo watched w.repo_key) ws)) ds
All-kept ws watched [] c h = tt
All-kept ws watched (d ∷ ds) (p, c) (q, h) =
    (IsHeld-kept ws watched d q p, All-kept ws watched ds c h)

worker_statuses-IsSound :
    (s : Loops) (watched : List WatchedRepo)
    → Covers watched s.draining
    → IsSound s
    → IsSound (worker_statuses s watched)
unfolding worker_statuses
worker_statuses-IsSound s watched c h =
    let t = ensure_all s watched in
    let sound = ensure_all-IsSound watched s h in
    record {
      keyed = record {
        same_key = λ v w m n e.
            sound.keyed.same_key v w (mem-select_all _ t.workers m).0
              (mem-select_all _ t.workers n).0 e;
        counted = λ w m. sound.keyed.counted w (mem-select_all _ t.workers m).0;
      };
      held =
          All-kept t.workers watched t.draining
            (subst (Covers watched) (sym (ensure_all-draining watched s)) c) sound.held;
      apart = sound.apart;
    }

-- ── Every path ──

-- When the statuses are shown, the configuration still watches what is being drained.
abbrev pub IsShown : {s s' : Loops} → Step s s' → Type 0
IsShown (show s watched) = Covers watched s.draining
IsShown _ = Unit

abbrev pub AreShown : {s s' : Loops} → Steps s s' → Type 0
AreShown (stay s) = Unit
AreShown (then s s' s'' before next) = AreShown before × IsShown next

Step-IsSound : {s s' : Loops} (next : Step s s') → IsShown next → IsSound s → IsSound s'
unfolding tick_drain begin_reconcile end_reconcile track_activity end_activity begin_stop
Step-IsSound (drain s watched) c h = if_intro IsSound s.stopped h (begin_all-IsSound watched s h)
Step-IsSound (finish s before d after e) c h = finish_drain-IsSound s before d after e h
Step-IsSound (show s watched) c h = worker_statuses-IsSound s watched c h
Step-IsSound (reconcile s) c h =
    if_intro IsSound (s.reconcile_busy || s.stopped) h
      (record { keyed = h.keyed; held = h.held; apart = h.apart })
Step-IsSound (reconciled s) c h = record { keyed = h.keyed; held = h.held; apart = h.apart }
Step-IsSound (track s) c h = record { keyed = h.keyed; held = h.held; apart = h.apart }
Step-IsSound (untrack s id) c h = record { keyed = h.keyed; held = h.held; apart = h.apart }
Step-IsSound (stop s) c h = record { keyed = h.keyed; held = h.held; apart = h.apart }

pub Steps-IsSound : {s s' : Loops} (path : Steps s s') → AreShown path → IsSound s → IsSound s'
Steps-IsSound (stay s) c h = h
Steps-IsSound (then s s' s'' before next) (cs, c) h =
    Step-IsSound next c (Steps-IsSound before cs h)

-- In every state that the scheduler reaches from its start, no two drains in flight are of the same
-- repository, if the statuses are only shown while the configuration watches every repository that
-- is being drained.
pub Steps-exclusive : {s : Loops} (path : Steps booted s) → AreShown path → AllApart s.draining
Steps-exclusive path c = (Steps-IsSound path c booted-IsSound).apart
