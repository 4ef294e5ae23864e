-- ===== src/Scheduler/Stopping.antt =====
-- What a shutdown waits for (`stop` of src/scheduler/index.ts).
use openronin.Common.{
  true, false, ◌≡◌, refl, sym, ◌∙◌, Option, none, some, List, [], ◌∷◌, ◌++◌, if_true, arith, Memᴰ,
  ◌||◌, subst, All,
}
use openronin.Sql.{select, select_all}
use openronin.Sql.Laws.{select-mem, select_all-mem}
use openronin.Scheduler.{
  WatchedRepo, InternalWorker, Drain, Loops, has_key, ensured, ensure_worker, tick_drain,
  finish_drain, ensure_all, has_repo, worker_statuses, begin_reconcile, end_reconcile,
  track_activity, end_activity, any_worker_busy, is_nonempty, begin_stop, Step, drain, finish, show,
  reconcile, reconciled, track, untrack, stop, Steps, stay, then, booted,
}
use openronin.Scheduler.Sound.{IsHeld, booted-IsSound}
use openronin.Scheduler.Exclusive.{AreShown, Steps-IsSound, ensure_all-draining}

-- Stopped, with no drain in flight that was not there before, and no reconciliation either.
abbrev pub IsWindingDown : Loops → Loops → Type 0
IsWindingDown s s' =
    (s'.stopped ≡ true)
    × ((d : Drain) → Memᴰ d s'.draining → Memᴰ d s.draining)
    × (s'.reconcile_busy ≡ true → s.reconcile_busy ≡ true)

mem-with :
    (before : List Drain) (d : Drain) (after : List Drain) {e : Drain}
    → Memᴰ e (before ++ after)
    → Memᴰ e (before ++ d ∷ after)
mem-with [] d after m = Memᴰ.tail m
mem-with (b ∷ before) d after (Memᴰ.head e) = Memᴰ.head e
mem-with (b ∷ before) d after (Memᴰ.tail m) = Memᴰ.tail (mem-with before d after m)

ensure_all-flags :
    (repos : List WatchedRepo) (s : Loops)
    → ((ensure_all s repos).stopped ≡ s.stopped)
      × ((ensure_all s repos).reconcile_busy ≡ s.reconcile_busy)
      × ((ensure_all s repos).activities ≡ s.activities)
unfolding ensure_all ensure_worker
ensure_all-flags [] s = (refl, refl, refl)
ensure_all-flags (repo ∷ repos) s =
    let (a, b, c) =
      ensure_all-flags repos (ensured s repo (select (has_key repo.repo_key) s.workers)).0 in
    let (a', b', c') = flags s repo (select (has_key repo.repo_key) s.workers) in
    (a ∙ a', b ∙ b', c ∙ c')
  where
    flags :
        (s : Loops) (repo : WatchedRepo) (o : Option InternalWorker)
        → ((ensured s repo o).0.stopped ≡ s.stopped)
          × ((ensured s repo o).0.reconcile_busy ≡ s.reconcile_busy)
          × ((ensured s repo o).0.activities ≡ s.activities)
    flags s repo none = (refl, refl, refl)
    flags s repo (some w) = (refl, refl, refl)

Step-winds_down : {s s' : Loops} (next : Step s s') → s.stopped ≡ true → IsWindingDown s s'
unfolding tick_drain finish_drain worker_statuses begin_reconcile end_reconcile track_activity
    end_activity begin_stop
Step-winds_down (drain s watched) h =
    subst (IsWindingDown s) (sym (if_true s.stopped _ _ h)) (h, λ d m. m, λ r. r)
Step-winds_down (finish s before d after e) h =
    (h, λ x m. subst (Memᴰ x) (sym e) (mem-with before d after m), λ r. r)
Step-winds_down (show s watched) h =
    let (a, b, _) = ensure_all-flags watched s in
    (a ∙ h, λ x m. subst (Memᴰ x) (ensure_all-draining watched s) m, λ r. sym b ∙ r)
Step-winds_down (reconcile s) h =
    subst (IsWindingDown s) (sym (if_true (s.reconcile_busy || s.stopped) _ _ (ground (arith, h))))
      (h, λ d m. m, λ r. r)
Step-winds_down (reconciled s) h = (h, λ d m. m, λ r. ground (arith, r))
Step-winds_down (track s) h = (h, λ d m. m, λ r. r)
Step-winds_down (untrack s id) h = (h, λ d m. m, λ r. r)
Step-winds_down (stop s) h = (refl, λ d m. m, λ r. r)

-- Once the scheduler is stopped, it stays stopped, and whatever happens next, no drain and no
-- reconciliation begins: each that is in flight was so when it stopped.
pub Steps-winds_down : {s s' : Loops} (path : Steps s s') → s.stopped ≡ true → IsWindingDown s s'
Steps-winds_down (stay s) h = (h, λ d m. m, λ r. r)
Steps-winds_down (then s s' s'' before next) h =
    let (a, b, c) = Steps-winds_down before h in
    let (a', b', c') = Step-winds_down next a in (a', λ d m. b d (b' d m), λ r. c (c' r))

busy_found :
    (ws : List InternalWorker) (w : InternalWorker)
    → Memᴰ w ws
    → w.busy ≡ true
    → is_nonempty (select_all (λ (x : InternalWorker). x.busy) ws) ≡ true
busy_found ws w m b = found (select_all-mem _ ws m b)
  where
    found : {xs : List InternalWorker} → Memᴰ w xs → is_nonempty xs ≡ true
    found (Memᴰ.head e) = refl
    found (Memᴰ.tail n) = refl

idle_empty :
    (s : Loops) (ds : List Drain) → All (IsHeld s.workers) ds → any_worker_busy s ≡ false → ds ≡ []
unfolding any_worker_busy
idle_empty s [] h i = refl
idle_empty s (d ∷ ds) ((w, e, u, b), h) i =
    let busy = busy_found s.workers w (select-mem _ s.workers e).0 b in ground (arith, busy, i)

-- Where a shutdown finds nothing busy, in a state that the scheduler reaches from its start, no drain
-- is in flight, if the statuses were only shown while the configuration watched every repository
-- that was being drained.
pub any_worker_busy-idle :
    {s : Loops} (path : Steps booted s)
    → AreShown path
    → any_worker_busy s ≡ false
    → s.draining ≡ []
any_worker_busy-idle {s} path c i =
    idle_empty s s.draining (Steps-IsSound path c booted-IsSound).held i

select_all_nothing :
    (ws : List InternalWorker) → select_all (λ (w : InternalWorker). has_repo [] w.repo_key) ws ≡ []
unfolding select_all
select_all_nothing [] = refl
select_all_nothing (w ∷ ws) = select_all_nothing ws

-- Showing the statuses when the configuration watches no repository leaves every drain in flight, and
-- hides them from a shutdown: with no reconciliation and no activity, it finds nothing busy.
pub worker_statuses-hides_drains :
    (s : Loops)
    → s.reconcile_busy ≡ false
    → s.activities ≡ []
    → ((worker_statuses s []).draining ≡ s.draining)
      × (any_worker_busy (worker_statuses s []) ≡ false)
unfolding worker_statuses any_worker_busy ensure_all select_all
worker_statuses-hides_drains s r a = (refl, rw (select_all_nothing s.workers) rw r rw a refl)
