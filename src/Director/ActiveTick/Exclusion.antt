-- ===== src/Director/ActiveTick/Exclusion.antt =====
-- Ticks of one repository that run `withActiveTick` beside each other (src/director/active-
-- tick.ts).
use openronin.Common.{
  ℕ, ◌+◌, ◌<◌, ◌≤◌, ◌≡◌, ◌≢◌, refl, String, true, false, none, some, ◌++◌, ap, sym, ◌∙◌,
  length-append, subst, List, [], ◌∷◌, All, length, arith,
}
use openronin.Director.ActiveTick.{ActiveTick, get_active_tick, try_acquire_tick, release_tick}
use openronin.Director.ActiveTick.Lock.{
  HasOneRow, try_acquire_tick_iff, try_acquire_tick_held, try_acquire_tick_refused,
}
use openronin.Director.ActiveTick.Key.{try_acquire_tick-HasOneRow}

-- a body that is running: its process, and when its lock runs out
pub record Body : Type 0 where
  pub pid : ℕ
  pub expires_at : ℕ

pub record Office : Type 0 where
  pub rows : List ActiveTick
  pub running : List Body
  pub now : ℕ

module _ (repo_id : ℕ) where
  -- What may happen next: a tick starts or is refused, a body ends, time passes.
  pub data Step : Office → Office → Type 0 where
    enter :
        (o : Office) (pid : ℕ) (reason : String) (ttl_s : ℕ) (rows : List ActiveTick)
        → try_acquire_tick o.rows repo_id pid reason ttl_s o.now ≡ (rows, true)
        → Step o (record o {
          rows = rows;
          running = record { pid = pid; expires_at = o.now + ttl_s } ∷ o.running;
        })
    refuse :
        (o : Office) (pid : ℕ) (reason : String) (ttl_s : ℕ) (rows : List ActiveTick)
        → try_acquire_tick o.rows repo_id pid reason ttl_s o.now ≡ (rows, false)
        → Step o (record o { rows = rows })
    leave :
        (o : Office) (body : Body) (before after : List Body)
        → o.running ≡ before ++ body ∷ after
        → Step o (record o { rows = release_tick o.rows repo_id; running = before ++ after })
    wait : (o : Office) (later : ℕ) → o.now ≤ later → Step o (record o { now = later })

  pub data Steps : Office → Office → Type 0 where
    stay : (o : Office) → Steps o o
    then : (o o' o'' : Office) → Steps o o' → Step o' o'' → Steps o o''

  -- Every time to live is positive, and time passes only while no running body has used up its own.
  abbrev pub IsInTime : {o o' : Office} → Step o o' → Type 0
  IsInTime (enter o pid reason ttl_s rows e) = 0 < ttl_s
  IsInTime (refuse o pid reason ttl_s rows e) = Unit
  IsInTime (leave o body before after e) = Unit
  IsInTime (wait o later le) = All (λ (b : Body). later < b.expires_at) o.running

  abbrev pub AreInTime : {o o' : Office} → Steps o o' → Type 0
  AreInTime (stay o) = Unit
  AreInTime (then o o' o'' before next) = AreInTime before × IsInTime next

  some_ne_none : {a : ActiveTick} → ¬ (some a ≡ none)
  some_ne_none h = ground (arith, h)

  -- The lock's row is not expired at any moment before the body's time to live is over.
  abbrev IsHeld : Office → Body → Type 0
  IsHeld o b =
      (o.now < b.expires_at)
      × ((t : ℕ) → t < b.expires_at → get_active_tick o.rows repo_id t ≢ none)

  record IsExclusive (o : Office) : Type 0 where
    key : HasOneRow o.rows
    alone : length o.running ≤ 1
    held : All (IsHeld o) o.running

  empty : {A : Type 0} (xs : List A) → length xs ≡ 0 → xs ≡ []
  empty [] h = refl
  empty (x ∷ xs) h = ground (arith, h)

  none_left :
      (running before after : List Body) (b : Body)
      → running ≡ before ++ b ∷ after
      → length running ≤ 1
      → before ++ after ≡ []
  none_left running before after b e h =
      empty (before ++ after) (
        omega (arith, ap length e, length-append before (b ∷ after), length-append before after, h))

  nobody :
      (o : Office)
      → All (IsHeld o) o.running
      → get_active_tick o.rows repo_id o.now ≡ none
      → o.running ≡ []
  nobody o h free = go o.running h
    where
      go : (bs : List Body) → All (IsHeld o) bs → bs ≡ []
      go [] h = refl
      go (b ∷ bs) ((live, held), _) = absurd (held o.now live free)

  Step-IsExclusive :
      (o o' : Office) → IsExclusive o → (next : Step o o') → IsInTime next → IsExclusive o'
  Step-IsExclusive o _ h (enter _ pid reason ttl_s rows e) positive =
      let took : (try_acquire_tick o.rows repo_id pid reason ttl_s o.now).1 ≡ true =
        ap (λ x. x.1) e in
      let free = (try_acquire_tick_iff o.rows repo_id pid reason ttl_s o.now h.key).0 took in
      let none_running = nobody o h.held free in
      let same : (try_acquire_tick o.rows repo_id pid reason ttl_s o.now).0 ≡ rows =
        ap (λ x. x.0) e in
      record {
        key =
            subst HasOneRow same
              (try_acquire_tick-HasOneRow o.rows repo_id pid reason ttl_s o.now h.key).0;
        alone = rw (none_running) (omega arith);
        held = (
          (
            ground (arith, positive),
            λ t before gone. some_ne_none (
                sym
                  (try_acquire_tick_held repo_id pid reason ttl_s o.now t before o.rows h.key took)
                ∙ ap (λ rows. get_active_tick rows repo_id t) same
                ∙ gone),
          ),
          rw (none_running) tt,
        );
      }
  Step-IsExclusive o _ h (refuse _ pid reason ttl_s rows e) _ =
      let same : o.rows ≡ rows =
        sym (try_acquire_tick_refused o.rows repo_id pid reason ttl_s o.now (ap (λ x. x.1) e))
        ∙ ap (λ x. x.0) e in
      subst (λ rows. IsExclusive (record o { rows = rows })) same h
  Step-IsExclusive o _ h (leave _ body before after e) _ =
      let gone = none_left o.running before after body e h.alone in
      record {
        key = (try_acquire_tick-HasOneRow o.rows repo_id 0 "" 0 0 h.key).1;
        alone = rw (gone) (omega arith);
        held = rw (gone) tt;
      }
  Step-IsExclusive o _ h (wait _ later le) live = record {
    key = h.key;
    alone = h.alone;
    held = still o.running live h.held;
  }
    where
      still :
          (bs : List Body)
          → All (λ (b : Body). later < b.expires_at) bs
          → All (IsHeld o) bs
          → All (IsHeld (record o { now = later })) bs
      still [] _ _ = tt
      still (b ∷ bs) (l, live) ((_, held), h) = ((l, held), still bs live h)

  Steps-IsExclusive :
      (o o' : Office) → IsExclusive o → (path : Steps o o') → AreInTime path → IsExclusive o'
  Steps-IsExclusive o _ h (stay _) _ = h
  Steps-IsExclusive o o'' h (then _ o' _ before next) (in_time, on_time) =
      Step-IsExclusive o' o'' (Steps-IsExclusive o o' h before in_time) next on_time

  -- However ticks of a repository start, are refused, end and let time pass, and whatever rows were
  -- there at first, with at most one of each repository, no two bodies run at the same time, where
  -- every time to live is positive and each body ends within its own.
  pub Steps-alone :
      (rows : List ActiveTick) (now : ℕ) (o : Office)
      → HasOneRow rows
      → (path : Steps (record { rows = rows; running = []; now = now }) o) → AreInTime path
      → length o.running ≤ 1
  Steps-alone rows now o key path in_time =
      (Steps-IsExclusive (record { rows = rows; running = []; now = now }) o
        (record { key = key; alone = omega arith; held = tt }) path in_time).alone
