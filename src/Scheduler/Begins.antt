-- ===== src/Scheduler/Begins.antt =====
-- A drain begins only on an idle worker (src/scheduler/index.ts).
use openronin.Common.{
  ℕ, Bool, true, false, ◌≡◌, ◌≢◌, refl, sym, ◌∙◌, ap, some, List, [], ◌∷◌, String, Bool-cases, inl,
  inr, if_intro, if_true, if_false, ◌≤◌, arith, subst, ==_refl, eq_iff, str_eq,
}
use mathlib.Core.Option.{some_inj}
use openronin.Sql.{select, update}
use openronin.Sql.Laws.{select-mem, mem-update, select-update, updated, All-imp}
use openronin.Scheduler.{
  WatchedRepo, InternalWorker, Drain, Loops, has_key, is_worker, ensured, ensure_worker, set_busy,
  begin, begin_all,
}
use openronin.Scheduler.Sound.{AreKeyed, IsHeld, AreApart, IsSound, ensured-IsSound, ensured-select}

-- ── Setting a busy flag ──

pub busy_uid :
    (uid : ℕ) (b : Bool) (w : InternalWorker) → (updated (is_worker uid) (set_busy b) w).uid ≡ w.uid
busy_uid uid b w = if_intro (λ (v : InternalWorker). v.uid ≡ w.uid) (is_worker uid w) refl refl

busy_key :
    (uid : ℕ) (b : Bool) (w : InternalWorker)
    → (updated (is_worker uid) (set_busy b) w).repo_key ≡ w.repo_key
busy_key uid b w =
    if_intro (λ (v : InternalWorker). v.repo_key ≡ w.repo_key) (is_worker uid w) refl refl

pub select-busy :
    (uid : ℕ) (b : Bool) (key : String) (ws : List InternalWorker) {w : InternalWorker}
    → select (has_key key) ws ≡ some w
    → select (has_key key) (update (is_worker uid) (set_busy b) ws)
      ≡ some (updated (is_worker uid) (set_busy b) w)
select-busy uid b key ws e =
    select-update (has_key key) (is_worker uid) (set_busy b) ws
      (λ v. ap (λ k. str_eq k key) (busy_key uid b v)) e

pub AreKeyed-busy :
    (ws : List InternalWorker) (seq uid : ℕ) (b : Bool)
    → AreKeyed ws seq
    → AreKeyed (update (is_worker uid) (set_busy b) ws) seq
AreKeyed-busy ws seq uid b k = record {
  same_key = λ v w m n e.
      let (v', m', ev) = mem-update _ _ ws m in
      let (w', n', ew) = mem-update _ _ ws n in
      let uids : v'.uid ≡ w'.uid =
        sym (busy_uid uid b v')
        ∙ ap (λ (x : InternalWorker). x.uid) (sym ev)
        ∙ e
        ∙ ap (λ (x : InternalWorker). x.uid) ew
        ∙ busy_uid uid b w' in
      ap (λ (x : InternalWorker). x.repo_key) ev
      ∙ busy_key uid b v'
      ∙ k.same_key v' w' m' n' uids
      ∙ sym (busy_key uid b w')
      ∙ ap (λ (x : InternalWorker). x.repo_key) (sym ew);
  counted = λ w m.
      let (w', m', e) = mem-update _ _ ws m in
      subst (λ n. n ≤ seq) (sym (ap (λ (x : InternalWorker). x.uid) e ∙ busy_uid uid b w'))
        (k.counted w' m');
}

-- ── A drain begins ──

-- Setting a flag to busy keeps what is held.
IsHeld-busy :
    (ws : List InternalWorker) (uid : ℕ) (d : Drain)
    → IsHeld ws d
    → IsHeld (update (is_worker uid) (set_busy true) ws) d
IsHeld-busy ws uid d (w, e, u, b) = (
  updated (is_worker uid) (set_busy true) w,
  select-busy uid true d.repo_key ws e,
  busy_uid uid true w ∙ u,
  if_intro (λ (v : InternalWorker). v.busy ≡ true) (is_worker uid w) refl b,
)

IsHeld-begun :
    (ws : List InternalWorker) (w : InternalWorker)
    → select (has_key w.repo_key) ws ≡ some w
    → IsHeld
        (update (is_worker w.uid) (set_busy true) ws)
        (record { worker = w.uid; repo_key = w.repo_key })
IsHeld-begun ws w e = (
  updated (is_worker w.uid) (set_busy true) w,
  select-busy w.uid true w.repo_key ws e,
  busy_uid w.uid true w,
  rw (==_refl w.uid) refl,
)

-- An idle worker is that of no drain in flight.
idle_apart :
    (ws : List InternalWorker) (seq : ℕ) (w : InternalWorker) (d : Drain)
    → AreKeyed ws seq
    → select (has_key w.repo_key) ws ≡ some w
    → w.busy ≡ false
    → IsHeld ws d
    → AreApart (record { worker = w.uid; repo_key = w.repo_key }) d
idle_apart ws seq w d k e idle (v, ev, u, b) =
    let other_key : w.repo_key ≢ d.repo_key = λ same.
      let one = some_inj.0 (sym e ∙ ap (λ key. select (has_key key) ws) same ∙ ev) in
      ground (arith, sym idle ∙ ap (λ (x : InternalWorker). x.busy) one ∙ b) in
    let (m, _) = select-mem _ ws e in
    let (n, key) = select-mem _ ws ev in
    (
      other_key,
      λ same. other_key (k.same_key w v m n (same ∙ sym u) ∙ (eq_iff v.repo_key d.repo_key).0 key),
    )

begin-IsSound :
    (s : Loops) (w : InternalWorker)
    → IsSound s
    → select (has_key w.repo_key) s.workers ≡ some w
    → IsSound (begin (s, w))
begin-IsSound s w h e = elim (Bool-cases w.busy) [
  | inl b ↦ subst IsSound (sym (if_true w.busy _ _ b)) h
  | inr b ↦ subst IsSound (sym (if_false w.busy _ _ b)) (record {
    keyed = AreKeyed-busy s.workers s.worker_seq w.uid true h.keyed;
    held = (
      IsHeld-begun s.workers w e,
      All-imp _ _ s.draining (λ d x. IsHeld-busy s.workers w.uid d x) h.held,
    );
    apart = (
      All-imp _ _ s.draining (λ d x. idle_apart s.workers s.worker_seq w d h.keyed e b x) h.held,
      h.apart,
    );
  })
]

pub begin_all-IsSound :
    (repos : List WatchedRepo) (s : Loops) → IsSound s → IsSound (begin_all s repos)
unfolding begin_all ensure_worker
begin_all-IsSound [] s h = h
begin_all-IsSound (repo ∷ repos) s h =
    let found = select (has_key repo.repo_key) s.workers in
    let w = (ensured s repo found).1 in
    let e = ensured-select s repo found refl in
    let (_, key) = select-mem _ _ e in
    begin_all-IsSound repos _ (
      begin-IsSound _ w (ensured-IsSound s repo found h) (
        subst (λ k. select (has_key k) (ensured s repo found).0.workers ≡ some w)
          (sym ((eq_iff w.repo_key repo.repo_key).0 key)) e))
