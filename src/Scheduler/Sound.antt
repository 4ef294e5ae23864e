-- ===== src/Scheduler/Sound.antt =====
-- What the workers and the drains in flight have in common (src/scheduler/index.ts).
use openronin.Common.{
  ℕ, suc, ◌≤◌, true, ◌≡◌, ◌≢◌, refl, sym, ◌∙◌, ap, Option, none, some, List, [], ◌∷◌, ◌++◌, inl,
  inr, arith, All, Memᴰ, eq_iff,
}
use openronin.Sql.{select}
use openronin.Sql.Laws.{mem-append_last, select-append, select-append_none, All-imp}
use openronin.Scheduler.{
  WatchedRepo, InternalWorker, Drain, Loops, has_key, new_worker, ensured, booted,
}

-- Workers are told apart by `uid`, which the counter has given.
pub record AreKeyed (ws : List InternalWorker) (seq : ℕ) : Type 0 where
  pub same_key :
      (v w : InternalWorker) → Memᴰ v ws → Memᴰ w ws → v.uid ≡ w.uid → v.repo_key ≡ w.repo_key
  pub counted : (w : InternalWorker) → Memᴰ w ws → w.uid ≤ seq

-- The map still holds the worker of a drain in flight, and it is busy.
abbrev pub IsHeld : List InternalWorker → Drain → Type 0
IsHeld ws d =
    (w : InternalWorker) × (select (has_key d.repo_key) ws ≡ some w)
    × (w.uid ≡ d.worker)
    × (w.busy ≡ true)

-- Two drains in flight are of different repositories and workers.
abbrev pub AreApart : Drain → Drain → Type 0
AreApart d e = (d.repo_key ≢ e.repo_key) × (d.worker ≢ e.worker)

abbrev pub AllApart : List Drain → Type 0
AllApart [] = Unit
AllApart (d ∷ ds) = All (AreApart d) ds × AllApart ds

pub record IsSound (s : Loops) : Type 0 where
  pub keyed : AreKeyed s.workers s.worker_seq
  pub held : All (IsHeld s.workers) s.draining
  pub apart : AllApart s.draining

pub booted-IsSound : IsSound booted
booted-IsSound = record {
  keyed = record { same_key = λ v w m n e. elim m [ ]; counted = λ w m. elim m [ ] };
  held = tt;
  apart = tt;
}

-- ── A worker for a repository ──

new_same_key :
    (s : Loops) (repo : WatchedRepo) (v w : InternalWorker)
    → AreKeyed s.workers s.worker_seq
    → Memᴰ v (s.workers ++ new_worker (suc s.worker_seq) repo ∷ [])
    → Memᴰ w (s.workers ++ new_worker (suc s.worker_seq) repo ∷ [])
    → v.uid ≡ w.uid
    → v.repo_key ≡ w.repo_key
new_same_key s repo v w k m n e = elim (mem-append_last s.workers _ m) [
  | inl m' ↦ elim (mem-append_last s.workers _ n) [
    | inl n' ↦ k.same_key v w m' n' e
    | inr same ↦
        let fresh = ap (λ (x : InternalWorker). x.uid) same in
        let old = k.counted v m' in absurd (omega (arith, fresh, old, e))
  ]
  | inr same ↦ elim (mem-append_last s.workers _ n) [
    | inl n' ↦
        let fresh = ap (λ (x : InternalWorker). x.uid) same in
        let old = k.counted w n' in absurd (omega (arith, fresh, old, e))
    | inr also ↦ ap (λ (x : InternalWorker). x.repo_key) (same ∙ sym also)
  ]
]

ensured-AreKeyed :
    (s : Loops) (repo : WatchedRepo) (o : Option InternalWorker)
    → AreKeyed s.workers s.worker_seq
    → AreKeyed (ensured s repo o).0.workers (ensured s repo o).0.worker_seq
ensured-AreKeyed s repo (some w) k = k
ensured-AreKeyed s repo none k = record {
  same_key = λ v w m n e. new_same_key s repo v w k m n e;
  counted = λ w m. elim (mem-append_last s.workers _ m) [
    | inl m' ↦ let old = k.counted w m' in omega (arith, old)
    | inr same ↦ let fresh = ap (λ (x : InternalWorker). x.uid) same in omega (arith, fresh)
  ];
}

ensured-IsHeld :
    (s : Loops) (repo : WatchedRepo) (o : Option InternalWorker) (d : Drain)
    → IsHeld s.workers d
    → IsHeld (ensured s repo o).0.workers d
ensured-IsHeld s repo (some w) d h = h
ensured-IsHeld s repo none d (w, e, u, b) = (w, select-append _ s.workers _ e, u, b)

pub ensured-select :
    (s : Loops) (repo : WatchedRepo) (o : Option InternalWorker)
    → select (has_key repo.repo_key) s.workers ≡ o
    → select (has_key repo.repo_key) (ensured s repo o).0.workers ≡ some (ensured s repo o).1
ensured-select s repo (some w) e = e
ensured-select s repo none e =
    select-append_none _ s.workers e ((eq_iff repo.repo_key repo.repo_key).1 refl)

pub ensured-IsSound :
    (s : Loops) (repo : WatchedRepo) (o : Option InternalWorker)
    → IsSound s
    → IsSound (ensured s repo o).0
ensured-IsSound s repo (some w) h = h
ensured-IsSound s repo none h = record {
  keyed = ensured-AreKeyed s repo none h.keyed;
  held = All-imp _ _ s.draining (λ d x. ensured-IsHeld s repo none d x) h.held;
  apart = h.apart;
}
