-- ===== src/Director/Retrospective/Ramp.antt =====
-- What a suggestion of another mode rests on (src/director/trust-ramp.ts).
use openronin.Common.{
  ℕ, suc, ◌+◌, ◌*◌, ◌≤◌, Bool, true, false, ◌≡◌, refl, inl, inr, List, [], ◌∷◌, arith, ◌&&◌, ◌==◌,
  leb, ltb, ◌⊎◌, sym, ◌∙◌, subst, if◌then◌else◌, Bool-cases,
}
use openronin.Sql.{select_all, count}
use openronin.Director.Types.{Mode, Outcome, disabled, propose, semi_auto, full_auto}
use openronin.Director.Decisions.{Decision, day_ms}
use openronin.Director.Retrospective.{
  Move, is_sampled, is_executed, is_failed, is_rejected, hold, promote, demote, counted,
  promote_next, demote_next, promoted, demoted, rate_at_least, rate_at_most, sample_recent_outcomes,
  evaluate_trust_ramp,
}

-- the place of a mode between `dry_run` and `full_auto`
abbrev pub level : Mode → ℕ
level disabled = 0
level Mode.dry_run = 1
level propose = 2
level semi_auto = 3
level full_auto = 4

abbrev pub of_executed : Outcome → ℕ
of_executed Outcome.executed = 1
of_executed _ = 0

abbrev pub of_failed : Outcome → ℕ
of_failed Outcome.failed = 1
of_failed _ = 0

abbrev pub of_rejected : Outcome → ℕ
of_rejected Outcome.rejected = 1
of_rejected _ = 0

-- the weights of the repository's decisions of the last 14 days, added up
abbrev pub tally : (Outcome → ℕ) → List Decision → ℕ → ℕ → ℕ
tally weight [] repo_id now = 0
tally weight (d ∷ ds) repo_id now =
    (if d.repo_id == repo_id && ltb now (d.ts + 14 * day_ms) then weight d.outcome else 0)
    + tally weight ds repo_id now

-- the decisions of the last 14 days that were executed, failed or were rejected
abbrev pub judged : List Decision → ℕ → ℕ → ℕ
judged ds repo_id now =
    tally of_executed ds repo_id now
    + tally of_failed ds repo_id now
    + tally of_rejected ds repo_id now

-- Of `n` outcomes `executed` were executed. A promotion goes one level up, on at least 30 outcomes of
-- which 90% were executed, a demotion one level down to `dry_run` at the lowest, on at least 10 of which
-- at most 40% were. Where there is no move, neither is due.
abbrev pub IsJustified : ℕ → ℕ → Mode → Move → Type 0
IsJustified n executed mode hold =
    ((30 ≤ n) × (9 * n ≤ 10 * executed) → (mode ≡ full_auto) ⊎ (mode ≡ disabled))
    × ((10 ≤ n) × (10 * executed ≤ 4 * n) → (mode ≡ Mode.dry_run) ⊎ (mode ≡ disabled))
IsJustified n executed mode (promote from to size) =
    (from ≡ mode)
    × (size ≡ n)
    × (level to ≡ suc (level mode))
    × (2 ≤ level to)
    × (30 ≤ n)
    × (9 * n ≤ 10 * executed)
IsJustified n executed mode (demote from to size) =
    (from ≡ mode)
    × (size ≡ n)
    × (suc (level to) ≡ level mode)
    × (1 ≤ level to)
    × (10 ≤ n)
    × (10 * executed ≤ 4 * n)

promoted-IsJustified :
    (n executed : ℕ) (mode : Mode)
    → 30 ≤ n
    → 9 * n ≤ 10 * executed
    → IsJustified n executed mode (promoted mode n (promote_next mode))
unfolding promote_next
promoted-IsJustified n e disabled k r = (λ _. inr refl, λ _. inr refl)
promoted-IsJustified n e Mode.dry_run k r = (refl, refl, refl, omega arith, k, r)
promoted-IsJustified n e propose k r = (refl, refl, refl, omega arith, k, r)
promoted-IsJustified n e semi_auto k r = (refl, refl, refl, omega arith, k, r)
promoted-IsJustified n e full_auto k r = (λ _. inl refl, λ (h, l). absurd (omega (arith, k, r, l)))

demoted-IsJustified :
    (n executed : ℕ) (mode : Mode)
    → 10 ≤ n
    → 10 * executed ≤ 4 * n
    → IsJustified n executed mode (demoted mode n (demote_next mode))
unfolding demote_next
demoted-IsJustified n e disabled k r = (λ _. inr refl, λ _. inr refl)
demoted-IsJustified n e Mode.dry_run k r =
    (λ (h, l). absurd (omega (arith, h, r, l)), λ _. inl refl)
demoted-IsJustified n e propose k r = (refl, refl, refl, omega arith, k, r)
demoted-IsJustified n e semi_auto k r = (refl, refl, refl, omega arith, k, r)
demoted-IsJustified n e full_auto k r = (refl, refl, refl, omega arith, k, r)

-- the rows that an outcome's test counts are those that its weight adds up
count-tally :
    (p : Outcome → Bool) (weight : Outcome → ℕ) (repo_id now : ℕ)
    → ((o : Outcome) → weight o ≡ (if p o then 1 else 0))
    → ((d : Decision)
        → p d.outcome ≡ true
        → is_sampled repo_id now d ≡ d.repo_id == repo_id && ltb now (d.ts + 14 * day_ms))
    → (ds : List Decision)
    → count (λ (d : Decision). p d.outcome) (select_all (is_sampled repo_id now) ds)
      ≡ tally weight ds repo_id now
unfolding count select_all
count-tally p weight repo_id now w h [] = refl
count-tally p weight repo_id now w h (d ∷ ds) =
    let ih = count-tally p weight repo_id now w h ds in
    elim (Bool-cases (p d.outcome)) [
      | inl e ↦ elim (Bool-cases (is_sampled repo_id now d)) [
        | inl k ↦ rw (k, sym (h d e) ∙ k, w d.outcome, e) (omega (arith, ih))
        | inr k ↦ rw (k, sym (h d e) ∙ k) (omega (arith, ih))
      ]
      | inr e ↦ elim (Bool-cases (is_sampled repo_id now d)) [
        | inl k ↦ rw (k, e, w d.outcome, e, ih) (if_same _)
        | inr k ↦ rw (k, w d.outcome, e, ih) (if_same _)
      ]
    ]
  where
    if_same : (b : Bool) {n : ℕ} → n ≡ (if b then 0 else 0) + n
    if_same true = omega arith
    if_same false = omega arith

sampled :
    (decisions : List Decision) (repo_id now : ℕ)
    → ((sample_recent_outcomes decisions repo_id now).executed
        ≡ tally of_executed decisions repo_id now)
      × (counted (sample_recent_outcomes decisions repo_id now) ≡ judged decisions repo_id now)
unfolding sample_recent_outcomes
sampled ds repo_id now =
    let e =
      count-tally is_executed of_executed repo_id now (λ o. ground arith) (λ d h. ground (arith, h))
        ds in
    let f =
      count-tally is_failed of_failed repo_id now (λ o. ground arith) (λ d h. ground (arith, h))
        ds in
    let r =
      count-tally is_rejected of_rejected repo_id now (λ o. ground arith) (λ d h. ground (arith, h))
        ds in
    (e, rw (e, f, r) refl)

sample-IsJustified :
    (decisions : List Decision) (repo_id : ℕ) (mode : Mode) (now : ℕ)
    → IsJustified
        (counted (sample_recent_outcomes decisions repo_id now))
        (sample_recent_outcomes decisions repo_id now).executed
        mode
        (evaluate_trust_ramp decisions repo_id mode now)
unfolding evaluate_trust_ramp
sample-IsJustified decisions repo_id mode now =
    let sample = sample_recent_outcomes decisions repo_id now in
    elim (Bool-cases (counted sample == 0)) [
      | inl z ↦
          rw (z, evaluate_trust_ramp)
            ((λ (h, l). absurd (ground (arith, z, h))), (λ (h, l). absurd (ground (arith, z, h))))
      | inr z ↦ elim (Bool-cases (rate_at_least 9 sample && leb 30 (counted sample))) [
        | inl p ↦
            rw (z, p, evaluate_trust_ramp)
              (promoted-IsJustified (counted sample) sample.executed mode (ground arith)
                (ground arith))
        | inr p ↦ elim (Bool-cases (rate_at_most 4 sample && leb 10 (counted sample))) [
          | inl q ↦
              rw (z, p, q, evaluate_trust_ramp)
                (demoted-IsJustified (counted sample) sample.executed mode (ground arith)
                  (ground arith))
          | inr q ↦
              rw (z, p, q, evaluate_trust_ramp)
                (
                  (λ (h, l). absurd (ground (arith, p, h, l))),
                  (λ (h, l). absurd (ground (arith, q, h, l))),
                )
        ]
      ]
    ]

-- A suggestion rests on the outcomes of the repository's decisions of the last 14 days that were
-- executed, failed or were rejected: a promotion goes one level up, on at least 30 of them of which 90%
-- were executed; a demotion one level down, not below `dry_run`, on at least 10 of which at most 40%
-- were; it reports how many they were. Without a suggestion neither is due, or the mode has no further
-- level.
pub evaluate_trust_ramp-IsJustified :
    (decisions : List Decision) (repo_id : ℕ) (mode : Mode) (now : ℕ)
    → IsJustified
        (judged decisions repo_id now)
        (tally of_executed decisions repo_id now)
        mode
        (evaluate_trust_ramp decisions repo_id mode now)
evaluate_trust_ramp-IsJustified decisions repo_id mode now =
    let (e, n) = sampled decisions repo_id now in
    subst
      (λ (x : ℕ).
        IsJustified (judged decisions repo_id now) x mode
          (evaluate_trust_ramp decisions repo_id mode now))
      e
      (subst
        (λ (x : ℕ).
          IsJustified x (sample_recent_outcomes decisions repo_id now).executed mode
            (evaluate_trust_ramp decisions repo_id mode now))
        n (sample-IsJustified decisions repo_id mode now))
