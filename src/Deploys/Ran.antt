-- ===== src/Deploys/Ran.antt =====
-- Which commands of a deploy are run (src/lanes/deploy.ts).
use openronin.Common.{
  ℕ, true, false, ◌≡◌, inl, inr, refl, sym, ◌∙◌, ap, Option, none, some, List, [], ◌∷◌, ◌++◌, Text,
  map, arith, if_case, Option-cases, subst,
}
use openronin.Deploys.{
  DeployMode, SshTarget, Spawned, threw, exited, Ended, all_ran, failed, raised, Exit, is_failure,
  run_commands, build_command, on_spawned,
}

append_assoc : {A : Type 0} (xs ys zs : List A) → (xs ++ ys) ++ zs ≡ xs ++ (ys ++ zs)
append_assoc [] ys zs = refl
append_assoc (x ∷ xs) ys zs = ap (λ l. x ∷ l) (append_assoc xs ys zs)

append_nil : {A : Type 0} (xs : List A) → xs ++ [] ≡ xs
append_nil [] = refl
append_nil (x ∷ xs) = ap (λ l. x ∷ l) (append_nil xs)

-- A command that exits with 0 and no error.
abbrev pub Succeeds : Spawned → Type 0
Succeeds (threw m) = ⊥
Succeeds (exited e) = (e.status ≡ some 0) × (e.error ≡ none)

is_failure-no : (e : Exit) → is_failure e ≡ false → Succeeds (exited e)
is_failure-no e h = elim (Option-cases e.status) [
  | inl n ↦ ground (arith, rw n at h)
  | inr (c, n) ↦ elim (Option-cases e.error) [
    | inl o ↦ (n ∙ ap some (ground (arith, rw (n, o) at h)), o)
    | inr (m, o) ↦ ground (arith, rw (n, o) at h)
  ]
]

is_failure-yes : (e : Exit) → is_failure e ≡ true → Succeeds (exited e) → ⊥
is_failure-yes e h (n, o) = ground (arith, rw (n, o) at h)

module _ (decimal : ℕ → Text) (spawn : List (List Text) → List Text → Spawned) (mode : DeployMode)
    (target : Option SshTarget) where
  abbrev pub argv_of : Text → List Text
  argv_of cmd = (build_command decimal cmd mode target).argv

  -- All the commands succeed, one after the other.
  abbrev pub AllSucceed : List Text → List (List Text) → Type 0
  AllSucceed [] log = Unit
  AllSucceed (c ∷ cs) log = Succeeds (spawn log (argv_of c)) × AllSucceed cs (log ++ argv_of c ∷ [])

  -- The log ends with the first command that does not succeed.
  abbrev pub Stops : List Text → List (List Text) → List (List Text) → Type 0
  Stops cmds log log' =
      (before : List Text) × (c : Text) × (after : List Text) × (cmds ≡ before ++ c ∷ after)
      × (log' ≡ (log ++ map argv_of before) ++ argv_of c ∷ [])
      × AllSucceed before log
      × (Succeeds (spawn (log ++ map argv_of before) (argv_of c)) → ⊥)

  abbrev pub HasRun : List Text → List (List Text) → List (List Text) × Ended → Type 0
  HasRun cmds log (log', all_ran) = (log' ≡ log ++ map argv_of cmds) × AllSucceed cmds log
  HasRun cmds log (log', failed m) = Stops cmds log log'
  HasRun cmds log (log', raised m) = Stops cmds log log'

  Stops-cons :
      (c : Text) (cs : List Text) (log log' : List (List Text))
      → Succeeds (spawn log (argv_of c))
      → Stops cs (log ++ argv_of c ∷ []) log'
      → Stops (c ∷ cs) log log'
  Stops-cons c cs log log' h (before, d, after, e, l, ok, fails) =
      let shift = append_assoc log (argv_of c ∷ []) (map argv_of before) in
      (
        c ∷ before,
        d,
        after,
        ap (λ l. c ∷ l) e,
        l ∙ ap (λ x. x ++ argv_of d ∷ []) shift,
        (h, ok),
        (λ s. fails (subst (λ x. Succeeds (spawn x (argv_of d))) (sym shift) s)),
      )

  HasRun-cons :
      (c : Text) (cs : List Text) (log : List (List Text)) (r : List (List Text) × Ended)
      → Succeeds (spawn log (argv_of c))
      → HasRun cs (log ++ argv_of c ∷ []) r
      → HasRun (c ∷ cs) log r
  HasRun-cons c cs log (log', all_ran) h (l, ok) =
      (l ∙ append_assoc log (argv_of c ∷ []) (map argv_of cs), (h, ok))
  HasRun-cons c cs log (log', failed m) h k = Stops-cons c cs log log' h k
  HasRun-cons c cs log (log', raised m) h k = Stops-cons c cs log log' h k

  Stops-here :
      (c : Text) (cs : List Text) (log : List (List Text))
      → (Succeeds (spawn log (argv_of c)) → ⊥)
      → Stops (c ∷ cs) log (log ++ argv_of c ∷ [])
  Stops-here c cs log fails = (
    [],
    c,
    cs,
    refl,
    ap (λ x. x ++ argv_of c ∷ []) (sym (append_nil log)),
    tt,
    (λ s. fails (subst (λ x. Succeeds (spawn x (argv_of c))) (append_nil log) s)),
  )

  on_spawned-HasRun :
      (label c : Text) (cs : List Text) (log : List (List Text)) (a : Spawned)
      (rest : List (List Text) × Ended)
      → spawn log (argv_of c) ≡ a
      → HasRun cs (log ++ argv_of c ∷ []) rest
      → HasRun (c ∷ cs) log (on_spawned decimal spawn label a (log ++ argv_of c ∷ []) rest)
  on_spawned-HasRun label c cs log (threw m) rest e h =
      Stops-here c cs log (λ s. subst Succeeds e s)
  on_spawned-HasRun label c cs log (exited x) rest e h =
      if_case (HasRun (c ∷ cs) log) (is_failure x)
        (λ t. Stops-here c cs log (λ s. is_failure-yes x t (subst Succeeds e s)))
        (λ f. HasRun-cons c cs log rest (subst Succeeds (sym e) (is_failure-no x f)) h)

  pub run_commands-HasRun :
      (cmds : List Text) (log : List (List Text))
      → HasRun cmds log (run_commands decimal spawn mode target cmds log)
  unfolding run_commands
  run_commands-HasRun [] log = (sym (append_nil log), tt)
  run_commands-HasRun (c ∷ cs) log =
      on_spawned-HasRun _ c cs log _ _ refl (run_commands-HasRun cs (log ++ argv_of c ∷ []))
