-- ===== src/Director/Service/Targets.antt =====
-- Which repositories the service ticks (src/director/index.ts).
use openronin.Common.{
  ℕ, true, false, ◌≡◌, ◌≢◌, refl, sym, ◌∙◌, ap, Option, none, some, List, [], ◌∷◌, ◌++◌, String,
  Bool-cases, Option-cases, inl, inr, arith, All, Memᴰ, if_false, if_true, subst,
}
use openronin.Sql.Laws.{All-imp}
use openronin.Director.Types.{disabled}
use openronin.Director.Service.{
  DirectorConfig, RepoConfig, RepoRow, RepoLookup, repo_id_by_key, is_disabled, is_target, lookup,
  chosen, targets_of, list_director_enabled_repos,
}

-- The lookup is that of a visible repository, whose row is watched and whose Director is enabled, has
-- a charter and is in another mode than disabled.
abbrev pub IsTargetOf : {C : Type 0} → List RepoRow → RepoConfig C → RepoLookup C → Type 0
IsTargetOf rows repo t =
    (repo.hidden ≡ false)
    × (repo.director ≡ some t.config)
    × ((t.config).enabled ≡ true)
    × ((t.config).has_charter ≡ true)
    × ((t.config).mode ≢ disabled)
    × ((row : RepoRow) × Memᴰ row rows × (row.watched ≡ true) × (row.id ≡ t.repo_id))

repo_id_by_key-row :
    (rows : List RepoRow) (key : String) (id : ℕ)
    → repo_id_by_key rows key ≡ some id
    → (row : RepoRow) × Memᴰ row rows × (row.watched ≡ true) × (row.id ≡ id)
unfolding repo_id_by_key
repo_id_by_key-row [] key id h = ground (arith, h)
repo_id_by_key-row (r ∷ rs) key id h = elim (Option-cases (repo_id_by_key rs key)) [
  | inr (found, e) ↦
      let (row, m, w, same) = repo_id_by_key-row rs key found e in
      (row, Memᴰ.tail m, w, same ∙ ground (arith, (rw (e, repo_id_by_key) at h)))
  | inl e ↦ (
    r,
    Memᴰ.head refl,
    ground (arith, (rw (e, repo_id_by_key) at h)),
    ground (arith, (rw (e, repo_id_by_key) at h)),
  )
]

lookup-IsTargetOf :
    {C : Type 0} (rows : List RepoRow) (repo : RepoConfig C) (d : DirectorConfig C) (id : Option ℕ)
    → repo_id_by_key rows repo.key ≡ id
    → repo.director ≡ some d
    → is_target repo d ≡ true
    → All (IsTargetOf rows repo) (lookup d id)
lookup-IsTargetOf rows repo d none e s h = tt
lookup-IsTargetOf rows repo d (some id) e s h = (
  (
    ground (arith, h),
    s,
    ground (arith, h),
    ground (arith, h),
    λ off. ground (arith, h, ap is_disabled off),
    repo_id_by_key-row rows repo.key id e,
  ),
  tt,
)

targets_of-some :
    {C : Type 0} (rows : List RepoRow) (repo : RepoConfig C) (d : DirectorConfig C)
    → repo.director ≡ some d
    → is_target repo d ≡ true
    → targets_of rows repo ≡ lookup d (repo_id_by_key rows repo.key)
targets_of-some rows repo d e t = ap (chosen rows repo) e ∙ if_true (is_target repo d) _ _ t

targets_of-none :
    {C : Type 0} (rows : List RepoRow) (repo : RepoConfig C) (d : DirectorConfig C)
    → repo.director ≡ some d
    → is_target repo d ≡ false
    → targets_of rows repo ≡ []
targets_of-none rows repo d e t = ap (chosen rows repo) e ∙ if_false (is_target repo d) _ _ t

targets_of-IsTargetOf :
    {C : Type 0} (rows : List RepoRow) (repo : RepoConfig C)
    → All (IsTargetOf rows repo) (targets_of rows repo)
targets_of-IsTargetOf rows repo = elim (Option-cases repo.director) [
  | inl e ↦ subst (All (IsTargetOf rows repo)) (sym (ap (chosen rows repo) e)) tt
  | inr (d, e) ↦ elim (Bool-cases (is_target repo d)) [
    | inl t ↦
        subst (All (IsTargetOf rows repo)) (sym (targets_of-some rows repo d e t))
          (lookup-IsTargetOf rows repo d _ refl e t)
    | inr t ↦ subst (All (IsTargetOf rows repo)) (sym (targets_of-none rows repo d e t)) tt
  ]
]

All-append : {A : Type 0} (P : A → Type 0) (xs ys : List A) → All P xs → All P ys → All P (xs ++ ys)
All-append P [] ys h g = g
All-append P (x ∷ xs) ys (p, h) g = (p, All-append P xs ys h g)

-- Every repository that the service ticks is a visible one of the configuration, with a watched row,
-- and a Director that is enabled, with a charter and in another mode than disabled.
pub list_director_enabled_repos-IsTargetOf :
    {C : Type 0} (rows : List RepoRow) (repos : List (RepoConfig C))
    → All
        (λ (t : RepoLookup C). (repo : RepoConfig C) × Memᴰ repo repos × IsTargetOf rows repo t)
        (list_director_enabled_repos rows repos)
unfolding list_director_enabled_repos
list_director_enabled_repos-IsTargetOf rows [] = tt
list_director_enabled_repos-IsTargetOf rows (repo ∷ repos) =
    All-append _ _ _
      (All-imp _ _ _ (λ t h. (repo, Memᴰ.head refl, h)) (targets_of-IsTargetOf rows repo))
      (All-imp _ _ _ (λ t h. (h.0, Memᴰ.tail h.1, h.2))
        (list_director_enabled_repos-IsTargetOf rows repos))
