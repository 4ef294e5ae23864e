-- ===== src/Patch/Guards.antt =====
-- When a committed diff passes (src/lanes/patch.ts).
use openronin.Common.{
  ℕ, ◌+◌, ◌≤◌, false, ◌≡◌, ◌↔◌, refl, sym, ◌∙◌, none, List, [], ◌∷◌, Text, All, arith, ltb,
  Bool-cases, Option-cases, inl, inr, if_true, if_false,
}
use openronin.Messages.{starts_with}
use openronin.Patch.Base.{DiffStats, matched_path, touched, check_guardrails}

-- No protected path is the file or begins it.
abbrev pub IsFree : List Text → Text → Type 0
IsFree paths file = All (λ (p : Text). starts_with file p ≡ false) paths

matched_path_iff :
    (file : Text) (paths : List Text) → (matched_path file paths ≡ none) ↔ IsFree paths file
unfolding matched_path
matched_path_iff file [] = ((λ _. tt), (λ _. refl))
matched_path_iff file (p ∷ ps) = elim (Bool-cases (starts_with file p)) [
  | inl e ↦ (
    (λ h. absurd (ground (arith, sym (if_true (starts_with file p) _ _ e) ∙ h))),
    (λ h. absurd (ground (arith, e, h.0))),
  )
  | inr e ↦
      let (to, from) = matched_path_iff file ps in
      (
        (λ h. (e, to (sym (if_false (starts_with file p) _ _ e) ∙ h))),
        (λ h. if_false (starts_with file p) _ _ e ∙ from h.1),
      )
]

touched_iff : (files paths : List Text) → (touched files paths ≡ none) ↔ All (IsFree paths) files
unfolding touched
touched_iff [] paths = ((λ _. tt), (λ _. refl))
touched_iff (f ∷ fs) paths = elim (Option-cases (matched_path f paths)) [
  | inl e ↦
      let (to, from) = touched_iff fs paths in
      (
        (λ h. ((matched_path_iff f paths).0 e, to (rw (e, touched) at h))),
        (λ h. rw (e, touched) (from h.1)),
      )
  | inr (p, e) ↦ (
    (λ h. absurd (ground (arith, (rw (e, touched) at h)))),
    (λ h. absurd (ground (arith, sym e ∙ (matched_path_iff f paths).1 h.0))),
  )
]

-- A diff passes the guardrails exactly when it changes no more lines than allowed, and none of its
-- files is a protected path or begins with one.
pub check_guardrails_iff :
    (stats : DiffStats) (protected_paths : List Text) (max_diff_lines : ℕ)
    → (check_guardrails stats protected_paths max_diff_lines ≡ none) ↔ (
        (stats.lines_added + stats.lines_removed ≤ max_diff_lines)
        × All (IsFree protected_paths) stats.files_changed)
unfolding check_guardrails
check_guardrails_iff stats protected_paths max_diff_lines =
    let (to, from) = touched_iff stats.files_changed protected_paths in
    let total = stats.lines_added + stats.lines_removed in
    elim (Bool-cases (ltb max_diff_lines total)) [
      | inl e ↦ (
        (λ h. absurd (ground (arith, sym (if_true (ltb max_diff_lines total) _ _ e) ∙ h))),
        (λ h. absurd (ground (arith, e, h.0))),
      )
      | inr e ↦ (
        (λ h. (ground (arith, e), to (sym (if_false (ltb max_diff_lines total) _ _ e) ∙ h))),
        (λ h. if_false (ltb max_diff_lines total) _ _ e ∙ from h.1),
      )
    ]
