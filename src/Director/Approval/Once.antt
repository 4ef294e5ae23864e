-- ===== src/Director/Approval/Once.antt =====
-- Requests about one decision, one after the other (src/director/executor.ts).
use openronin.Common.{
  ℕ, ◌≡◌, ◌⊎◌, inl, inr, refl, ap, sym, subst, ◌∙◌, Bool, true, false, Option, none, some, List, [],
  ◌∷◌, Option-cases, Bool-cases, ◌==◌, String,
}
use openronin.Director.Types.{Payload, Outcome, Detail, Role, MessageType, Body}
use openronin.Sql.{select, update}
use openronin.Director.Decisions.{Decision, get_decision_by_id, set_decision_outcome, is_pending}
use openronin.Director.Executor.{State, Context, Ran, ok, err, authority_for, attempt, post_chat}
use openronin.Director.Approval.{
  Overrides, edited, store_edits, Refusal, ApproveResult, done, refusal, same_repo, check, checked,
  approve_decision, reject_decision, run_approved, run_rejected, concluded, not_found, not_pending,
  other_repo,
}

-- a decision is not there, or has been decided
IsDecided : Option Decision → Type 0
IsDecided none = Unit
IsDecided (some d) = is_pending d.outcome ≡ false

select-IsDecided :
    (id : ℕ) (f : Decision → Decision)
    → ((d : Decision) → (is_pending (f d).outcome ≡ false) × ((f d).id ≡ d.id))
    → (ds : List Decision) → IsDecided (select (λ d. d.id == id) (update (λ d. d.id == id) f ds))
unfolding select update IsDecided
select-IsDecided id f h [] = tt
select-IsDecided id f h (d ∷ ds) = elim (Bool-cases (d.id == id)) [
  | inl e ↦ rw (e, (h d).1) rw (e) (h d).0
  | inr e ↦ rw (e) rw (e) (select-IsDecided id f h ds)
]

decided-refused :
    (o : Option Decision) (id : ℕ) (repo : Option ℕ)
    → IsDecided o
    → (r : Refusal) × (check o id repo ≡ some r)
unfolding check IsDecided
decided-refused none id repo _ = (not_found id, refl)
decided-refused (some d) id repo h = (not_pending id d.outcome, rw (h) refl)

-- a state in which every request about the decision is refused
pub IsFinal : ℕ → State → Type 0
IsFinal id s =
    (repo : Option ℕ) → (r : Refusal) × (check (get_decision_by_id s.db id) id repo ≡ some r)

abbrev pub is_done : ApproveResult → Bool
is_done (done _ _) = true
is_done (refusal _) = false

outcome-IsFinal :
    (s : State) (id : ℕ) (x : Outcome) (details : Detail) (now : ℕ)
    → is_pending x ≡ false
    → IsFinal id (record s { db = set_decision_outcome s.db id x details now })
unfolding IsFinal set_decision_outcome get_decision_by_id
outcome-IsFinal s id x details now h repo =
    decided-refused
      (select (λ d. d.id == id) (set_decision_outcome s.db id x details now).decisions) id repo
      (select-IsDecided id
        (λ d. record d { outcome = x; outcome_ts = some now; outcome_details = some details })
        (λ d. (h, refl)) s.db.decisions)

concluded-IsFinal :
    (c : Context) (id : ℕ) (d : Decision) (r : Ran Detail) → IsFinal id (concluded c id d r).0
unfolding concluded post_chat IsFinal set_decision_outcome get_decision_by_id
concluded-IsFinal c id d (ok detail s) = outcome-IsFinal s id Outcome.executed detail c.now refl
concluded-IsFinal c id d (err e s) =
    outcome-IsFinal s id Outcome.failed (Detail.message e) c.now refl

run_approved-IsFinal :
    (c : Context) (id : ℕ) (d : Decision) (p : Payload) (s : State)
    → IsFinal id (run_approved c id d p s).0
unfolding run_approved post_chat IsFinal set_decision_outcome get_decision_by_id
run_approved-IsFinal c id d p s = elim (Option-cases (authority_for p c.authority)) [
  | inl e ↦
      rw (e, run_approved)
        (concluded-IsFinal c id d (
          attempt c id d.repo_id p
            (post_chat d.repo_id Role.user MessageType.answer (Body.approved_decision id) id s)))
  | inr (flag, e) ↦
      rw (e, run_approved) (outcome-IsFinal s id Outcome.skipped (Detail.flag_off flag) c.now refl)
]

pending_cases :
    (x : Outcome) → ((x ≡ Outcome.pending) × (is_pending x ≡ true)) ⊎ (is_pending x ≡ false)
pending_cases Outcome.pending = inl (refl, refl)
pending_cases _ = inr refl

-- What the checks refuse leaves the state alone; what they let through has its effect on a decision
-- that is stored, pending and of the repository.
pub checked-cases :
    (id : ℕ) (repo : Option ℕ) (go : Decision → State → State × ApproveResult) (s : State)
    (o : Option Decision)
    → ((r : Refusal) × (checked o id repo go s ≡ (s, refusal r)))
      ⊎ ((d : Decision) × (o ≡ some d)
          × (d.outcome ≡ Outcome.pending)
          × (same_repo d repo ≡ true)
          × (checked o id repo go s ≡ go d s))
unfolding checked check
checked-cases id repo go s none = inl (not_found id, refl)
checked-cases id repo go s (some d) = elim (pending_cases d.outcome) [
  | inl (p, q) ↦ elim (Bool-cases (same_repo d repo)) [
    | inl e ↦ inr (d, refl, p, e, rw (q, e, checked, check) refl)
    | inr e ↦ inl (other_repo id, rw (q, e, checked, check) refl)
  ]
  | inr e ↦ inl (not_pending id d.outcome, rw (e, checked, check) refl)
]

-- A request that was not refused leaves a state in which every later one is.
checked-IsFinal :
    (id : ℕ) (repo : Option ℕ) (go : Decision → State → State × ApproveResult)
    → ((d : Decision) (s : State) → IsFinal id (go d s).0)
    → (s : State) (o : Option Decision) → is_done (checked o id repo go s).1 ≡ true
    → IsFinal id (checked o id repo go s).0
checked-IsFinal id repo go f s o h = elim (checked-cases id repo go s o) [
  | inl (r, e) ↦ absurd (cc (sym h ∙ ap (λ x. is_done x.1) e))
  | inr (d, _, _, _, e) ↦ rw (e) (f d s)
]

final_refuses :
    (c : Context) (id : ℕ) (repo : Option ℕ) (o : Option Overrides) (why : Option String)
    (s : State)
    → IsFinal id s
    → (r : Refusal) × (approve_decision c id repo o s ≡ (s, refusal r))
      × (reject_decision c id repo why s ≡ (s, refusal r))
unfolding approve_decision reject_decision checked IsFinal
final_refuses c id repo o why s f =
    ((f repo).0, rw ((f repo).1, checked) refl, rw ((f repo).1, checked) refl)

run_rejected-IsFinal :
    (c : Context) (id : ℕ) (why : Option String) (d : Decision) (s : State)
    → IsFinal id (run_rejected c id why d s).0
unfolding run_rejected post_chat IsFinal set_decision_outcome get_decision_by_id
run_rejected-IsFinal c id why d s =
    outcome-IsFinal s id Outcome.rejected (Detail.rejected_by_human why) c.now refl

-- A decision is decided once: when an approval or a rejection of it was not refused, every later
-- approval and every later rejection is refused and leaves the state as it is, whatever the mode, the
-- authority, the repository and the edits.
pub approve_decision_once :
    (c c' : Context) (id : ℕ) (repo repo' : Option ℕ) (o o' : Option Overrides)
    (why why' : Option String) (s s' : State)
    → ((s' ≡ (approve_decision c id repo o s).0)
        × (is_done (approve_decision c id repo o s).1 ≡ true))
      ⊎ ((s' ≡ (reject_decision c id repo why s).0)
          × (is_done (reject_decision c id repo why s).1 ≡ true))
    → (r : Refusal) × (approve_decision c' id repo' o' s' ≡ (s', refusal r))
      × (reject_decision c' id repo' why' s' ≡ (s', refusal r))
unfolding approve_decision reject_decision
approve_decision_once c c' id repo repo' o o' why why' s s' (inl (e, h)) =
    final_refuses c' id repo' o' why' s' (
      subst (IsFinal id) (sym e) (
        checked-IsFinal id repo (λ d s. run_approved c id d (edited d o) (store_edits id d o s))
          (λ d s. run_approved-IsFinal c id d (edited d o) (store_edits id d o s)) s
          (get_decision_by_id s.db id) h))
approve_decision_once c c' id repo repo' o o' why why' s s' (inr (e, h)) =
    final_refuses c' id repo' o' why' s' (
      subst (IsFinal id) (sym e) (
        checked-IsFinal id repo (run_rejected c id why) (run_rejected-IsFinal c id why) s
          (get_decision_by_id s.db id) h))
