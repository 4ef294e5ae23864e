-- ===== src/Director/Retrospective/Cooldown.antt =====
-- When a suggestion of another mode is posted again (src/director/trust-ramp.ts).
use openronin.Common.{
  ℕ, ◌+◌, ◌*◌, ◌<◌, Bool, true, false, ◌≡◌, refl, inl, inr, none, List, [], ◌∷◌, ◌++◌, arith,
  Bool-cases, Option-cases, is_some,
}
use openronin.Sql.{select}
use openronin.Sql.Laws.{select-append, select-append_none}
use openronin.Director.Types.{Mode, Role, MessageType, Body}
use openronin.Director.Decisions.{Tables, append_message, day_ms}
use openronin.Director.Retrospective.{
  Move, hold, promote, demote, trust_ramp_on_cooldown, post_move, maybe_post_trust_ramp_suggestion,
}

is_some-select-append {ℓ} :
    {A : Type ℓ} (p : A → Bool) (xs : List A) (x : A)
    → p x ≡ true
    → is_some (select p (xs ++ x ∷ [])) ≡ true
is_some-select-append p xs x h = elim (Option-cases (select p xs)) [
  | inl e ↦ rw (select-append_none p xs e h) refl
  | inr (y, e) ↦ rw (select-append p xs (x ∷ []) e) refl
]

-- whether a suggestion was made
abbrev pub is_move : Move → Bool
is_move hold = false
is_move _ = true

trust_ramp_on_cooldown-post :
    (db : Tables) (repo_id later : ℕ) (from to : Mode)
    → later < db.clock + 7 * day_ms
    → trust_ramp_on_cooldown
        (record (append_message db repo_id Role.director MessageType.question
          (Body.trust_ramp from to)
          none) { clock = later })
        repo_id
      ≡ true
unfolding trust_ramp_on_cooldown append_message
trust_ramp_on_cooldown-post db repo_id later from to h =
    is_some-select-append _ db.messages _ (ground arith)

trust_ramp_on_cooldown-post_move :
    (db : Tables) (repo_id later : ℕ) (m : Move)
    → is_move m ≡ true
    → later < db.clock + 7 * day_ms
    → trust_ramp_on_cooldown (record (post_move db repo_id m) { clock = later }) repo_id ≡ true
trust_ramp_on_cooldown-post_move db repo_id later hold e h = ground arith
trust_ramp_on_cooldown-post_move db repo_id later (promote from to n) e h =
    trust_ramp_on_cooldown-post db repo_id later from to h
trust_ramp_on_cooldown-post_move db repo_id later (demote from to n) e h =
    trust_ramp_on_cooldown-post db repo_id later from to h

posted-on_cooldown :
    (db : Tables) (repo_id later : ℕ) (mode : Mode)
    → is_move (maybe_post_trust_ramp_suggestion db repo_id mode).1 ≡ true
    → later < db.clock + 7 * day_ms
    → trust_ramp_on_cooldown
        (record (maybe_post_trust_ramp_suggestion db repo_id mode).0 { clock = later })
        repo_id
      ≡ true
unfolding maybe_post_trust_ramp_suggestion
posted-on_cooldown db repo_id later mode e h =
    elim (Bool-cases (trust_ramp_on_cooldown db repo_id)) [
      | inl c ↦ ground (arith, (rw (c, maybe_post_trust_ramp_suggestion) at e))
      | inr c ↦
          rw (c, maybe_post_trust_ramp_suggestion)
            (trust_ramp_on_cooldown-post_move db repo_id later _
              (rw (c, maybe_post_trust_ramp_suggestion) at e) h)
    ]

-- After a suggestion was posted, another call for the repository within seven days posts nothing,
-- whatever its mode is by then.
pub maybe_post_trust_ramp_suggestion-once :
    (db : Tables) (repo_id later : ℕ) (mode mode_later : Mode)
    → is_move (maybe_post_trust_ramp_suggestion db repo_id mode).1 ≡ true
    → later < db.clock + 7 * day_ms
    → maybe_post_trust_ramp_suggestion
        (record (maybe_post_trust_ramp_suggestion db repo_id mode).0 { clock = later })
        repo_id
        mode_later
      ≡ (record (maybe_post_trust_ramp_suggestion db repo_id mode).0 { clock = later }, hold)
unfolding maybe_post_trust_ramp_suggestion
maybe_post_trust_ramp_suggestion-once db repo_id later mode mode_later e h =
    rw (posted-on_cooldown db repo_id later mode e h) refl
