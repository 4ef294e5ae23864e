-- ===== src/Director/Service/Reasons.antt =====
-- What clears a user's message, and what does not (src/director/index.ts, src/director/chat.ts).
use openronin.Common.{
  ℕ, suc, ◌≤◌, Bool, true, false, ◌≡◌, refl, Option, none, List, [], ◌∷◌, ◌++◌, All, arith, ◌==◌,
  ◌&&◌, Bool-cases, inl, inr, ==_refl,
}
use openronin.Sql.{select_all}
use openronin.Sql.Laws.{All-imp}
use openronin.Director.Types.{Mode, director, MessageType, Body, Message}
use openronin.Director.Decisions.{Tables, append_message}
use openronin.Director.Retrospective.{
  Move, hold, promote, demote, post_move, trust_ramp_on_cooldown, maybe_post_trust_ramp_suggestion,
}
use openronin.Director.Retrospective.Cooldown.{is_move}
use openronin.Director.Service.{
  is_director, is_unanswered, last_director_id, unanswered_user_directives, pick_tick_reason,
  is_past_cadence,
}

-- ids come from the sequence
abbrev pub HasSequence : Tables → Type 0
HasSequence db = All (λ (m : Message). m.id ≤ db.message_seq) db.messages

last_director_id-append :
    (xs : List Message) (m : Message) (repo_id : ℕ)
    → m.repo_id == repo_id && is_director m.role ≡ true
    → m.id ≤ last_director_id (xs ++ m ∷ []) repo_id
unfolding last_director_id
last_director_id-append [] m repo_id h = rw h (omega arith)
last_director_id-append (x ∷ xs) m repo_id h =
    ground (arith, last_director_id-append xs m repo_id h)

select_all_none :
    {A : Type 0} (p : A → Bool) (xs : List A) → All (λ x. p x ≡ false) xs → select_all p xs ≡ []
unfolding select_all
select_all_none p [] h = refl
select_all_none p (x ∷ xs) (e, h) = rw (e, select_all_none p xs h)

All-append_last :
    {A : Type 0} (P : A → Type 0) (xs : List A) (x : A) → All P xs → P x → All P (xs ++ x ∷ [])
All-append_last P [] x h p = (p, tt)
All-append_last P (y ∷ xs) x (q, h) p = (q, All-append_last P xs x h p)

not_unanswered :
    (repo_id last : ℕ) (m : Message) → m.id ≤ last → is_unanswered repo_id last m ≡ false
not_unanswered repo_id last m h = ground arith

-- Where message ids come from the sequence, a message of the Director, of any type, leaves no
-- message of the user unanswered.
pub unanswered_user_directives-director :
    (db : Tables) (repo_id : ℕ) (type : MessageType) (body : Body) (decision_id : Option ℕ)
    → HasSequence db
    → unanswered_user_directives (append_message db repo_id director type body decision_id) repo_id
      ≡ []
unfolding unanswered_user_directives append_message
unanswered_user_directives-director db repo_id type body decision_id h =
    let m : Message = record {
      id = suc db.message_seq;
      repo_id = repo_id;
      ts = db.clock;
      role = director;
      type = type;
      body = body;
      decision_id = decision_id;
    } in
    let top = last_director_id-append db.messages m repo_id (rw (==_refl repo_id) refl) in
    select_all_none _ _ (
      All-append_last _ db.messages m
        (All-imp _ _ db.messages
          (λ (x : Message) (le : x.id ≤ db.message_seq).
            not_unanswered repo_id _ x (omega (arith, le, top)))
          h)
        (not_unanswered repo_id _ m top))

after_post :
    (db : Tables) (repo_id : ℕ) (from to : Mode) (last_tick_at : Option ℕ) (cadence_hours later : ℕ)
    → HasSequence db
    → is_past_cadence last_tick_at cadence_hours later ≡ false
    → pick_tick_reason
        (record (append_message db repo_id director MessageType.question
          (Body.trust_ramp from to)
          none) { clock = later })
        repo_id
        last_tick_at
        cadence_hours
      ≡ none
unfolding pick_tick_reason append_message unanswered_user_directives
after_post db repo_id from to last_tick_at cadence_hours later h c =
    rw
      (unanswered_user_directives-director db repo_id MessageType.question (Body.trust_ramp from to)
        none h)
      rw c refl

after_move :
    (db : Tables) (repo_id : ℕ) (m : Move) (last_tick_at : Option ℕ) (cadence_hours later : ℕ)
    → HasSequence db
    → is_move m ≡ true
    → is_past_cadence last_tick_at cadence_hours later ≡ false
    → pick_tick_reason
        (record (post_move db repo_id m) { clock = later })
        repo_id
        last_tick_at
        cadence_hours
      ≡ none
after_move db repo_id hold last_tick_at cadence_hours later h m c = ground arith
after_move db repo_id (promote from to n) last_tick_at cadence_hours later h m c =
    after_post db repo_id from to last_tick_at cadence_hours later h c
after_move db repo_id (demote from to n) last_tick_at cadence_hours later h m c =
    after_post db repo_id from to last_tick_at cadence_hours later h c

-- Where message ids come from the sequence, on the tables that a trust ramp suggestion leaves there is
-- no reason for a tick at any moment at which the cadence has not passed, whatever the user wrote
-- before it.
pub pick_tick_reason-after_suggestion :
    (db : Tables) (repo_id : ℕ) (mode : Mode) (last_tick_at : Option ℕ) (cadence_hours later : ℕ)
    → HasSequence db
    → is_move (maybe_post_trust_ramp_suggestion db repo_id mode).1 ≡ true
    → is_past_cadence last_tick_at cadence_hours later ≡ false
    → pick_tick_reason
        (record (maybe_post_trust_ramp_suggestion db repo_id mode).0 { clock = later })
        repo_id
        last_tick_at
        cadence_hours
      ≡ none
unfolding maybe_post_trust_ramp_suggestion
pick_tick_reason-after_suggestion db repo_id mode last_tick_at cadence_hours later h m c =
    elim (Bool-cases (trust_ramp_on_cooldown db repo_id)) [
      | inl e ↦ ground (arith, (rw (e, maybe_post_trust_ramp_suggestion) at m))
      | inr e ↦
          rw (e, maybe_post_trust_ramp_suggestion)
            (after_move db repo_id _ last_tick_at cadence_hours later h
              (rw (e, maybe_post_trust_ramp_suggestion) at m) c)
    ]
