-- ===== src/Director/Decisions.antt =====
-- The Director's tables and the data layer of its decisions (src/director/decisions.ts,
-- src/director/chat.ts, src/director/notes.ts). `ts` and `outcome_ts` are moments, which SQLite
-- compares in one format; a moment is in milliseconds.
use openronin.Common.{
  ℕ, suc, ◌+◌, ◌*◌, String, Bool, true, false, ◌&&◌, Option, none, some, List, [], ◌∷◌, ◌++◌, ◌==◌,
  ltb,
}
use openronin.Sql.{select, select_all, update, count}
use openronin.Director.Types.{
  Payload, Outcome, pending, expired, Detail, expired_after, Role, MessageType, Body, Message, Note,
}

pub record Decision : Type 0 where
  pub id : ℕ
  pub repo_id : ℕ
  pub ts : ℕ
  pub rationale : String
  pub payload : Payload
  pub payload_hash : Option String
  pub outcome : Outcome
  pub outcome_ts : Option ℕ
  pub outcome_details : Option Detail

-- `clock` is the moment that `datetime('now')` gives a new row.
pub record Tables : Type 0 where
  pub clock : ℕ
  pub decisions : List Decision
  pub decision_seq : ℕ
  pub messages : List Message
  pub message_seq : ℕ
  pub notes : List Note
  pub note_seq : ℕ

abbrev pub is_pending : Outcome → Bool
is_pending pending = true
is_pending _ = false

unfoldable pub append_message : Tables → ℕ → Role → MessageType → Body → Option ℕ → Tables
append_message db repo_id role type body decision_id = record db {
  messages =
      db.messages
      ++ record {
        id = suc db.message_seq;
        repo_id = repo_id;
        ts = db.clock;
        role = role;
        type = type;
        body = body;
        decision_id = decision_id;
      }
        ∷ [];
  message_seq = suc db.message_seq;
}

unfoldable pub record_note : Tables → ℕ → String → String → Tables × ℕ
record_note db repo_id kind body = (
  record db {
    notes =
        db.notes
        ++ record { id = suc db.note_seq; repo_id = repo_id; kind = kind; body = body } ∷ [];
    note_seq = suc db.note_seq;
  },
  suc db.note_seq,
)

unfoldable pub record_decision :
    Tables → ℕ → String → Payload → Option String → Outcome → ℕ → Tables × ℕ
record_decision db repo_id rationale payload hash outcome now = (
  record db {
    decisions =
        db.decisions
        ++ record {
          id = suc db.decision_seq;
          repo_id = repo_id;
          ts = now;
          rationale = rationale;
          payload = payload;
          payload_hash = hash;
          outcome = outcome;
          outcome_ts = none;
          outcome_details = none;
        }
          ∷ [];
    decision_seq = suc db.decision_seq;
  },
  suc db.decision_seq,
)

unfoldable pub set_decision_outcome : Tables → ℕ → Outcome → Detail → ℕ → Tables
set_decision_outcome db decision_id outcome details now = record db {
  decisions =
      update (λ d. d.id == decision_id)
        (λ d. record d { outcome = outcome; outcome_ts = some now; outcome_details = some details })
        db.decisions;
}

unfoldable pub get_decision_by_id : Tables → ℕ → Option Decision
get_decision_by_id db decision_id = select (λ d. d.id == decision_id) db.decisions

unfoldable pub set_decision_payload : Tables → ℕ → Payload → Tables
set_decision_payload db decision_id payload = record db {
  decisions = update (λ d. d.id == decision_id) (λ d. record d { payload = payload }) db.decisions;
}

abbrev pub day_ms : ℕ
day_ms = 86_400_000

-- `ts < datetime('now', '-N days')`
abbrev pub is_stale : ℕ → ℕ → ℕ → Decision → Bool
is_stale repo_id max_age_days now d =
    d.repo_id == repo_id && (is_pending d.outcome && ltb (d.ts + max_age_days * day_ms) now)

unfoldable pub expire_stale_pending : Tables → ℕ → ℕ → ℕ → Tables × ℕ
expire_stale_pending db repo_id max_age_days now = (
  record db {
    decisions =
        update (is_stale repo_id max_age_days now)
          (λ d. record d {
            outcome = expired;
            outcome_ts = some now;
            outcome_details = some (expired_after max_age_days);
          })
          db.decisions;
  },
  count (is_stale repo_id max_age_days now) db.decisions,
)

unfoldable pub pending_decisions : Tables → ℕ → List Decision
pending_decisions db repo_id =
    select_all (λ d. d.repo_id == repo_id && is_pending d.outcome) db.decisions
