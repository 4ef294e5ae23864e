-- ===== src/Director/Dedup.antt =====
-- The search for a living duplicate of a proposal (src/director/dedup.ts, src/director/decisions.ts)
-- and the recording of a tick's proposals (src/director/tick.ts). `hashPayload`, whose canonical text
-- goes through regular expressions and SHA-256, is a parameter.
pub mod Living
use openronin.Common.{
  ℕ, ◌+◌, ◌*◌, String, Bool, true, false, ◌&&◌, ◌||◌, Option, none, some, List, [], ◌∷◌, ◌==◌, ltb,
  leb, str_eq, if◌then◌else◌,
}
use openronin.Sql.{select_all, first_by}
use openronin.Director.Types.{Payload, Outcome, pending, executed, skipped, Detail, duplicate_of}
use openronin.Director.Decisions.{
  Tables, Decision, record_decision, set_decision_outcome, is_pending, day_ms,
}

abbrev pub is_living : Outcome → Bool
is_living pending = true
is_living executed = true
is_living _ = false

-- `payload_hash = ?`; NULL equals nothing
abbrev pub has_hash : String → Option String → Bool
has_hash hash none = false
has_hash hash (some h) = str_eq h hash

abbrev pub is_duplicate : ℕ → String → ℕ → Decision → Bool
is_duplicate repo_id hash now d =
    d.repo_id == repo_id
    && (has_hash hash d.payload_hash && (is_living d.outcome && ltb now (d.ts + 7 * day_ms)))

-- the `id` of the row found
abbrev pub id_of : Option Decision → Option ℕ
id_of none = none
id_of (some d) = some d.id

unfoldable pub find_recent_duplicate : List Decision → ℕ → String → ℕ → Option ℕ
find_recent_duplicate decisions repo_id hash now = id_of (
    first_by (λ (a b : Decision). leb b.id a.id)
      (select_all (is_duplicate repo_id hash now) decisions))

-- A decision as the engine proposes it.
pub record Proposed : Type 0 where
  pub rationale : String
  pub payload : Payload

pub record Recorded : Type 0 where
  pub id : ℕ
  pub payload : Payload

module _ (hash_payload : Payload → Option String) where
  abbrev pub duplicate_by : List Decision → ℕ → ℕ → Option String → Option ℕ
  duplicate_by decisions repo_id now none = none
  duplicate_by decisions repo_id now (some hash) = find_recent_duplicate decisions repo_id hash now

  unfoldable pub check_for_duplicate : List Decision → ℕ → Payload → ℕ → Option ℕ
  check_for_duplicate decisions repo_id payload now =
      duplicate_by decisions repo_id now (hash_payload payload)

  -- the new row, still pending
  abbrev pub inserted : Tables → ℕ → Proposed → Tables × ℕ
  inserted db repo_id d =
      record_decision db repo_id d.rationale d.payload (hash_payload d.payload) pending db.clock

  -- one turn of the loop of `recordTickDecisions`, given the search's answer
  abbrev pub record_one : Tables → ℕ → Proposed → Option ℕ → Tables × Option Recorded
  record_one db repo_id d none = (
    (inserted db repo_id d).0,
    some (record { id = (inserted db repo_id d).1; payload = d.payload }),
  )
  record_one db repo_id d (some k) = (
    set_decision_outcome (inserted db repo_id d).0 (inserted db repo_id d).1 skipped
        (duplicate_of k) db.clock,
    none,
  )

  abbrev pub cons_some : Option Recorded → List Recorded → List Recorded
  cons_some none rs = rs
  cons_some (some r) rs = r ∷ rs

  abbrev pub recorded_one : Tables → ℕ → Proposed → Tables × Option Recorded
  recorded_one db repo_id d =
      record_one db repo_id d (check_for_duplicate db.decisions repo_id d.payload db.clock)

  unfoldable pub record_tick_decisions : Tables → ℕ → List Proposed → Tables × List Recorded
  record_tick_decisions db repo_id [] = (db, [])
  record_tick_decisions db repo_id (d ∷ ds) =
      let one = recorded_one db repo_id d in
      let rest = record_tick_decisions one.0 repo_id ds in (rest.0, cons_some one.1 rest.1)
