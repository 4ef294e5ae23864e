-- ===== src/Director/Dedup/Living.antt =====
-- Which proposals of a tick reach the executor (src/director/tick.ts, src/director/dedup.ts).
use openronin.Common.{
  ℕ, ◌≤◌, true, ◌≡◌, ◌≢◌, refl, sym, ◌∙◌, ap, Option, none, some, List, [], ◌∷◌, String, All, Memᴰ,
  arith, eq_iff,
}
use openronin.Sql.Laws.{select_all-mem, update-mem, append-mem, append-mem_last}
use openronin.Sql.Order.{first_by-mem}
use openronin.Director.Types.{Payload}
use openronin.Director.Decisions.{Tables, Decision, record_decision, set_decision_outcome}
use openronin.Director.Dedup.{
  Proposed, Recorded, is_duplicate, id_of, find_recent_duplicate, duplicate_by, check_for_duplicate,
  record_one, cons_some, record_tick_decisions,
}

-- The table holds a living decision of the last seven days with this hash.
abbrev pub HasLiving : Tables → ℕ → String → Type 0
HasLiving db repo_id hash =
    (d : Decision) × Memᴰ d db.decisions
    × (is_duplicate repo_id hash db.clock d ≡ true)
    × (d.id ≤ db.decision_seq)

-- A living decision is found.
find_recent_duplicate-HasLiving :
    (db : Tables) (repo_id : ℕ) (hash : String)
    → HasLiving db repo_id hash
    → (k : ℕ) × (find_recent_duplicate db.decisions repo_id hash db.clock ≡ some k)
unfolding find_recent_duplicate
find_recent_duplicate-HasLiving db repo_id hash (d, m, h, _) =
    let (y, e) = first_by-mem _ _ (select_all-mem _ db.decisions m h) in (y.id, ap id_of e)

living_not_free :
    (hash_payload : Payload → Option String) (db : Tables) (repo_id : ℕ) (d : Payload)
    (hash : String)
    → HasLiving db repo_id hash
    → check_for_duplicate hash_payload db.decisions repo_id d db.clock ≡ none
    → hash_payload d ≢ some hash
unfolding check_for_duplicate
living_not_free hash_payload db repo_id d hash l free e =
    let (k, found) = find_recent_duplicate-HasLiving db repo_id hash l in
    let same : duplicate_by hash_payload db.decisions repo_id db.clock (some hash) ≡ none =
      sym (ap (duplicate_by hash_payload db.decisions repo_id db.clock) e) ∙ free in
    ground (arith, sym found ∙ same)

module _ (hash_payload : Payload → Option String) where
  -- A living decision stays one while a proposal is recorded.
  HasLiving-recorded :
      (db : Tables) (repo_id : ℕ) (d : Proposed) (dup : Option ℕ) (hash : String)
      → HasLiving db repo_id hash
      → HasLiving (record_one hash_payload db repo_id d dup).0 repo_id hash
  unfolding record_decision set_decision_outcome
  HasLiving-recorded db repo_id d none hash (old, m, h, le) =
      (old, append-mem _ _ m, h, omega (arith, le))
  HasLiving-recorded db repo_id d (some k) hash (old, m, h, le) =
      (old, update-mem _ _ _ (append-mem _ _ m) (ground arith), h, omega (arith, le))

  -- A proposal that goes to the executor is a living decision.
  HasLiving-new :
      (db : Tables) (repo_id : ℕ) (d : Proposed) (hash : String)
      → hash_payload d.payload ≡ some hash
      → HasLiving (record_one hash_payload db repo_id d none).0 repo_id hash
  unfolding record_decision
  HasLiving-new db repo_id d hash e = (
    _,
    append-mem_last db.decisions _,
    rw e rw ((eq_iff hash hash).1 refl) (ground arith),
    omega arith,
  )

  -- no record with this hash
  abbrev Lacks : String → List Recorded → Type 0
  Lacks hash rs = All (λ (r : Recorded). hash_payload r.payload ≢ some hash) rs

  -- No two records have the same hash.
  abbrev pub AreDistinct : List Recorded → Type 0
  AreDistinct [] = Unit
  AreDistinct (r ∷ rs) =
      ((hash : String) → hash_payload r.payload ≡ some hash → Lacks hash rs) × AreDistinct rs

  -- the records from a proposal on, given the answer of its search
  abbrev records_from : Tables → ℕ → Proposed → List Proposed → Option ℕ → List Recorded
  records_from db repo_id d ds dup =
      cons_some hash_payload (record_one hash_payload db repo_id d dup).1
        (record_tick_decisions hash_payload (record_one hash_payload db repo_id d dup).0 repo_id
          ds).1

  Lacks-records_from :
      (db : Tables) (repo_id : ℕ) (d : Proposed) (ds : List Proposed) (hash : String)
      (dup : Option ℕ)
      → check_for_duplicate hash_payload db.decisions repo_id d.payload db.clock ≡ dup
      → HasLiving db repo_id hash
      → ((db' : Tables)
          → HasLiving db' repo_id hash
          → Lacks hash (record_tick_decisions hash_payload db' repo_id ds).1)
      → Lacks hash (records_from db repo_id d ds dup)
  Lacks-records_from db repo_id d ds hash none e l ih = (
    living_not_free hash_payload db repo_id d.payload hash l e,
    ih _ (HasLiving-recorded db repo_id d none hash l),
  )
  Lacks-records_from db repo_id d ds hash (some k) e l ih =
      ih _ (HasLiving-recorded db repo_id d (some k) hash l)

  -- Where the repository has a living decision of the last seven days with a hash, no proposal of a
  -- tick with that hash reaches the executor.
  pub record_tick_decisions-Lacks :
      (ds : List Proposed) (db : Tables) (repo_id : ℕ) (hash : String)
      → HasLiving db repo_id hash
      → Lacks hash (record_tick_decisions hash_payload db repo_id ds).1
  unfolding record_tick_decisions
  record_tick_decisions-Lacks [] db repo_id hash l = tt
  record_tick_decisions-Lacks (d ∷ ds) db repo_id hash l =
      Lacks-records_from db repo_id d ds hash _ refl l
        (λ db' l'. record_tick_decisions-Lacks ds db' repo_id hash l')

  AreDistinct-records_from :
      (db : Tables) (repo_id : ℕ) (d : Proposed) (ds : List Proposed) (dup : Option ℕ)
      → ((db' : Tables) → AreDistinct (record_tick_decisions hash_payload db' repo_id ds).1)
      → AreDistinct (records_from db repo_id d ds dup)
  AreDistinct-records_from db repo_id d ds none ih = (
    λ hash e. record_tick_decisions-Lacks ds _ repo_id hash (HasLiving-new db repo_id d hash e),
    ih _,
  )
  AreDistinct-records_from db repo_id d ds (some k) ih = ih _

  -- Of the proposals of one tick, no two that reach the executor have the same payload hash.
  pub record_tick_decisions-AreDistinct :
      (ds : List Proposed) (db : Tables) (repo_id : ℕ)
      → AreDistinct (record_tick_decisions hash_payload db repo_id ds).1
  unfolding record_tick_decisions
  record_tick_decisions-AreDistinct [] db repo_id = tt
  record_tick_decisions-AreDistinct (d ∷ ds) db repo_id =
      AreDistinct-records_from db repo_id d ds _
        (λ db'. record_tick_decisions-AreDistinct ds db' repo_id)
