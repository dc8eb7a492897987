-- ===== src/Review/Attempts.antt =====
-- Delegated reviews: the compare-and-set journal of core/work_item/_review_journal.py, and the
-- attempt as reviewer, `attempt_reviewer` and `consume_attempt` of core/work_item/_independence.py.
use Prim.Native.String
use agent_notes.Prelude.{
  ℕ, String, Bool, true, false, not, Option, none, some, List, [], ◌∷◌, ◌&&◌, ◌==◌, ltb, any,
  str_eq, if◌then◌else◌, ok, err, not_independent, attempt_state,
}
use agent_notes.Lifecycle.{Transition}
use agent_notes.Ops.Objects.{Json, str, obj, find}
use agent_notes.Ops.{Reviewer, Op}
use agent_notes.Store.{
  Db, Host, Attempt, AttemptStatus, planned, running, result_validated, transition_pending,
  transition_applied, failed, reconciliation_conflict, Assurance, attested, asserted, entity_ops,
  get_blob, Tx, ◌>>=◌, ◌>>◌, pure, reads, require, found_or,
}
use agent_notes.Review.{content_edits}

abbrev place : AttemptStatus → ℕ
place planned = 0
place running = 1
place result_validated = 2
place transition_pending = 3
place transition_applied = 4
place failed = 5
place reconciliation_conflict = 6

abbrev pub status_is : AttemptStatus → AttemptStatus → Bool
status_is a b = place a == place b

unfoldable pub find_attempt : String → List Attempt → Option Attempt
find_attempt i [] = none
find_attempt i (a ∷ rest) = if str_eq a.attempt_id i then some a else find_attempt i rest

-- UPDATE ... WHERE attempt_id = %s AND status = %s
unfoldable pub set_attempt : String → (Attempt → Attempt) → List Attempt → List Attempt
set_attempt i f [] = []
set_attempt i f (a ∷ rest) = if str_eq a.attempt_id i then f a ∷ rest else a ∷ set_attempt i f rest

-- `get_attempt`
unfoldable pub get_attempt : String → Tx (Option Attempt)
unfolding find_attempt
get_attempt attempt_id db = ok (find_attempt attempt_id db.attempts, db)

abbrev pub matching : String → AttemptStatus → Option Attempt → Bool
matching attempt_id expected none = false
matching attempt_id expected (some a) = status_is a.status expected

-- `_compare_and_set`: `values` are the other columns that are set.
unfoldable pub compare_and_set :
    String → AttemptStatus → AttemptStatus → (Attempt → Attempt) → Tx (Unit {0})
unfolding find_attempt set_attempt
compare_and_set attempt_id expected target values db =
    if matching attempt_id expected (find_attempt attempt_id db.attempts)
    then ok (
      tt,
      record db {
        attempts = set_attempt attempt_id (λ a. record (values a) { status = target }) db.attempts;
      },
    )
    else err attempt_state

unfoldable pub mark_running : String → Tx (Unit {0})
unfolding compare_and_set
mark_running attempt_id = compare_and_set attempt_id planned running (λ a. a)

unfoldable pub mark_result_validated : String → ℕ → String → Assurance → Tx (Unit {0})
unfolding compare_and_set
mark_result_validated attempt_id artifact_digest reported_model_identity identity_assurance =
    compare_and_set attempt_id running result_validated (λ a. record a {
      artifact_digest = some artifact_digest;
      reported_model_identity = some reported_model_identity;
      identity_assurance = some identity_assurance;
    })

-- With `native_op_id` given, as the native path does.
unfoldable pub mark_transition_pending : String → Transition → ℕ → Tx (Unit {0})
unfolding compare_and_set
mark_transition_pending attempt_id intended_transition native_op_id =
    compare_and_set attempt_id result_validated transition_pending (λ a. record a {
      intended_transition = some intended_transition;
      native_op_id = some native_op_id;
    })

unfoldable pub mark_transition_applied : String → Tx (Unit {0})
unfolding compare_and_set
mark_transition_applied attempt_id =
    compare_and_set attempt_id transition_pending transition_applied (λ a. a)

unfoldable pub mark_failed : String → AttemptStatus → Bool → Tx (Unit {0})
unfolding compare_and_set
mark_failed attempt_id expected conflict =
    compare_and_set attempt_id expected (if conflict then reconciliation_conflict else failed)
      (λ a. a)

json_text : Option Json → Option String
json_text (some (str s)) = some s
json_text _ = none

-- `artifact.get("verdict")`, or the one of `artifact["result"]` where it is missing or null.
verdict_in : Option Json → Option String
unfolding json_text
verdict_in (some (obj m)) = elim (find "verdict" m) [
  | some Json.null ↦ elim (find "result" m) [
    | some (obj r) ↦ json_text (find "verdict" r)
    | _ ↦ none
  ]
  | none ↦ elim (find "result" m) [ some (obj r) ↦ json_text (find "verdict" r) | _ ↦ none ]
  | v ↦ json_text v
]
verdict_in _ = none

-- `_artifact_verdict`
unfoldable pub artifact_verdict : Host → Option ℕ → Db → Option String
unfolding verdict_in
artifact_verdict host none db = none
artifact_verdict host (some digest) db = elim (get_blob digest db.content_blobs) [
  | none ↦ none
  | some text ↦ if str_eq text "" then none else verdict_in (host.parse_json text)
]

abbrev text_is : String → Option String → Bool
text_is t none = false
text_is t (some s) = str_eq s t

trusted : Option Assurance → Bool
trusted (some attested) = true
trusted (some asserted) = true
trusted _ = false

-- No content edit of the item is newer than the watermark, and there is a watermark.
fresh_at : Option ℕ → List Op → Bool
fresh_at none edits = false
fresh_at (some watermark) edits = not (any (λ (o : Op). ltb watermark o.lamport) edits)

-- `reported or declared`
reported_or : Option String → String → String
reported_or none declared = declared
reported_or (some reported) declared = if str_eq reported "" then declared else reported

-- `attempt_reviewer`: the key is the ID as uuid.UUID reads it, in its standard spelling.
unfoldable pub attempt_reviewer : Host → String → ℕ → ℕ → Tx Reviewer
unfolding get_attempt artifact_verdict trusted fresh_at reported_or
attempt_reviewer host attempt_id project_id entity_id = do
  key ← found_or not_independent (host.parse_uuid attempt_id)
  found ← get_attempt key
  row ← found_or not_independent found
  require (row.project_id == project_id && row.work_item_entity_id == entity_id) not_independent
  require (status_is row.status result_validated) not_independent
  require (trusted row.identity_assurance) not_independent
  edits ← reads (λ db. content_edits none (entity_ops entity_id db.op_log))
  require (fresh_at row.item_lamport edits) not_independent
  verdict ← reads (artifact_verdict host row.artifact_digest)
  require (text_is "accept" verdict) not_independent
  let model = reported_or row.reported_model_identity row.model_identity
  pure (record {
    actor_id = String.◌++◌ "attempt:" key;
    producer = record {
      harness = some row.harness;
      model = some model;
      lineage = host.lineage_for (some model);
      session_key = none;
    };
    attempt_id = some key;
  })

-- `consume_attempt`
unfoldable pub consume_attempt : Reviewer → Transition → ℕ → Tx (Unit {0})
unfolding mark_transition_pending mark_transition_applied
consume_attempt reviewer transition op_id = elim reviewer.attempt_id [
  | none ↦ pure tt
  | some key ↦ mark_transition_pending key transition op_id >> mark_transition_applied key
]
