-- ===== src/Store.antt =====
-- The database as the work-item code uses it (schema/*.sql): its tables, a transaction over them,
-- and the statements of core/kernel.py and core/change_log.py.
-- A transaction is a function of the database; a raised exception rolls it back, so no state comes
-- with it. (The lamport sequence is not rolled back by Postgres: its numbers may then have gaps,
-- where the model gives the number again.)
pub mod Rows
pub mod Sound
pub mod Steps
pub mod Chain
use agent_notes.Prelude.{
  ℕ, String, ◌≡◌, ◌+◌, Bool, true, false, Option, none, some, List, [], ◌∷◌, ◌++◌, ◌==◌, ◌&&◌, any,
  str_eq, if◌then◌else◌, Result, ok, err, Error, filter, is_empty, ltb, project_not_found,
  not_repo_project, unknown_vocabulary, not_found, unique_violation, fold_failed, not,
}
use agent_notes.Lifecycle.{Status, Transition}
use agent_notes.Ops.Objects.{Json, Dict}
use agent_notes.Ops.{EntityType, OpType, create, Fields, Producer, Payload, Op}
use agent_notes.Kernel.{State, sort_ops, fold_work_item_state}
use agent_notes.Store.Rows.{Row, row_of, find_entity, find_row, upsert}

pub record Lease : Type 0 where
  pub entity_id : ℕ
  pub actor_id : String
  pub acquired_at : ℕ
  pub expires_at : ℕ
  pub heartbeat_count : ℕ

-- `event_type` of op_log_events, with what its payload says beside the entity and the identifier.
pub data EventType : Type 0 where
  item_created item_closed claim_granted claim_released item_heartbeat item_deleted : EventType
  item_status_changed : Status → Status → Option Transition → EventType
  item_updated : Fields → EventType
  item_gate_attested : String → EventType
  item_merged : ℕ → EventType

pub record Event : Type 0 where
  pub op_id : ℕ
  pub entity_id : ℕ
  pub identifier : String
  pub event_type : EventType

-- `{"from": old, "to": new}`, present where the two differ.
abbrev pub Diff : Type 0 → Type 0
Diff A = Option (A × A)

pub record Diffs : Type 0 where
  pub title : Diff String
  pub kind : Diff String
  pub status : Diff Status
  pub severity : Diff String
  pub body : Diff String
  pub external_refs : Option Dict
  pub diagnostic_keys : Option Dict

-- `event` of change_log, with its payload.
pub data ChangeType : Type 0 where
  filed : String → String → Status → ChangeType
  updated : Diffs → ChangeType
  status_changed : Status → Status → Option (Transition × String) → ChangeType
  gate_attested : String → ChangeType
  claimed heartbeat : String → ℕ → ChangeType
  released : String → ChangeType
  deleted : String → ChangeType

pub record Change : Type 0 where
  pub workspace_id : ℕ
  pub project_id : ℕ
  pub identifier : String
  pub change : ChangeType
  pub actor : Option String

pub data ProjectKind : Type 0 where
  repo vm global : ProjectKind

pub record Project : Type 0 where
  pub id : ℕ
  pub workspace_id : ℕ
  pub kind : ProjectKind

pub data Namespace : Type 0 where
  wi_kind wi_status wi_severity : Namespace

-- A row of `vocabularies` that is not archived; a status is a name in its own namespace.
pub data Word : Type 0 where
  word : Namespace → String → Word
  status_word : Status → Word

-- AttemptStatus and the columns of review_delegation_attempts that the review gate reads.
pub data AttemptStatus : Type 0 where
  planned running result_validated transition_pending transition_applied : AttemptStatus
  failed reconciliation_conflict : AttemptStatus

pub data Assurance : Type 0 where
  attested asserted degraded : Assurance

pub record Attempt : Type 0 where
  pub attempt_id : String
  pub project_id : ℕ
  pub work_item_entity_id : ℕ
  pub harness : String
  pub model_identity : String
  pub reported_model_identity : Option String
  pub identity_assurance : Option Assurance
  pub artifact_digest : Option ℕ
  pub intended_transition : Option Transition
  pub native_op_id : Option ℕ
  pub status : AttemptStatus
  pub item_lamport : Option ℕ

pub record Db : Type 0 where
  pub lamport : ℕ
  pub op_log : List Op
  pub work_items : List Row
  pub work_item_leases : List Lease
  pub op_log_events : List Event
  pub change_log : List Change
  pub content_blobs : List (ℕ × String)
  pub attempts : List Attempt
  pub projects : List Project
  pub vocabularies : List (ℕ × Word)

-- What the process brings along, and the code that is not in the repository: SHA-256 of the canonical
-- JSON of an op and of a text, the lookup in `model_lineages`, the parsers of UUIDs and JSON, the
-- comparison of two float vectors, the clock, and the number that `allocate_work_item_identifier` hands out.
pub record Host : Type 0 where
  pub op_digest : EntityType → OpType → Payload → List ℕ → ℕ
  pub content_hash : String → ℕ
  pub lineage_for : Option String → Option String
  pub parse_uuid : String → Option String
  pub parse_json : String → Option Json
  pub embedding_close : Json → Json → Bool
  pub actor_id : String
  pub producer : Producer
  pub now : ℕ
  pub timestamp : String
  pub allocated : String

-- `embedding_equal`: the comparison of two vectors is the host's.
unfoldable pub embedding_equal : Host → Option Json → Option Json → Bool
embedding_equal host none none = true
embedding_equal host (some a) (some b) = host.embedding_close a b
embedding_equal host _ _ = false

abbrev pub Tx : Type 0 → Type 0
Tx A = Db → Result (A × Db)

abbrev continue : {A B : Type 0} → Result (A × Db) → (A → Tx B) → Result (B × Db)
continue (ok (a, db)) f = f a db
continue (err e) f = err e

infixl 5 ◌>>=◌ ◌>>◌
unfoldable pub ◌>>=◌ : {A B : Type 0} → Tx A → (A → Tx B) → Tx B
◌>>=◌ m f db = continue (m db) f

abbrev pub ◌>>◌ : {A B : Type 0} → Tx A → Tx B → Tx B
m >> k = m >>= λ _. k

unfoldable pub pure : {A : Type 0} → A → Tx A
pure a db = ok (a, db)

unfoldable pub raise : {A : Type 0} → Error → Tx A
raise e db = err e

-- A SELECT
unfoldable pub reads : {A : Type 0} → (Db → A) → Tx A
reads f db = ok (f db, db)

-- Code that only computes and may raise.
unfoldable pub lift : {A : Type 0} → Result A → Tx A
lift (ok a) db = ok (a, db)
lift (err e) db = err e

unfoldable pub require : Bool → Error → Tx (Unit {0})
require true e db = ok (tt, db)
require false e db = err e

-- `row = cur.fetchone()`, raising where there is none.
unfoldable pub found_or : {A : Type 0} → Error → Option A → Tx A
found_or e none db = err e
found_or e (some a) db = ok (a, db)

unfoldable pub has_blob : ℕ → List (ℕ × String) → Bool
has_blob h [] = false
has_blob h ((k, t) ∷ blobs) = if k == h then true else has_blob h blobs

-- `store_blob`: ON CONFLICT DO NOTHING
unfoldable pub store_blob : Host → String → Tx ℕ
unfolding has_blob
store_blob host text db =
    let h = host.content_hash text in
    ok (
      h,
      record db {
        content_blobs =
            if has_blob h db.content_blobs then db.content_blobs else (h, text) ∷ db.content_blobs;
      },
    )

unfoldable pub get_blob : ℕ → List (ℕ × String) → Option String
get_blob h [] = none
get_blob h ((k, t) ∷ blobs) = if k == h then some t else get_blob h blobs

unfoldable pub insert_id : ℕ → List ℕ → List ℕ
insert_id i [] = i ∷ []
insert_id i (j ∷ js) = if ltb j i then j ∷ insert_id i js else i ∷ j ∷ js

unfoldable pub sorted_ids : List ℕ → List ℕ
unfolding insert_id
sorted_ids [] = []
sorted_ids (i ∷ is) = insert_id i (sorted_ids is)

-- `_make_op_id`
unfoldable pub make_op_id : Host → EntityType → OpType → Payload → List ℕ → ℕ
unfolding sorted_ids
make_op_id host entity_type op_type payload parents =
    host.op_digest entity_type op_type payload (sorted_ids parents)

-- Every op but `create` has its own lamport in the hashed payload.
abbrev pub sequenced : OpType → ℕ → Payload → Payload
sequenced create lamport payload = payload
sequenced _ lamport payload = record payload { op_seq = some lamport }

abbrev pub default_to : {A : Type 0} → Option A → A → A
default_to none d = d
default_to (some a) d = a

-- The row that `commit_op` writes under the given lamport.
unfoldable pub new_op : Host → ℕ → Option ℕ → EntityType → OpType → Payload → List ℕ → Op
unfolding make_op_id
new_op host lamport entity_id entity_type op_type payload parents =
    let stored = sequenced op_type lamport payload in
    let op_id = make_op_id host entity_type op_type stored parents in
    record {
      op_id = op_id;
      entity_id = default_to entity_id op_id;
      entity_type = entity_type;
      op_type = op_type;
      lamport = lamport;
      actor_id = some host.actor_id;
      payload = stored;
      parent_op_ids = parents;
    }

-- INSERT INTO op_log, whose op_id is UNIQUE
unfoldable pub insert_log : Op → Tx Op
insert_log op db =
    if any (λ (o : Op). o.op_id == op.op_id) db.op_log
    then err unique_violation
    else ok (op, record db { lamport = op.lamport; op_log = db.op_log ++ op ∷ [] })

-- The payload is taken to come back from its JSONB column as it went in.
unfoldable pub commit_op : Host → Option ℕ → EntityType → OpType → Payload → List ℕ → Tx Op
unfolding new_op insert_log
commit_op host entity_id entity_type op_type payload parents db =
    insert_log (new_op host (db.lamport + 1) entity_id entity_type op_type payload parents) db

-- `_get_entity_ops`: WHERE entity_id ORDER BY lamport, op_id
unfoldable pub entity_ops : ℕ → List Op → List Op
entity_ops entity_id log = sort_ops (filter (λ (o : Op). o.entity_id == entity_id) log)

-- `fold_work_item_state` on the connection
abbrev pub fold_entity : List Op → ℕ → Option State
fold_entity log entity_id = fold_work_item_state entity_id (entity_ops entity_id log)

-- INSERT INTO work_items ... ON CONFLICT (entity_id) DO UPDATE: NOT NULL and CHECK constraints are
-- `row_of`'s, and (project_id, identifier) is UNIQUE.
unfoldable pub write_row : Option Row → Tx Row
write_row none db = err unique_violation
write_row (some row) db =
    if any
      (λ (r : Row).
        r.project_id == row.project_id
        && str_eq r.identifier row.identifier
        && not (r.entity_id == row.entity_id))
      db.work_items
    then err unique_violation
    else ok (row, record db { work_items = upsert row db.work_items })

unfoldable pub cache_state : Option State → Tx (Option Row)
unfolding write_row pure ◌>>=◌
cache_state none = pure none
cache_state (some s) = do row ← write_row (row_of s); pure (some row)

-- `fold_work_item`
unfoldable pub fold_work_item : ℕ → Tx (Option Row)
unfolding reads cache_state
fold_work_item entity_id = do
  state ← reads (λ db. fold_entity db.op_log entity_id)
  cache_state state

-- The handlers' own `if folded is None: raise RuntimeError(...)` behind the fold.
unfoldable pub refold : ℕ → Tx Row
unfolding fold_work_item found_or
refold entity_id = do folded ← fold_work_item entity_id; found_or fold_failed folded

unfoldable pub emit_event : Op → ℕ → String → EventType → Tx (Unit {0})
emit_event op entity_id identifier event_type db = ok (
  tt,
  record db {
    op_log_events =
        record {
          op_id = op.op_id;
          entity_id = entity_id;
          identifier = identifier;
          event_type = event_type;
        }
        ∷ db.op_log_events;
  },
)

unfoldable pub write_change : ℕ → ℕ → String → ChangeType → Option String → Tx (Unit {0})
write_change workspace_id project_id identifier change actor db = ok (
  tt,
  record db {
    change_log =
        record {
          workspace_id = workspace_id;
          project_id = project_id;
          identifier = identifier;
          change = change;
          actor = actor;
        }
        ∷ db.change_log;
  },
)
