-- ===== src/Ops.antt =====
-- The op-log's data: JSON objects, the payload of an op, and the op as `commit_op` stores it
-- (core/kernel.py, schema/700_work_log_kernel.sql), with the identity blocks that
-- core/work_item/_independence.py stamps into payloads.
-- A SHA-256 digest is the number that it spells: hex digests have one length, so the order of the
-- strings is the order of the numbers. A payload is a record of the keys that the code reads, and
-- `extra` holds all other keys. The signing envelope, which neither the fold nor the op_id reads,
-- is left out.
pub mod Objects
use agent_notes.Prelude.{ℕ, String, Bool, true, false, Option, none, some, List, [], ◌||◌}
use agent_notes.Lifecycle.{Status, Transition}
use agent_notes.Ops.Objects.{Json, Dict}

pub data EntityType : Type 0 where
  work_item memory link : EntityType

-- The CHECK constraint on `op_log.op_type`.
pub data OpType : Type 0 where
  create set_status set_field add_link remove_link claim release heartbeat : OpType
  request wait close snapshot merge : OpType

-- A key of a dict: missing, present with `None`, or present with a value.
pub data Entry (A : Type 0) : Type 0 where
  absent null : Entry A
  is : A → Entry A

module _ {A : Type 0} where
  -- `payload.get(key)`
  abbrev pub get : Entry A → Option A
  get absent = none
  get null = none
  get (is a) = some a

  -- `payload.get(key, default)`
  abbrev pub get_or : Entry A → A → Option A
  get_or absent d = some d
  get_or null d = none
  get_or (is a) d = some a

  -- `if key in payload: state[key] = payload[key]`
  abbrev pub assign : Entry A → Option A → Option A
  assign absent old = old
  assign null old = none
  assign (is a) old = some a

  -- The key with the value that a nullable column holds.
  abbrev pub entry : Option A → Entry A
  entry none = null
  entry (some a) = is a

  -- `key in payload`
  abbrev pub has_key : Entry A → Bool
  has_key absent = false
  has_key _ = true

-- The keys that the fold owns. The two JSON columns are never null.
pub record Fields : Type 0 where
  pub project_id : Entry ℕ
  pub identifier : Entry String
  pub title : Entry String
  pub body_hash : Entry ℕ
  pub kind : Entry String
  pub status : Entry Status
  pub severity : Entry String
  pub external_refs : Option Dict
  pub diagnostic_keys : Option Dict
  pub embedding : Entry Json
  pub frontmatter_version : Entry ℕ

abbrev pub no_fields : Fields
no_fields = record {
  project_id = absent;
  identifier = absent;
  title = absent;
  body_hash = absent;
  kind = absent;
  status = absent;
  severity = absent;
  external_refs = none;
  diagnostic_keys = none;
  embedding = absent;
  frontmatter_version = absent;
}

abbrev has_dict : Option Dict → Bool
has_dict none = false
has_dict (some d) = true

-- The truth value of the dict: some key is present.
unfoldable pub has_any : Fields → Bool
has_any f =
    has_key f.project_id
    || has_key f.identifier
    || has_key f.title
    || has_key f.body_hash
    || has_key f.kind
    || has_key f.status
    || has_key f.severity
    || has_dict f.external_refs
    || has_dict f.diagnostic_keys
    || has_key f.embedding
    || has_key f.frontmatter_version

-- `resolve_producer`'s block
pub record Producer : Type 0 where
  pub harness : Option String
  pub model : Option String
  pub lineage : Option String
  pub session_key : Option String

-- An entry of `implementers`
pub record Person : Type 0 where
  pub actor_id : String
  pub lineage : Option String
  pub model : Option String

-- The running process (`process_reviewer`) or a delegated attempt (`attempt_reviewer`)
pub record Reviewer : Type 0 where
  pub actor_id : String
  pub producer : Producer
  pub attempt_id : Option String

pub data Independence : Type 0 where
  acknowledged human verified unverified_legacy no_recorded_implementers : Independence

-- What `check` returns, to be recorded in the op
pub record Evidence : Type 0 where
  pub reviewer : Reviewer
  pub implementers : List Person
  pub independence : Independence
  pub acknowledgement : Option String

pub record Payload : Type 0 where
  pub fields : Fields
  pub tombstone : Bool
  pub sealed_state : Option Fields
  pub merged_state : Option Fields
  pub op_seq : Option ℕ
  pub producer : Option Producer
  pub review_transition : Option Transition
  pub independence : Option Evidence
  pub extra : Dict

abbrev pub no_payload : Payload
no_payload = record {
  fields = no_fields;
  tombstone = false;
  sealed_state = none;
  merged_state = none;
  op_seq = none;
  producer = none;
  review_transition = none;
  independence = none;
  extra = [];
}

-- A row of `op_log`
pub record Op : Type 0 where
  pub op_id : ℕ
  pub entity_id : ℕ
  pub entity_type : EntityType
  pub op_type : OpType
  pub lamport : ℕ
  pub actor_id : Option String
  pub payload : Payload
  pub parent_op_ids : List ℕ

-- `authored`: the payload with its producer block stamped in.
abbrev pub authored : Payload → Producer → Payload
authored p producer = record p { producer = some producer }
