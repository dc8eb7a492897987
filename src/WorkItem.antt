-- ===== src/WorkItem.antt =====
-- core/work_item/_common.py and core/work_item/_seal.py: what the native write path shares. The
-- handlers of core/work_item/_native.py and `reconcile_entity` of core/kernel.py are the modules below.
pub mod Create
pub mod Update
pub mod Close
pub mod Verdict
pub mod Leases
pub mod Delete
pub mod Reconcile
pub mod Approval
pub mod Leasing
pub mod Authority
pub mod Soundness
use agent_notes.Prelude.{
  ℕ, String, Bool, true, false, not, Option, none, some, List, [], ◌∷◌, ◌++◌, ◌&&◌, ◌||◌, ◌==◌, ltb,
  str_eq, if◌then◌else◌, is_empty, any, project_not_found, not_repo_project, unknown_vocabulary,
  not_found, seal_failed,
}
use agent_notes.Lifecycle.{Status, status_eq}
use agent_notes.Ops.Objects.{Json, str, num, Dict, dict_eq}
use agent_notes.Ops.{
  OpType, create, snapshot, work_item, Entry, absent, is, entry, Fields, no_fields, Payload,
  no_payload, Op,
}
use agent_notes.Kernel.{State}
use agent_notes.Store.Rows.{Row, find_row}
use agent_notes.Store.{
  Db, Project, ProjectKind, repo, Namespace, wi_kind, wi_status, wi_severity, Word, word,
  status_word, Host, Tx, ◌>>=◌, ◌>>◌, pure, raise, reads, require, found_or, commit_op, entity_ops,
  fold_entity, embedding_equal,
}

unfoldable pub find_project : ℕ → List Project → Option Project
find_project i [] = none
find_project i (p ∷ ps) = if p.id == i then some p else find_project i ps

unfoldable pub resolve_workspace_for_project : ℕ → Tx ℕ
unfolding find_project
resolve_workspace_for_project project_id = do
  found ← reads (λ db. find_project project_id db.projects)
  project ← found_or project_not_found found
  pure project.workspace_id

abbrev is_repo : ProjectKind → Bool
is_repo repo = true
is_repo _ = false

-- A project that is missing passes, as in the source.
abbrev may_hold_items : Option Project → Bool
may_hold_items none = true
may_hold_items (some p) = is_repo p.kind

unfoldable pub require_repo_project : ℕ → Tx (Unit {0})
unfolding find_project
require_repo_project project_id = do
  found ← reads (λ db. find_project project_id db.projects)
  require (may_hold_items found) not_repo_project

abbrev same_space : Namespace → Namespace → Bool
same_space wi_kind wi_kind = true
same_space wi_status wi_status = true
same_space wi_severity wi_severity = true
same_space _ _ = false

abbrev same_word : Word → Word → Bool
same_word (word n s) (word m t) = same_space n m && str_eq s t
same_word (status_word s) (status_word t) = status_eq s t
same_word _ _ = false

-- `validate_vocab`
unfoldable pub validate_vocab : ℕ → Word → Tx (Unit {0})
unfolding status_eq
validate_vocab workspace_id w = do
  vocabularies ← reads (λ db. db.vocabularies)
  require (any (λ (e : ℕ × Word). e.0 == workspace_id && same_word e.1 w) vocabularies)
      unknown_vocabulary

-- `if value is not None: validate_vocab(...)`
unfoldable pub validate_given : ℕ → Option Word → Tx (Unit {0})
validate_given workspace_id none = pure tt
validate_given workspace_id (some w) = validate_vocab workspace_id w

-- `load_work_item_row`, and `lock_row` with its check for a missing row
unfoldable pub load_work_item_row : ℕ → String → Tx Row
load_work_item_row project_id identifier = do
  found ← reads (λ db. find_row project_id identifier db.work_items)
  found_or not_found found

abbrev pub unless : Bool → String → List String
unless true name = []
unless false name = name ∷ []

module _ {A : Type 0} where
  -- The column of the fold, which may be null, against the column of the row.
  abbrev pub column_eq : (A → A → Bool) → Option A → A → Bool
  column_eq eq none b = false
  column_eq eq (some a) b = eq a b

abbrev pub nat_eq : ℕ → ℕ → Bool
nat_eq a b = a == b

unfoldable pub differing : Host → State → Row → List String
unfolding status_eq dict_eq embedding_equal
differing host s row =
    unless (column_eq nat_eq s.project_id row.project_id) "project_id"
    ++ unless (column_eq str_eq s.identifier row.identifier) "identifier"
    ++ unless (column_eq str_eq s.title row.title) "title"
    ++ unless (column_eq nat_eq s.body_hash row.body_hash) "body_hash"
    ++ unless (column_eq str_eq s.kind row.kind) "kind"
    ++ unless (column_eq status_eq s.status row.status) "status"
    ++ unless (column_eq str_eq s.severity row.severity) "severity"
    ++ unless (dict_eq s.external_refs row.external_refs) "external_refs"
    ++ unless (dict_eq s.diagnostic_keys row.diagnostic_keys) "diagnostic_keys"
    ++ unless (column_eq nat_eq s.frontmatter_version row.frontmatter_version) "frontmatter_version"
    ++ unless (embedding_equal host s.embedding row.embedding) "embedding"

abbrev diffs_of : Host → Row → Option State → List String
diffs_of host row none = "op_chain" ∷ []
diffs_of host row (some s) = differing host s row

-- The field list of `drift`; its state is `fold_entity`.
unfoldable pub drift : Host → Row → Db → List String
unfolding differing
drift host row db = diffs_of host row (fold_entity db.op_log row.entity_id)

abbrev is_create : OpType → Bool
is_create create = true
is_create _ = false

first_create : List Op → Option ℕ
first_create [] = none
first_create (op ∷ ops) = if is_create op.op_type then some op.op_id else first_create ops

-- `_create_op_id`
unfoldable pub create_op_id : ℕ → Db → Option ℕ
unfolding first_create
create_op_id entity_id db = first_create (entity_ops entity_id db.op_log)

latest : ℕ → List Op → ℕ
latest m [] = m
latest m (op ∷ ops) = latest (if ltb m op.lamport then op.lamport else m) ops

-- `_max_lamport`
unfoldable pub max_lamport : ℕ → Db → ℕ
unfolding latest
max_lamport entity_id db = latest 0 (entity_ops entity_id db.op_log)

-- The create stub of a chainless entity: it carries no title.
abbrev stub : Row → Payload
stub row = record no_payload { fields = record no_fields { identifier = is row.identifier } }

unfoldable pub anchor_op : Host → Row → Option ℕ → Tx ℕ
anchor_op host row (some op_id) = pure op_id
anchor_op host row none = do
  op ← commit_op host (some row.entity_id) work_item create (stub row) []
  pure op.op_id

abbrev has_state : Option State → Bool
has_state none = false
has_state (some s) = true

-- The row's columns; the vector only where the fold would not reproduce it.
abbrev pub sealed_fields : Row → Bool → Fields
sealed_fields row with_embedding = record {
  project_id = is row.project_id;
  identifier = is row.identifier;
  title = is row.title;
  body_hash = is row.body_hash;
  kind = is row.kind;
  status = is row.status;
  severity = is row.severity;
  external_refs = some row.external_refs;
  diagnostic_keys = some row.diagnostic_keys;
  embedding = if with_embedding then entry row.embedding else absent;
  frontmatter_version = is row.frontmatter_version;
}

abbrev pub snapshot_payload : Row → Bool → ℕ → Payload
snapshot_payload row with_embedding after_lamport = record no_payload {
  sealed_state = some (sealed_fields row with_embedding);
  extra = ("reason", str "plan-025-native-authority") ∷ ("after_lamport", num after_lamport) ∷ [];
}

needs_embedding : Option State → List String → Bool
needs_embedding none diffs = true
needs_embedding (some s) diffs = any (λ (d : String). str_eq d "embedding") diffs

-- The check that the fold now reproduces the row.
unfoldable pub verify_seal : Host → Row → List String → Tx (List String)
unfolding drift
verify_seal host row diffs = do
  remaining ← reads (drift host row)
  require (is_empty remaining) seal_failed
  pure diffs

unfoldable pub write_seal : Host → Row → Bool → List String → ℕ → ℕ → Tx (List String)
unfolding verify_seal
write_seal host row with_embedding diffs anchor after_lamport = do
  commit_op host (some row.entity_id) work_item snapshot
      (snapshot_payload row with_embedding after_lamport) (anchor ∷ [])
  verify_seal host row diffs

unfoldable pub seal_drifted : Host → Row → Option State → List String → Tx (List String)
unfolding anchor_op needs_embedding write_seal
seal_drifted host row folded diffs = do
  created ← reads (create_op_id row.entity_id)
  anchor ← anchor_op host row created
  after_lamport ← reads (max_lamport row.entity_id)
  write_seal host row (needs_embedding folded diffs) diffs anchor after_lamport

unfoldable pub seal : Host → Row → Tx (List String)
unfolding seal_drifted drift
seal host row = do
  folded ← reads (λ db. fold_entity db.op_log row.entity_id)
  diffs ← reads (drift host row)
  if is_empty diffs then pure [] else seal_drifted host row folded diffs

unfoldable pub seal_found : Host → Option Row → Tx (Unit {0})
seal_found host none = pure tt
seal_found host (some row) = seal host row >> pure tt

-- `seal_for_write`
unfoldable pub seal_for_write : Host → ℕ → String → Tx (Unit {0})
unfolding seal seal_found
seal_for_write host project_id identifier = do
  found ← reads (λ db. find_row project_id identifier db.work_items)
  seal_found host found
