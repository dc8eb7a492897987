-- ===== src/WorkItem/Create.antt =====
-- `file_work_item` of core/work_item/_native.py.
use agent_notes.Prelude.{ℕ, String, Option, none, some, []}
use agent_notes.Lifecycle.{Status}
use agent_notes.Ops.Objects.{Json, Dict}
use agent_notes.Ops.{create, work_item, is, entry, Fields, Payload, no_payload, authored}
use agent_notes.Store.Rows.{Row}
use agent_notes.Store.{
  Host, Tx, ◌>>=◌, ◌>>◌, pure, wi_kind, word, status_word, wi_severity, store_blob, make_op_id,
  commit_op, refold, write_change, emit_event, item_created, filed, default_to,
}
use agent_notes.WorkItem.{resolve_workspace_for_project, require_repo_project, validate_vocab}

pub record Filing : Type 0 where
  pub project_id : ℕ
  pub identifier : Option String
  pub title : String
  pub body : String
  pub kind : String
  pub status : Status
  pub severity : String
  pub external_refs : Option Dict
  pub diagnostic_keys : Option Dict
  pub embedding : Option Json
  pub frontmatter_version : ℕ

-- The payload of the create op, before its author is stamped in.
abbrev pub filed_fields : Filing → String → ℕ → Fields
filed_fields f identifier body_hash = record {
  project_id = is f.project_id;
  identifier = is identifier;
  title = is f.title;
  body_hash = is body_hash;
  kind = is f.kind;
  status = is f.status;
  severity = is f.severity;
  external_refs = some (default_to f.external_refs []);
  diagnostic_keys = some (default_to f.diagnostic_keys []);
  embedding = entry f.embedding;
  frontmatter_version = is f.frontmatter_version;
}

abbrev pub filed_payload : Host → Filing → String → ℕ → Payload
filed_payload host f identifier body_hash =
    authored (record no_payload { fields = filed_fields f identifier body_hash }) host.producer

-- The op, its fold, and the rows that report it.
unfoldable pub write_filing : Host → ℕ → Filing → String → ℕ → Tx Row
write_filing host workspace_id f identifier body_hash = do
  let payload = filed_payload host f identifier body_hash
  let entity_id = make_op_id host work_item create payload []
  op ← commit_op host (some entity_id) work_item create payload []
  folded ← refold entity_id
  write_change workspace_id f.project_id identifier (filed f.title f.kind f.status) none
  emit_event op entity_id identifier item_created
  pure folded

unfoldable pub file_work_item : Host → Filing → Tx Row
unfolding write_filing
file_work_item host f = do
  workspace_id ← resolve_workspace_for_project f.project_id
  require_repo_project f.project_id
  validate_vocab workspace_id (word wi_kind f.kind)
  validate_vocab workspace_id (status_word f.status)
  validate_vocab workspace_id (word wi_severity f.severity)
  let identifier = default_to f.identifier host.allocated
  body_hash ← store_blob host f.body
  write_filing host workspace_id f identifier body_hash
