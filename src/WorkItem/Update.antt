-- ===== src/WorkItem/Update.antt =====
-- `update_work_item` of core/work_item/_native.py.
use agent_notes.Prelude.{
  ℕ, String, Bool, true, false, not, Option, none, some, [], ◌∷◌, ◌||◌, ◌==◌, str_eq, if◌then◌else◌,
  not_independent,
}
use agent_notes.Lifecycle.{Status, status_eq, transition_for, Transition}
use agent_notes.Ops.Objects.{Json, str, Dict, dict_eq}
use agent_notes.Ops.{
  set_field, set_status, work_item, Entry, absent, is, Fields, no_fields, has_any, Payload,
  no_payload, authored, Evidence,
}
use agent_notes.Store.Rows.{Row}
use agent_notes.Store.{
  Host, Tx, ◌>>=◌, ◌>>◌, pure, reads, lift, require, wi_kind, word, status_word, wi_severity, Word,
  store_blob, get_blob, commit_op, refold, write_change, emit_event, entity_ops,
  item_status_changed, item_updated, updated, Diff, Diffs, embedding_equal,
}
use agent_notes.Review.{gated, review_transition_for, implementers, check, process_reviewer}
use agent_notes.WorkItem.{
  resolve_workspace_for_project, validate_given, load_work_item_row, seal_for_write,
}

-- The arguments that may be `None`, and `force`.
pub record Edit : Type 0 where
  pub title : Option String
  pub body : Option String
  pub kind : Option String
  pub status : Option Status
  pub severity : Option String
  pub external_refs : Option Dict
  pub diagnostic_keys : Option Dict
  pub embedding : Option Json
  pub frontmatter_version : Option ℕ
  pub force : Bool

module _ {A : Type 0} where
  -- `if value is not None and value != old: payload[key] = value`
  abbrev changed : (A → A → Bool) → Option A → A → Entry A
  changed eq none old = absent
  changed eq (some new) old = if eq new old then absent else is new

  abbrev given : Option A → (A → Word) → Option Word
  given none w = none
  given (some a) w = some (w a)

abbrev changed_dict : Option Dict → Dict → Option Dict
changed_dict none old = none
changed_dict (some new) old = if dict_eq old new then none else some new

abbrev changed_embedding : Host → Option Json → Option Json → Entry Json
changed_embedding host none old = absent
changed_embedding host (some new) old =
    if embedding_equal host (some new) old then absent else is new

abbrev nat_eq : ℕ → ℕ → Bool
nat_eq a b = a == b

-- The payload of the set_field op: the fields that differ from the item's current values.
unfoldable pub changed_fields : Host → Edit → Row → Option ℕ → Fields
unfolding dict_eq embedding_equal
changed_fields host edit old body_hash = record no_fields {
  title = changed str_eq edit.title old.title;
  body_hash = changed nat_eq body_hash old.body_hash;
  kind = changed str_eq edit.kind old.kind;
  severity = changed str_eq edit.severity old.severity;
  external_refs = changed_dict edit.external_refs old.external_refs;
  diagnostic_keys = changed_dict edit.diagnostic_keys old.diagnostic_keys;
  embedding = changed_embedding host edit.embedding old.embedding;
  frontmatter_version = changed nat_eq edit.frontmatter_version old.frontmatter_version;
}

-- `store_blob` if a body is given.
unfoldable pub store_body : Host → Option String → Tx (Option ℕ)
store_body host none = pure none
store_body host (some body) = do h ← store_blob host body; pure (some h)

-- `if status is not None and status != old["status"]`
unfoldable pub new_status : Option Status → Status → Option Status
unfolding status_eq
new_status none old = none
new_status (some s) old = if status_eq s old then none else some s

-- The independence check of a move that approves review work; other moves record no evidence.
unfoldable pub approve : Host → Row → Bool → Bool → Tx (Option Evidence)
unfolding lift require
approve host old needs_review has_edits = elim needs_review [
  | false ↦ pure none
  | true ↦ do
    require (not has_edits) not_independent
    people ← reads (λ db. implementers (entity_ops old.entity_id db.op_log))
    found ← lift (check people (process_reviewer host) none)
    pure (some found)
]

abbrev status_payload : Host → Status → Option Transition → Option Evidence → Payload
status_payload host status verdict found =
    authored
      (record no_payload {
        fields = record no_fields { status = is status };
        review_transition = verdict;
        independence = found;
        extra = ("changed_at", str host.timestamp) ∷ [];
      })
      host.producer

-- Unless forced, the move has to be one that the workflow knows.
unfoldable pub preflight : Bool → Status → Status → Tx (Unit {0})
preflight true old new = pure tt
preflight false old new = lift (transition_for old new) >> pure tt

-- The set_status op of a changed status.
unfoldable pub move_status : Host → Row → Bool → Bool → Status → Tx (Unit {0})
unfolding preflight approve
move_status host old force has_edits status = do
  preflight force old.status status
  found ← approve host old (gated old.status status) has_edits
  op ←
      commit_op host (some old.entity_id) work_item set_status
        (status_payload host status (review_transition_for old.status status) found)
        (old.entity_id ∷ [])
  emit_event op old.entity_id old.identifier (item_status_changed old.status status none)

unfoldable pub move_if_changed : Host → Row → Bool → Bool → Option Status → Tx (Unit {0})
move_if_changed host old force has_edits none = pure tt
move_if_changed host old force has_edits (some status) = move_status host old force has_edits status

-- The set_field op of changed fields.
unfoldable pub edit_fields : Host → Row → Fields → Tx (Unit {0})
unfolding has_any
edit_fields host old fields =
    if has_any fields
    then (do
      op ←
          commit_op host (some old.entity_id) work_item set_field
            (authored (record no_payload { fields = fields }) host.producer) (old.entity_id ∷ [])
      emit_event op old.entity_id old.identifier (item_updated fields))
    else pure tt

module _ {A : Type 0} where
  abbrev diff : (A → A → Bool) → A → A → Diff A
  diff eq old new = if eq old new then none else some (old, new)

  abbrev pub is_given : Option A → Bool
  is_given none = false
  is_given (some a) = true

abbrev text_of : Option String → String
text_of none = ""
text_of (some t) = t

unfoldable pub diffs : Edit → Row → Row → String → String → Diffs
unfolding status_eq dict_eq
diffs edit old new old_body new_body = record {
  title = diff str_eq old.title new.title;
  kind = diff str_eq old.kind new.kind;
  status = diff status_eq old.status new.status;
  severity = diff str_eq old.severity new.severity;
  body = diff str_eq old_body new_body;
  external_refs = changed_dict edit.external_refs old.external_refs;
  diagnostic_keys = changed_dict edit.diagnostic_keys old.diagnostic_keys;
}

unfoldable pub any_diff : Diffs → Bool
any_diff d =
    is_given d.title
    || is_given d.kind
    || is_given d.status
    || is_given d.severity
    || is_given d.body
    || is_given d.external_refs
    || is_given d.diagnostic_keys

-- The write of a real change: the ops, the fold, and the change_log row.
unfoldable pub apply_edit : Host → ℕ → Row → String → Edit → Fields → Option Status → Tx Row
unfolding move_if_changed edit_fields diffs any_diff
apply_edit host workspace_id old old_body edit fields status = do
  move_if_changed host old edit.force (has_any fields) status
  edit_fields host old fields
  folded ← refold old.entity_id
  new_body ← reads (λ db. text_of (get_blob folded.body_hash db.content_blobs))
  let d = diffs edit old folded old_body new_body
  if any_diff d
      then write_change workspace_id old.project_id old.identifier (updated d) none
      else pure tt
  pure folded

-- The source writes the ops first and then returns early if it wrote none; nothing is written in
-- that case, so the test stands first here.
unfoldable pub update_work_item : Host → ℕ → String → Edit → Tx Row
unfolding apply_edit changed_fields new_status store_body
update_work_item host project_id identifier edit = do
  workspace_id ← resolve_workspace_for_project project_id
  seal_for_write host project_id identifier
  old ← load_work_item_row project_id identifier
  old_body ← reads (λ db. text_of (get_blob old.body_hash db.content_blobs))
  validate_given workspace_id (given edit.kind (λ k. word wi_kind k))
  validate_given workspace_id (given edit.status status_word)
  validate_given workspace_id (given edit.severity (λ s. word wi_severity s))
  body_hash ← store_body host edit.body
  let fields = changed_fields host edit old body_hash
  let status = new_status edit.status old.status
  if has_any fields || is_given status
      then apply_edit host workspace_id old old_body edit fields status
      else pure old
