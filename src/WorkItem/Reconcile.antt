-- ===== src/WorkItem/Reconcile.antt =====
-- `reconcile_entity` of core/kernel.py, the part that writes.
use agent_notes.Prelude.{
  ℕ, Bool, false, not, Option, none, some, List, map, under_review, if◌then◌else◌, length,
}
use agent_notes.Ops.{merge, work_item, entry, Fields, Payload, no_payload, Op}
use agent_notes.Kernel.{State, merge_entity, reconciled_state, is_dangling}
use agent_notes.Store.Rows.{Row}
use agent_notes.Store.{
  Host, Tx, ◌>>=◌, ◌>>◌, pure, reads, require, commit_op, refold, emit_event, entity_ops,
  fold_entity, item_merged, default_to,
}
use agent_notes.Review.{in_review_state}

-- `merged_state`
abbrev pub merged_fields : State → Fields
merged_fields s = record {
  project_id = entry s.project_id;
  identifier = entry s.identifier;
  title = entry s.title;
  body_hash = entry s.body_hash;
  kind = entry s.kind;
  status = entry s.status;
  severity = entry s.severity;
  external_refs = some s.external_refs;
  diagnostic_keys = some s.diagnostic_keys;
  embedding = entry s.embedding;
  frontmatter_version = entry s.frontmatter_version;
}

abbrev pub merge_payload : State → Payload
merge_payload s = record no_payload { merged_state = some (merged_fields s) }

-- `local_status in ("in_review", "in_human_review")`, of the local fold if there is one.
abbrev under_local_review : Option State → Bool
unfolding in_review_state
under_local_review none = false
under_local_review (some s) = elim s.status [ none ↦ false | some st ↦ in_review_state st ]

unfoldable pub commit_merge : Host → ℕ → List Op → State → Tx (Option Row)
commit_merge host entity_id merged_ops s = do
  op ←
      commit_op host (some entity_id) work_item merge (merge_payload s)
        (map (λ (o : Op). o.op_id) merged_ops)
  folded ← refold entity_id
  emit_event op entity_id (default_to s.identifier "") (item_merged (length merged_ops))
  pure (some folded)

unfoldable pub write_merge : Host → ℕ → List Op → State → Tx (Option Row)
unfolding in_review_state commit_merge
write_merge host entity_id merged_ops s = do
  local ← reads (λ db. fold_entity db.op_log entity_id)
  require (not (under_local_review local)) under_review
  commit_merge host entity_id merged_ops s

unfoldable pub reconcile_entity : Host → ℕ → List Op → Tx (Option Row)
unfolding write_merge
reconcile_entity host entity_id remote_ops = do
  local_ops ← reads (λ db. entity_ops entity_id db.op_log)
  let merged_ops = merge_entity local_ops remote_ops
  let s = reconciled_state entity_id merged_ops
  if is_dangling s then pure none else write_merge host entity_id merged_ops s
