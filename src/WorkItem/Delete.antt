-- ===== src/WorkItem/Delete.antt =====
-- `delete_work_item` of core/work_item/_native.py.
use agent_notes.Prelude.{ℕ, String, Bool, true, false, Option, none, some, [], ◌∷◌, ok}
use agent_notes.Ops.{snapshot, work_item, Payload, no_payload}
use agent_notes.Store.Rows.{Row, find_row, remove_row}
use agent_notes.Store.{
  Host, Tx, ◌>>=◌, ◌>>◌, pure, reads, commit_op, write_change, emit_event, item_deleted, deleted,
}
use agent_notes.WorkItem.{resolve_workspace_for_project}
use agent_notes.WorkItem.Close.{delete_lease}

abbrev pub tombstone_payload : Payload
tombstone_payload = record no_payload { tombstone = true }

unfoldable pub delete_row : ℕ → String → Tx (Unit {0})
unfolding remove_row
delete_row p i db = ok (tt, record db { work_items = remove_row p i db.work_items })

unfoldable pub delete_found : Host → ℕ → ℕ → String → Option Row → Tx Bool
unfolding delete_row delete_lease
delete_found host workspace_id project_id identifier none = pure false
delete_found host workspace_id project_id identifier (some old) = do
  op ← commit_op host (some old.entity_id) work_item snapshot tombstone_payload (old.entity_id ∷ [])
  delete_lease old.entity_id
  delete_row project_id identifier
  emit_event op old.entity_id identifier item_deleted
  write_change workspace_id project_id identifier (deleted old.title) (some host.actor_id)
  pure true

unfoldable pub delete_work_item : Host → ℕ → String → Tx Bool
unfolding delete_found
delete_work_item host project_id identifier = do
  workspace_id ← resolve_workspace_for_project project_id
  old ← reads (λ db. find_row project_id identifier db.work_items)
  delete_found host workspace_id project_id identifier old
