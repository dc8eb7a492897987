-- ===== src/WorkItem/Close.antt =====
-- `close_work_item`, `close_work_item_force` and `attest_gate_waiver` of core/work_item/_native.py.
use agent_notes.Prelude.{
  ℕ, String, Bool, true, false, Option, none, some, List, [], ◌∷◌, ◌==◌, if◌then◌else◌, ok, err,
  Result, already_done, is_blocked, is_deferred, not_closable, not_terminal, no_op_chain,
}
use agent_notes.Lifecycle.{
  Status, blocked, deferred, done, closed, is_terminal, target_alias, Transition, accept,
}
use agent_notes.Ops.Objects.{Json, str, obj, member, end}
use agent_notes.Ops.{
  set_field, set_status, close, work_item, is, no_fields, Payload, no_payload, authored, Evidence,
}
use agent_notes.Store.Rows.{Row}
use agent_notes.Store.{
  Host, Tx, ◌>>=◌, ◌>>◌, pure, reads, lift, require, commit_op, refold, write_change, emit_event,
  item_closed, item_gate_attested, status_changed, gate_attested, Lease,
}
use agent_notes.Review.{gated}
use agent_notes.WorkItem.{
  resolve_workspace_for_project, load_work_item_row, seal_for_write, create_op_id,
}
use agent_notes.WorkItem.Update.{approve}

-- DELETE FROM work_item_leases WHERE entity_id
unfoldable pub without_lease : ℕ → List Lease → List Lease
without_lease e [] = []
without_lease e (l ∷ ls) = if l.entity_id == e then without_lease e ls else l ∷ without_lease e ls

unfoldable pub delete_lease : ℕ → Tx (Unit {0})
unfolding without_lease
delete_lease e db = ok (tt, record db { work_item_leases = without_lease e db.work_item_leases })

-- The refusals of `close_work_item`, and `_CLOSABLE`.
unfoldable pub closable : Status → Result (Unit {0})
unfolding is_terminal
closable done = err already_done
closable closed = err already_done
closable blocked = err is_blocked
closable deferred = err is_deferred
closable (Status.other s) = err not_closable
closable _ = ok tt

abbrev verdict : Bool → Option Transition
verdict true = some accept
verdict false = none

abbrev close_payload : Host → Bool → Option Evidence → Payload
close_payload host needs_review found =
    authored
      (record no_payload {
        fields = record no_fields { status = is done };
        review_transition = verdict needs_review;
        independence = found;
        extra = ("transition", str "close") ∷ ("closed_at", str host.timestamp) ∷ [];
      })
      host.producer

-- The close of a row that may be closed: the op, the end of its lease, and the fold.
unfoldable pub write_close : Host → ℕ → ℕ → String → Row → Option Evidence → Tx Row
unfolding gated delete_lease
write_close host workspace_id project_id identifier old found = do
  op ←
      commit_op host (some old.entity_id) work_item set_status
        (close_payload host (gated old.status done) found) (old.entity_id ∷ [])
  delete_lease old.entity_id
  folded ← refold old.entity_id
  emit_event op old.entity_id identifier item_closed
  write_change workspace_id project_id identifier (status_changed old.status done none)
      (some host.actor_id)
  pure folded

unfoldable pub close_work_item : Host → ℕ → String → Tx Row
unfolding closable gated approve write_close
close_work_item host project_id identifier = do
  workspace_id ← resolve_workspace_for_project project_id
  seal_for_write host project_id identifier
  old ← load_work_item_row project_id identifier
  lift (closable old.status)
  found ← approve host old (gated old.status done) false
  write_close host workspace_id project_id identifier old found

abbrev force_payload : Host → Bool → Option Evidence → Payload
force_payload host needs_review found =
    authored
      (record no_payload {
        review_transition = verdict needs_review;
        independence = found;
        extra = ("reason", str "manual_close") ∷ [];
      })
      host.producer

-- The forced close of a row: the op and the fold.
unfoldable pub write_force : Host → ℕ → ℕ → String → Row → Option Evidence → Tx Row
unfolding gated
write_force host workspace_id project_id identifier old found = do
  op ←
      commit_op host (some old.entity_id) work_item close
        (force_payload host (gated old.status closed) found) (old.entity_id ∷ [])
  folded ← refold old.entity_id
  emit_event op old.entity_id identifier item_closed
  write_change workspace_id project_id identifier (status_changed old.status closed none) none
  pure folded

unfoldable pub close_work_item_force : Host → ℕ → String → Tx Row
unfolding gated approve write_force
close_work_item_force host project_id identifier = do
  workspace_id ← resolve_workspace_for_project project_id
  seal_for_write host project_id identifier
  old ← load_work_item_row project_id identifier
  found ← approve host old (gated old.status closed) false
  write_force host workspace_id project_id identifier old found

abbrev attestation : Host → String → Json
attestation host reason = obj (
    member "status" (str "waived") (
      member "reason" (str reason)
        (member "actor_id" (str host.actor_id) (member "waived_at" (str host.timestamp) end))))

abbrev attest_payload : Host → String → Payload
attest_payload host reason =
    authored
      (record no_payload {
        fields = record no_fields {
          diagnostic_keys = some (("gate_attestation", attestation host reason) ∷ []);
        };
      })
      host.producer

abbrev has_chain : Option ℕ → Bool
has_chain none = false
has_chain (some op_id) = true

-- The waiver of a row that may be waived.
unfoldable pub write_waiver : Host → ℕ → ℕ → String → String → Row → Tx Row
write_waiver host workspace_id project_id identifier reason old = do
  op ←
      commit_op host (some old.entity_id) work_item set_field (attest_payload host reason)
        (old.entity_id ∷ [])
  folded ← refold old.entity_id
  emit_event op old.entity_id identifier (item_gate_attested reason)
  write_change workspace_id project_id identifier (gate_attested reason) (some host.actor_id)
  pure folded

unfoldable pub attest_gate_waiver : Host → ℕ → String → String → Tx Row
unfolding is_terminal target_alias write_waiver
attest_gate_waiver host project_id identifier reason = do
  workspace_id ← resolve_workspace_for_project project_id
  old ← load_work_item_row project_id identifier
  require (is_terminal (target_alias old.status)) not_terminal
  created ← reads (create_op_id old.entity_id)
  require (has_chain created) no_op_chain
  write_waiver host workspace_id project_id identifier reason old
