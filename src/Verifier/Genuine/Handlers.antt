-- ===== src/Verifier/Genuine/Handlers.antt =====
-- About `verify_op_id` and the ops that the work-item handlers write.
use agent_notes.WorkItem.Authority.{
  Step, file_work_item_step, update_work_item_step, close_work_item_step,
  close_work_item_force_step, attest_gate_waiver_step, review_transition_step, claim_work_item_step,
  release_work_item_step, reconcile_entity_step, heartbeat_work_item_step,
}
use agent_notes.Verifier.Genuine.{AllGenuine, IsHonest, honest_rules}
use agent_notes.WorkItem.Update.{move_status, move_if_changed, edit_fields}
use agent_notes.WorkItem.Leases.{
  reopen_claimed, report_heartbeat, write_heartbeat, heartbeat_work_item,
}
use agent_notes.WorkItem.{seal_for_write, seal, seal_drifted, anchor_op, write_seal, seal_found}
use agent_notes.Prelude.{ℕ, String, Option, List, Bool, some, none}
use agent_notes.Ops.{Op, Fields, Evidence, Reviewer}
use agent_notes.Lifecycle.{Status, claimed}
use agent_notes.Store.Rows.{Row}
use agent_notes.Store.{Host, Db, Lease}
use agent_notes.WorkItem.Soundness.{
  quiet_rules, resolve_workspace-IsQuiet, require_repo_project-IsQuiet, validate_vocab-IsQuiet,
  validate_given-IsQuiet, load_work_item_row-IsQuiet, store_body-IsQuiet, approve-IsQuiet,
  delete_lease-IsQuiet, grant_lease-IsQuiet, consume-IsQuiet, judge-IsQuiet, preflight-IsQuiet,
  renew_lease-IsQuiet,
}
use agent_notes.WorkItem.Soundness.Sealing.{verify_seal-IsQuiet}
use agent_notes.WorkItem.Create.{Filing, file_work_item, write_filing}
use agent_notes.WorkItem.Update.{Edit, apply_edit, update_work_item}
use agent_notes.WorkItem.Close.{
  close_work_item, close_work_item_force, attest_gate_waiver, write_close, write_force,
  write_waiver,
}
use agent_notes.WorkItem.Verdict.{Verdict, review_transition, write_verdict}
use agent_notes.WorkItem.Leases.{claim_work_item, release_work_item, write_claim, write_release}
use agent_notes.WorkItem.Reconcile.{write_merge, reconcile_entity, commit_merge}
use agent_notes.Kernel.{State}
use agent_notes.WorkItem.Delete.{delete_work_item, delete_found, delete_row}
use mathlib.Core.Path.{subst}
use agent_notes.Prelude.{◌≡◌, ok, arith}

ruleset quiet_pieces = (
  honest_rules, quiet_rules, resolve_workspace-IsQuiet, require_repo_project-IsQuiet,
  validate_vocab-IsQuiet, validate_given-IsQuiet, load_work_item_row-IsQuiet, store_body-IsQuiet,
  approve-IsQuiet, preflight-IsQuiet, delete_lease-IsQuiet, grant_lease-IsQuiet, consume-IsQuiet,
  judge-IsQuiet, renew_lease-IsQuiet, verify_seal-IsQuiet,
)

anchor_op-IsHonest : (host : Host) (row : Row) (c : Option ℕ) → IsHonest host (anchor_op host row c)
unfolding anchor_op
anchor_op-IsHonest host row none = search (quiet_pieces) depth 30
anchor_op-IsHonest host row (some i) = search (quiet_pieces) depth 30

write_seal-IsHonest :
    (host : Host) (row : Row) (b : Bool) (ds : List String) (a l : ℕ)
    → IsHonest host (write_seal host row b ds a l)
unfolding write_seal
write_seal-IsHonest host row b ds a l = search (quiet_pieces) depth 30

seal_drifted-IsHonest :
    (host : Host) (row : Row) (f : Option State) (ds : List String)
    → IsHonest host (seal_drifted host row f ds)
unfolding seal_drifted
seal_drifted-IsHonest host row f ds =
    search (quiet_pieces, anchor_op-IsHonest, write_seal-IsHonest) depth 30

seal-IsHonest : (host : Host) (row : Row) → IsHonest host (seal host row)
unfolding seal
seal-IsHonest host row = search (quiet_pieces, seal_drifted-IsHonest) depth 30

seal_found-IsHonest : (host : Host) (row : Option Row) → IsHonest host (seal_found host row)
unfolding seal_found
seal_found-IsHonest host none = search (quiet_pieces, seal-IsHonest) depth 30
seal_found-IsHonest host (some row) = search (quiet_pieces, seal-IsHonest) depth 30

seal_for_write-IsHonest :
    (host : Host) (p : ℕ) (i : String) → IsHonest host (seal_for_write host p i)
unfolding seal_for_write
seal_for_write-IsHonest host p i = search (quiet_pieces, seal_found-IsHonest) depth 30

move_status-IsHonest :
    (host : Host) (old : Row) (force edits : Bool) (s : Status)
    → IsHonest host (move_status host old force edits s)
unfolding move_status
move_status-IsHonest host old force edits s = search (quiet_pieces) depth 30

move_if_changed-IsHonest :
    (host : Host) (old : Row) (force edits : Bool) (s : Option Status)
    → IsHonest host (move_if_changed host old force edits s)
unfolding move_if_changed
move_if_changed-IsHonest host old force edits none =
    search (quiet_pieces, move_status-IsHonest) depth 30
move_if_changed-IsHonest host old force edits (some s) =
    search (quiet_pieces, move_status-IsHonest) depth 30

edit_fields-IsHonest :
    (host : Host) (old : Row) (f : Fields) → IsHonest host (edit_fields host old f)
unfolding edit_fields
edit_fields-IsHonest host old f = search (quiet_pieces) depth 30

reopen_claimed-IsHonest :
    (host : Host) (old : Row) (op : Op) (s : Status) → IsHonest host (reopen_claimed host old op s)
unfolding reopen_claimed
reopen_claimed-IsHonest host old op claimed = search (quiet_pieces) depth 30
reopen_claimed-IsHonest host old op _ = search (quiet_pieces) depth 30

apply_edit-IsHonest :
    (host : Host) (w : ℕ) (old : Row) (body : String) (edit : Edit) (f : Fields) (s : Option Status)
    → IsHonest host (apply_edit host w old body edit f s)
unfolding apply_edit
apply_edit-IsHonest host w old body edit f s =
    search (quiet_pieces, move_if_changed-IsHonest, edit_fields-IsHonest) depth 30

write_filing-IsHonest :
    (host : Host) (w : ℕ) (f : Filing) (i : String) (h : ℕ)
    → IsHonest host (write_filing host w f i h)
unfolding write_filing
write_filing-IsHonest host w f i h = search (quiet_pieces) depth 30

write_close-IsHonest :
    (host : Host) (w p : ℕ) (i : String) (old : Row) (found : Option Evidence)
    → IsHonest host (write_close host w p i old found)
unfolding write_close
write_close-IsHonest host w p i old found = search (quiet_pieces) depth 30

write_force-IsHonest :
    (host : Host) (w p : ℕ) (i : String) (old : Row) (found : Option Evidence)
    → IsHonest host (write_force host w p i old found)
unfolding write_force
write_force-IsHonest host w p i old found = search (quiet_pieces) depth 30

write_waiver-IsHonest :
    (host : Host) (w p : ℕ) (i : String) (reason : String) (old : Row)
    → IsHonest host (write_waiver host w p i reason old)
unfolding write_waiver
write_waiver-IsHonest host w p i reason old = search (quiet_pieces) depth 30

write_verdict-IsHonest :
    (host : Host) (w p : ℕ) (i : String) (v : Verdict) (text : String) (old : Row)
    (judged : Option (Reviewer × Evidence))
    → IsHonest host (write_verdict host w p i v text old judged)
unfolding write_verdict
write_verdict-IsHonest host w p i v text old judged = search (quiet_pieces) depth 30

write_claim-IsHonest :
    (host : Host) (w p : ℕ) (i : String) (ttl : ℕ) (old : Row)
    → IsHonest host (write_claim host w p i ttl old)
unfolding write_claim
write_claim-IsHonest host w p i ttl old = search (quiet_pieces) depth 30

write_release-IsHonest :
    (host : Host) (w p : ℕ) (i : String) (old : Row) → IsHonest host (write_release host w p i old)
unfolding write_release
write_release-IsHonest host w p i old = search (quiet_pieces, reopen_claimed-IsHonest) depth 30

write_heartbeat-IsHonest :
    (host : Host) (w p : ℕ) (i : String) (ttl : ℕ) (old : Row) (lease : Lease)
    → IsHonest host (write_heartbeat host w p i ttl old lease)
unfolding write_heartbeat report_heartbeat
write_heartbeat-IsHonest host w p i ttl old lease = search (quiet_pieces) depth 30

commit_merge-IsHonest :
    (host : Host) (e : ℕ) (ops : List Op) (s : State) → IsHonest host (commit_merge host e ops s)
unfolding commit_merge
commit_merge-IsHonest host e ops s = search (quiet_pieces) depth 30

write_merge-IsHonest :
    (host : Host) (e : ℕ) (ops : List Op) (s : State) → IsHonest host (write_merge host e ops s)
unfolding write_merge
write_merge-IsHonest host e ops s = search (quiet_pieces, commit_merge-IsHonest) depth 30

file_work_item-IsHonest : (host : Host) (f : Filing) → IsHonest host (file_work_item host f)
unfolding file_work_item
file_work_item-IsHonest host f = search (quiet_pieces, write_filing-IsHonest) depth 30

update_work_item-IsHonest :
    (host : Host) (p : ℕ) (i : String) (edit : Edit)
    → IsHonest host (update_work_item host p i edit)
unfolding update_work_item
update_work_item-IsHonest host p i edit =
    search (quiet_pieces, seal_for_write-IsHonest, apply_edit-IsHonest) depth 30

close_work_item-IsHonest :
    (host : Host) (p : ℕ) (i : String) → IsHonest host (close_work_item host p i)
unfolding close_work_item
close_work_item-IsHonest host p i =
    search (quiet_pieces, seal_for_write-IsHonest, write_close-IsHonest) depth 30

close_work_item_force-IsHonest :
    (host : Host) (p : ℕ) (i : String) → IsHonest host (close_work_item_force host p i)
unfolding close_work_item_force
close_work_item_force-IsHonest host p i =
    search (quiet_pieces, seal_for_write-IsHonest, write_force-IsHonest) depth 30

attest_gate_waiver-IsHonest :
    (host : Host) (p : ℕ) (i reason : String) → IsHonest host (attest_gate_waiver host p i reason)
unfolding attest_gate_waiver
attest_gate_waiver-IsHonest host p i reason = search (quiet_pieces, write_waiver-IsHonest) depth 30

review_transition-IsHonest :
    (host : Host) (p : ℕ) (i : String) (v : Verdict) (text : String) (ack attempt : Option String)
    → IsHonest host (review_transition host p i v text ack attempt)
unfolding review_transition
review_transition-IsHonest host p i v text ack attempt =
    search (quiet_pieces, seal_for_write-IsHonest, write_verdict-IsHonest) depth 30

claim_work_item-IsHonest :
    (host : Host) (p : ℕ) (i : String) (ttl : ℕ) → IsHonest host (claim_work_item host p i ttl)
unfolding claim_work_item
claim_work_item-IsHonest host p i ttl =
    search (quiet_pieces, seal_for_write-IsHonest, write_claim-IsHonest) depth 30

release_work_item-IsHonest :
    (host : Host) (p : ℕ) (i : String) → IsHonest host (release_work_item host p i)
unfolding release_work_item
release_work_item-IsHonest host p i =
    search (quiet_pieces, seal_for_write-IsHonest, write_release-IsHonest) depth 30

heartbeat_work_item-IsHonest :
    (host : Host) (p : ℕ) (i : String) (ttl : ℕ) → IsHonest host (heartbeat_work_item host p i ttl)
unfolding heartbeat_work_item
heartbeat_work_item-IsHonest host p i ttl = search (quiet_pieces, write_heartbeat-IsHonest) depth 30

reconcile_entity-IsHonest :
    (host : Host) (e : ℕ) (ops : List Op) → IsHonest host (reconcile_entity host e ops)
unfolding reconcile_entity
reconcile_entity-IsHonest host e ops = search (quiet_pieces, write_merge-IsHonest) depth 30

Step-AllGenuine :
    (host : Host) (db end : Db)
    → AllGenuine host db.op_log
    → Step host db end
    → AllGenuine host end.op_log
Step-AllGenuine host db end h (file_work_item_step f result q) =
    (file_work_item-IsHonest host f).keeps db result end h q
Step-AllGenuine host db end h (update_work_item_step p i edit result q) =
    (update_work_item-IsHonest host p i edit).keeps db result end h q
Step-AllGenuine host db end h (close_work_item_step p i result q) =
    (close_work_item-IsHonest host p i).keeps db result end h q
Step-AllGenuine host db end h (close_work_item_force_step p i result q) =
    (close_work_item_force-IsHonest host p i).keeps db result end h q
Step-AllGenuine host db end h (attest_gate_waiver_step p i reason result q) =
    (attest_gate_waiver-IsHonest host p i reason).keeps db result end h q
Step-AllGenuine host db end h (review_transition_step p i v text ack attempt result q) =
    (review_transition-IsHonest host p i v text ack attempt).keeps db result end h q
Step-AllGenuine host db end h (claim_work_item_step p i ttl result q) =
    (claim_work_item-IsHonest host p i ttl).keeps db result end h q
Step-AllGenuine host db end h (release_work_item_step p i result q) =
    (release_work_item-IsHonest host p i).keeps db result end h q
Step-AllGenuine host db end h (reconcile_entity_step e ops result q) =
    (reconcile_entity-IsHonest host e ops).keeps db result end h q
Step-AllGenuine host db end h (heartbeat_work_item_step p i ttl result q) =
    (heartbeat_work_item-IsHonest host p i ttl).keeps db result end h q

delete_row-IsHonest : (host : Host) (p : ℕ) (i : String) → IsHonest host (delete_row p i)
unfolding delete_row
delete_row-IsHonest host p i = record {
  keeps = λ db a end h r.
      let same : db.op_log ≡ end.op_log = ground (arith, r) in subst (AllGenuine host) same h;
}

delete_found-IsHonest :
    (host : Host) (w p : ℕ) (i : String) (row : Option Row)
    → IsHonest host (delete_found host w p i row)
unfolding delete_found
delete_found-IsHonest host w p i none = search (quiet_pieces) depth 30
delete_found-IsHonest host w p i (some row) = search (quiet_pieces, delete_row-IsHonest) depth 30

delete_work_item-IsHonest :
    (host : Host) (p : ℕ) (i : String) → IsHonest host (delete_work_item host p i)
unfolding delete_work_item
delete_work_item-IsHonest host p i = search (quiet_pieces, delete_found-IsHonest) depth 30

-- Any number of calls that returned, of `delete_work_item` and of all other handlers.
pub data LogRun (host : Host) (db : Db) : Db → Type 0 where
  unwritten : LogRun host db db
  written :
      {middle : Db} (end : Db) → LogRun host db middle → Step host middle end → LogRun host db end
  removed :
      {middle : Db} (end : Db) (p : ℕ) (i : String) (result : Bool)
      → LogRun host db middle
      → delete_work_item host p i middle ≡ ok (result, end)
      → LogRun host db end

-- If all ops of the log pass `verify_op_id`, all ops of the log still pass it after any sequence of
-- handler calls that returned, deletions included: each ID is the hash of the payload that
-- `commit_op` hands to the database, and each sequence is its own lamport. That the payload comes
-- back from its JSONB column as it went in is assumed.
pub LogRun-AllGenuine :
    (host : Host) (db end : Db)
    → AllGenuine host db.op_log
    → LogRun host db end
    → AllGenuine host end.op_log
LogRun-AllGenuine host db end h unwritten = h
LogRun-AllGenuine host db _ h (written {middle} end before step) =
    Step-AllGenuine host middle end (LogRun-AllGenuine host db middle h before) step
LogRun-AllGenuine host db _ h (removed {middle} end p i result before q) =
    (delete_work_item-IsHonest host p i).keeps middle result end
      (LogRun-AllGenuine host db middle h before) q
