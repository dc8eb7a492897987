-- ===== src/WorkItem/Soundness/Handlers.antt =====
-- About the cache and the handlers of core/work_item/_native.py, one at a time.
use agent_notes.Prelude.{ℕ, String, Option, List, []}
use agent_notes.Ops.{Op, Fields, Evidence, Reviewer, work_item, create}
use agent_notes.Lifecycle.{Status}
use agent_notes.Store.Rows.{Row}
use agent_notes.Store.{Host, make_op_id}
use agent_notes.Store.Steps.{
  IsSafe, bind-IsSafe, if-IsSafe, IsSafe-of_quiet, IsSafe-of_mending, bind-IsMending, mended-bind,
}
use agent_notes.Store.Chain.{refold-IsMending}
use agent_notes.WorkItem.Soundness.{
  quiet_rules, touch_rules, resolve_workspace-IsQuiet, require_repo_project-IsQuiet,
  validate_vocab-IsQuiet, validate_given-IsQuiet, load_work_item_row-IsQuiet, store_body-IsQuiet,
  approve-IsQuiet, delete_lease-IsQuiet, grant_lease-IsQuiet, move_if_changed-IsTouching,
  edit_fields-IsTouching, reopen_claimed-IsTouching, consume-IsQuiet, judge-IsQuiet,
}
use agent_notes.WorkItem.Soundness.Sealing.{seal_for_write-IsSafe}
use agent_notes.WorkItem.Create.{Filing, file_work_item, write_filing, filed_payload}
use agent_notes.WorkItem.Update.{Edit, apply_edit, update_work_item}
use agent_notes.WorkItem.Close.{
  close_work_item, close_work_item_force, attest_gate_waiver, write_close, write_force,
  write_waiver,
}
use agent_notes.WorkItem.Verdict.{Verdict, review_transition, write_verdict}
use agent_notes.WorkItem.Leases.{claim_work_item, release_work_item, write_claim, write_release}
use agent_notes.WorkItem.Reconcile.{write_merge, reconcile_entity, commit_merge}
use agent_notes.Kernel.{State}

ruleset handler_rules = (
  quiet_rules, touch_rules, resolve_workspace-IsQuiet, require_repo_project-IsQuiet,
  validate_vocab-IsQuiet, validate_given-IsQuiet, load_work_item_row-IsQuiet, store_body-IsQuiet,
  approve-IsQuiet, delete_lease-IsQuiet, grant_lease-IsQuiet, move_if_changed-IsTouching,
  edit_fields-IsTouching, reopen_claimed-IsTouching, consume-IsQuiet, judge-IsQuiet,
)

ruleset safe_rules = (bind-IsSafe, if-IsSafe, IsSafe-of_quiet, seal_for_write-IsSafe)

ruleset mend_all = (bind-IsMending, mended-bind, refold-IsMending, IsSafe-of_quiet, handler_rules)

apply_edit-IsSafe :
    (host : Host) (w : ℕ) (old : Row) (body : String) (edit : Edit) (f : Fields) (s : Option Status)
    → IsSafe (apply_edit host w old body edit f s)
unfolding apply_edit
apply_edit-IsSafe host w old body edit f s =
    IsSafe-of_mending old.entity_id _ (search mend_all depth 30)

write_filing-IsSafe :
    (host : Host) (w : ℕ) (f : Filing) (i : String) (h : ℕ) → IsSafe (write_filing host w f i h)
unfolding write_filing
write_filing-IsSafe host w f i h =
    IsSafe-of_mending (make_op_id host work_item create (filed_payload host f i h) []) _
      (search mend_all depth 30)

write_close-IsSafe :
    (host : Host) (w p : ℕ) (i : String) (old : Row) (found : Option Evidence)
    → IsSafe (write_close host w p i old found)
unfolding write_close
write_close-IsSafe host w p i old found =
    IsSafe-of_mending old.entity_id _ (search mend_all depth 30)

write_force-IsSafe :
    (host : Host) (w p : ℕ) (i : String) (old : Row) (found : Option Evidence)
    → IsSafe (write_force host w p i old found)
unfolding write_force
write_force-IsSafe host w p i old found =
    IsSafe-of_mending old.entity_id _ (search mend_all depth 30)

write_waiver-IsSafe :
    (host : Host) (w p : ℕ) (i : String) (reason : String) (old : Row)
    → IsSafe (write_waiver host w p i reason old)
unfolding write_waiver
write_waiver-IsSafe host w p i reason old =
    IsSafe-of_mending old.entity_id _ (search mend_all depth 30)

write_verdict-IsSafe :
    (host : Host) (w p : ℕ) (i : String) (v : Verdict) (text : String) (old : Row)
    (judged : Option (Reviewer × Evidence))
    → IsSafe (write_verdict host w p i v text old judged)
unfolding write_verdict
write_verdict-IsSafe host w p i v text old judged =
    IsSafe-of_mending old.entity_id _ (search mend_all depth 30)

write_claim-IsSafe :
    (host : Host) (w p : ℕ) (i : String) (ttl : ℕ) (old : Row)
    → IsSafe (write_claim host w p i ttl old)
unfolding write_claim
write_claim-IsSafe host w p i ttl old = IsSafe-of_mending old.entity_id _ (search mend_all depth 30)

write_release-IsSafe :
    (host : Host) (w p : ℕ) (i : String) (old : Row) → IsSafe (write_release host w p i old)
unfolding write_release
write_release-IsSafe host w p i old = IsSafe-of_mending old.entity_id _ (search mend_all depth 30)

commit_merge-IsSafe :
    (host : Host) (e : ℕ) (ops : List Op) (s : State) → IsSafe (commit_merge host e ops s)
unfolding commit_merge
commit_merge-IsSafe host e ops s = IsSafe-of_mending e _ (search mend_all depth 30)

-- On a sound database, `file_work_item` ends with a sound database whenever it returns.
pub file_work_item-IsSafe : (host : Host) (f : Filing) → IsSafe (file_work_item host f)
unfolding file_work_item
file_work_item-IsSafe host f = search (safe_rules, write_filing-IsSafe, handler_rules) depth 30

-- On a sound database, `update_work_item` ends with a sound database whenever it returns.
pub update_work_item-IsSafe :
    (host : Host) (p : ℕ) (i : String) (edit : Edit) → IsSafe (update_work_item host p i edit)
unfolding update_work_item
update_work_item-IsSafe host p i edit =
    search (safe_rules, apply_edit-IsSafe, handler_rules) depth 30

-- On a sound database, `close_work_item` ends with a sound database whenever it returns.
pub close_work_item-IsSafe : (host : Host) (p : ℕ) (i : String) → IsSafe (close_work_item host p i)
unfolding close_work_item
close_work_item-IsSafe host p i = search (safe_rules, write_close-IsSafe, handler_rules) depth 30

-- On a sound database, `close_work_item_force` ends with a sound database whenever it returns.
pub close_work_item_force-IsSafe :
    (host : Host) (p : ℕ) (i : String) → IsSafe (close_work_item_force host p i)
unfolding close_work_item_force
close_work_item_force-IsSafe host p i =
    search (safe_rules, write_force-IsSafe, handler_rules) depth 30

-- On a sound database, `attest_gate_waiver` ends with a sound database whenever it returns.
pub attest_gate_waiver-IsSafe :
    (host : Host) (p : ℕ) (i : String) (reason : String)
    → IsSafe (attest_gate_waiver host p i reason)
unfolding attest_gate_waiver
attest_gate_waiver-IsSafe host p i reason =
    search (safe_rules, write_waiver-IsSafe, handler_rules) depth 30

-- On a sound database, `review_transition` ends with a sound database whenever it returns.
pub review_transition-IsSafe :
    (host : Host) (p : ℕ) (i : String) (v : Verdict) (text : String) (ack attempt : Option String)
    → IsSafe (review_transition host p i v text ack attempt)
unfolding review_transition
review_transition-IsSafe host p i v text ack attempt =
    search (safe_rules, write_verdict-IsSafe, handler_rules) depth 30

-- On a sound database, `claim_work_item` ends with a sound database whenever it returns.
pub claim_work_item-IsSafe :
    (host : Host) (p : ℕ) (i : String) (ttl : ℕ) → IsSafe (claim_work_item host p i ttl)
unfolding claim_work_item
claim_work_item-IsSafe host p i ttl =
    search (safe_rules, write_claim-IsSafe, handler_rules) depth 30

-- On a sound database, `release_work_item` ends with a sound database whenever it returns.
pub release_work_item-IsSafe :
    (host : Host) (p : ℕ) (i : String) → IsSafe (release_work_item host p i)
unfolding release_work_item
release_work_item-IsSafe host p i =
    search (safe_rules, write_release-IsSafe, handler_rules) depth 30

-- On a sound database, `write_merge` ends with a sound database whenever it returns.
pub write_merge-IsSafe :
    (host : Host) (e : ℕ) (ops : List Op) (s : State) → IsSafe (write_merge host e ops s)
unfolding write_merge
write_merge-IsSafe host e ops s = search (safe_rules, commit_merge-IsSafe, handler_rules) depth 30

-- On a sound database, `reconcile_entity` ends with a sound database whenever it returns.
pub reconcile_entity-IsSafe :
    (host : Host) (e : ℕ) (ops : List Op) → IsSafe (reconcile_entity host e ops)
unfolding reconcile_entity
reconcile_entity-IsSafe host e ops = search (safe_rules, write_merge-IsSafe, handler_rules) depth 30
