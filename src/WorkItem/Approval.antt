-- ===== src/WorkItem/Approval.antt =====
-- About the review gate of core/work_item/_native.py.
pub mod Running
pub mod Calls
use agent_notes.Prelude.{
  String, ◌≡◌, refl, Bool, true, false, none, some, arith, ok, All, starts_with, Option, Result,
  err, ℕ, List, sym, Option-cases, inl, inr,
}
use agent_notes.Lifecycle.{Status, status_eq, closed, done}
use agent_notes.Ops.{Evidence, Op, Fields, has_any}
use agent_notes.Review.{gated, in_review_state, is_advanced, implementers, check, process_reviewer}
use agent_notes.Review.Gate.{IsApart, check-IsApart}
use agent_notes.Store.{Db, Host, entity_ops, reads, lift, require, pure, ◌>>=◌, Tx, found_or}
use agent_notes.Store.Rows.{Row, find_row}
use agent_notes.Store.Steps.{ran, SameCore}
use agent_notes.WorkItem.Update.{approve, Edit, update_work_item, changed_fields}
use agent_notes.WorkItem.{
  resolve_workspace_for_project, load_work_item_row, seal_for_write, find_project,
}
use agent_notes.WorkItem.Close.{
  close_work_item, close_work_item_force, closable, write_close, write_force,
}
use agent_notes.Review.{is_positive}
use agent_notes.Store.Steps.{reads-IsQuiet, require-IsQuiet}
use agent_notes.WorkItem.Soundness.{validate_given-IsQuiet, store_body-IsQuiet}
use agent_notes.WorkItem.Update.{store_body, new_status}
use agent_notes.WorkItem.{validate_given}
use agent_notes.Prelude.{no_op_transition, ◌||◌}
use agent_notes.Lifecycle.{transition_for}
use agent_notes.Ops.{Reviewer, has_any, Fields, Op}
use agent_notes.Lifecycle.{done, closed}
use agent_notes.Store.{◌>>◌}
use agent_notes.WorkItem.Verdict.{
  choose_reviewer, given_attempt, adversarial_pass, accept, reject, request_changes, transition,
  Verdict, review_transition, target_status, judge, write_verdict,
}
use agent_notes.WorkItem.Update.{
  Edit, update_work_item, apply_edit, move_status, move_if_changed, preflight,
}
use agent_notes.WorkItem.Soundness.{preflight-IsQuiet}
use agent_notes.Store.Steps.{IsQuiet, SameCore, SameCore-trans, SameCore-refl, lift-IsQuiet}
use mathlib.Core.Path.{subst}

pub lift_lem :
    {A : Type 0} (r : Result A) (db : Db) (a : A) (end : Db) → lift r db ≡ ok (a, end) → r ≡ ok a
unfolding lift
lift_lem (ok x) db a end h = ground arith
lift_lem (err e) db a end h = cc

approve-check :
    (host : Host) (old : Row) (edits : Bool) (db : Db) (found : Option Evidence) (end : Db)
    → approve host old true edits db ≡ ok (found, end)
    → (e : Evidence) × (check
          (implementers (entity_ops old.entity_id db.op_log))
          (process_reviewer host)
          none
        ≡ ok e)
unfolding approve reads require ◌>>=◌
approve-check host old true db found end h = cc
approve-check host old false db found end h =
    let people = implementers (entity_ops old.entity_id db.op_log) in
    let checked = check people (process_reviewer host) none in
    let r = ran (lift checked) (λ e. pure (some e)) db found end h in
    (r.value, lift_lem checked db r.value r.middle r.first)

-- The lineage of the process is known, and everyone who worked on the item is apart from it.
abbrev pub IsIndependent : Host → ℕ → List Op → Type 0
IsIndependent host entity_id log =
    (lineage : String) × (host.producer.lineage ≡ some lineage)
    × All (IsApart host.actor_id lineage) (implementers (entity_ops entity_id log))

pub approve-IsApart :
    (host : Host) (old : Row) (new : Status) (edits : Bool) (db : Db) (found : Option Evidence)
    (end : Db)
    → in_review_state old.status ≡ true
    → is_advanced new ≡ true
    → status_eq new old.status ≡ false
    → starts_with host.actor_id "human:" ≡ false
    → approve host old (gated old.status new) edits db ≡ ok (found, end)
    → IsIndependent host old.entity_id db.op_log
unfolding gated
approve-IsApart host old new edits db found end under further moved model h =
    let gate : gated old.status new ≡ true = rw (under, further, moved) refl in
    let (e, c) = approve-check host old edits db found end (rw gate at h) in
    check-IsApart (implementers (entity_ops old.entity_id db.op_log)) (process_reviewer host) e
      model c
