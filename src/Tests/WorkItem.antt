-- ===== src/Tests/WorkItem.antt =====
-- The handlers of WorkItem run on a concrete database.
use agent_notes.Prelude.{◌≡◌, refl, true, false, Option, none, some, List, [], ◌∷◌, arith}
use agent_notes.Lifecycle.{is_open, Status, in_progress, in_review, opened, done}
use agent_notes.Ops.{set_field, no_payload, no_fields, is, Op}
use agent_notes.Kernel.{sort_ops, fold_work_item_state}
use agent_notes.Store.{Lease, Db, entity_ops}
use agent_notes.Store.Rows.{Row, find_entity}
use agent_notes.Store.Sound.{IsSound}
use agent_notes.WorkItem.Create.{Filing, file_work_item}
use agent_notes.WorkItem.Update.{Edit, update_work_item}
use agent_notes.WorkItem.Close.{close_work_item, close_work_item_force, attest_gate_waiver}
use agent_notes.WorkItem.Verdict.{adversarial_pass, review_transition}
use agent_notes.WorkItem.Leases.{find_lease, is_live, claim_work_item, release_work_item}
use agent_notes.WorkItem.Reconcile.{reconcile_entity}
use agent_notes.WorkItem.Authority.{
  file_work_item-IsSound, Run-IsSound, idle, later, file_work_item_step, claim_work_item_step,
}
use agent_notes.WorkItem.Leasing.{Holds, claim_work_item-Holds, grant_lease-live}
use agent_notes.Tests.{worker, reviewer, empty_db, filing, after, value, op, execute}

empty_db-IsSound : IsSound empty_db
unfolding entity_ops find_entity sort_ops fold_work_item_state
empty_db-IsSound = record { bounded = tt; keyed = tt; agrees = λ e. refl }

abbrev no_row : Row
no_row = record {
  entity_id = 0;
  project_id = 0;
  identifier = "";
  title = "";
  body_hash = 0;
  kind = "";
  status = opened;
  severity = "";
  external_refs = [];
  diagnostic_keys = [];
  embedding = none;
  frontmatter_version = 1;
}

abbrev filing_as : Status → Filing
filing_as s = record filing { status = s }

abbrev status_edit : Status → Edit
status_edit s = record {
  title = none;
  body = none;
  kind = none;
  status = some s;
  severity = none;
  external_refs = none;
  diagnostic_keys = none;
  embedding = none;
  frontmatter_version = none;
  force = false;
}

-- A remote replica of the filed item that renamed it.
abbrev remote_ops : List Op
remote_ops =
    record (op 2 set_field
      (record no_payload { fields = record no_fields { title = is "renamed" } })) {
        entity_id = 1000;
      }
    ∷ []

abbrev pub filed_db : Db
filed_db = after empty_db (execute (file_work_item worker filing) empty_db)

abbrev pub filed_result : Row
filed_result = value no_row (execute (file_work_item worker filing) empty_db)

abbrev submitted_db : Db
submitted_db = after empty_db (execute (file_work_item worker (filing_as in_review)) empty_db)

abbrev submitted_result : Row
submitted_result = value no_row (execute (file_work_item worker (filing_as in_review)) empty_db)

abbrev finished_db : Db
finished_db = after empty_db (execute (file_work_item worker (filing_as done)) empty_db)

abbrev finished_result : Row
finished_result = value no_row (execute (file_work_item worker (filing_as done)) empty_db)

abbrev pub claimed_db : Db
claimed_db = after filed_db (execute (claim_work_item worker 1 "WI-1" 60) filed_db)

abbrev pub claimed_result : Row
claimed_result = value no_row (execute (claim_work_item worker 1 "WI-1" 60) filed_db)

abbrev released_db : Db
released_db = after filed_db (execute (release_work_item worker 1 "WI-1") filed_db)

abbrev released_result : Row
released_result = value no_row (execute (release_work_item worker 1 "WI-1") filed_db)

abbrev working_db : Db
working_db =
    after filed_db (execute (update_work_item worker 1 "WI-1" (status_edit in_progress)) filed_db)

abbrev working_result : Row
working_result =
    value no_row (execute (update_work_item worker 1 "WI-1" (status_edit in_progress)) filed_db)

abbrev passed_db : Db
passed_db =
    after submitted_db
      (execute (review_transition reviewer 1 "WI-1" adversarial_pass "fine" none none) submitted_db)

abbrev passed_result : Row
passed_result =
    value no_row
      (execute (review_transition reviewer 1 "WI-1" adversarial_pass "fine" none none) submitted_db)

abbrev closed_db : Db
closed_db = after submitted_db (execute (close_work_item reviewer 1 "WI-1") submitted_db)

abbrev closed_result : Row
closed_result = value no_row (execute (close_work_item reviewer 1 "WI-1") submitted_db)

abbrev forced_db : Db
forced_db = after submitted_db (execute (close_work_item_force reviewer 1 "WI-1") submitted_db)

abbrev forced_result : Row
forced_result = value no_row (execute (close_work_item_force reviewer 1 "WI-1") submitted_db)

abbrev waived_db : Db
waived_db = after finished_db (execute (attest_gate_waiver worker 1 "WI-1" "no gate") finished_db)

abbrev waived_result : Row
waived_result = value no_row (execute (attest_gate_waiver worker 1 "WI-1" "no gate") finished_db)

abbrev merged_db : Db
merged_db = after filed_db (execute (reconcile_entity worker 1000 remote_ops) filed_db)

abbrev merged_result : Option Row
merged_result = value none (execute (reconcile_entity worker 1000 remote_ops) filed_db)

filed_db-IsSound : IsSound filed_db
unfolding execute
filed_db-IsSound =
    file_work_item-IsSound worker filing empty_db filed_result filed_db empty_db-IsSound refl

submitted_db-IsSound : IsSound submitted_db
unfolding execute
submitted_db-IsSound =
    file_work_item-IsSound worker (filing_as in_review) empty_db submitted_result submitted_db
      empty_db-IsSound refl

finished_db-IsSound : IsSound finished_db
unfolding execute
finished_db-IsSound =
    file_work_item-IsSound worker (filing_as done) empty_db finished_result finished_db
      empty_db-IsSound refl

Run-IsSound_example : IsSound claimed_db
unfolding execute
Run-IsSound_example = Run-IsSound worker empty_db claimed_db empty_db-IsSound (
    later claimed_db (later filed_db idle (file_work_item_step filing filed_result refl))
      (claim_work_item_step 1 "WI-1" 60 claimed_result refl))

abbrev leased_db : Db
leased_db = record filed_db {
  work_item_leases =
      record {
        entity_id = 1000;
        actor_id = "worker";
        acquired_at = 1;
        expires_at = 20;
        heartbeat_count = 0;
      }
      ∷ [];
}

abbrev holding : Lease
holding = record {
  entity_id = 1000;
  actor_id = "worker";
  acquired_at = 10;
  expires_at = 70;
  heartbeat_count = 1;
}

claim_work_item-Holds_example :
    (is_open opened ≡ true)
    × (is_live 10 (find_lease 1000 filed_db.work_item_leases) ≡ false)
    × Holds worker 1000 claimed_db.work_item_leases
unfolding execute
claim_work_item-Holds_example =
    claim_work_item-Holds worker 1 "WI-1" 60 filed_db filed_db filed_result claimed_result
      claimed_db (omega arith) refl refl refl

grant_lease-live_example :
    (l : Lease) × (some holding ≡ some l) × (l.actor_id ≡ "worker") × (is_live 10 (some l) ≡ true)
unfolding execute
grant_lease-live_example =
    grant_lease-live worker 1000 60 leased_db tt
      (record leased_db { work_item_leases = holding ∷ [] }) (omega arith) refl
