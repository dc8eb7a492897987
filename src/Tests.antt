-- ===== src/Tests.antt =====
-- Concrete inputs for the theorems: two processes, and a database with one item under work.
pub mod Kernel
pub mod Lifecycle
pub mod Messaging
pub mod Verifier
pub mod Dispatcher
pub mod Review
pub mod WorkItem
use agent_notes.Prelude.{
  ℕ, String, Bool, true, false, Option, none, some, List, [], ◌∷◌, Result, ok, err, ◌+◌, ◌==◌,
}
use agent_notes.Lifecycle.{Status, opened, in_review, in_progress, done}
use agent_notes.Ops.{
  Producer, Op, OpType, EntityType, Payload, create, set_status, set_field, work_item, no_payload,
  no_fields, is, Reviewer,
}
use agent_notes.Ops.Objects.{Json}
use agent_notes.Store.{Db, Host, Project, repo, word, status_word, wi_kind, wi_severity, Tx}
use agent_notes.WorkItem.Create.{Filing}

abbrev pub producer : String → Producer
producer lineage = record {
  harness = some "cli";
  model = some lineage;
  lineage = some lineage;
  session_key = none;
}

-- A digest that tells the ops of one log apart: by their op_seq.
abbrev digest : Option ℕ → ℕ
digest none = 1000
digest (some seq) = seq

abbrev pub process : String → String → Host
process actor lineage = record {
  op_digest = λ entity_type op_type payload parents. digest payload.op_seq;
  content_hash = λ text. 7;
  lineage_for = λ model. model;
  parse_uuid = λ text. some text;
  parse_json = λ text. none;
  embedding_close = λ a b. true;
  actor_id = actor;
  producer = producer lineage;
  now = 10;
  timestamp = "t";
  allocated = "WI-1";
}

abbrev pub worker : Host
worker = process "worker" "claude"

abbrev pub reviewer : Host
reviewer = process "reviewer" "gpt"

abbrev pub empty_db : Db
empty_db = record {
  lamport = 0;
  op_log = [];
  work_items = [];
  work_item_leases = [];
  op_log_events = [];
  change_log = [];
  content_blobs = [];
  attempts = [];
  projects = record { id = 1; workspace_id = 1; kind = repo } ∷ [];
  vocabularies =
      (1, word wi_kind "task")
      ∷ (1, word wi_severity "medium")
      ∷ (1, status_word opened)
      ∷ (1, status_word in_progress)
      ∷ (1, status_word in_review)
      ∷ (1, status_word done)
      ∷ [];
}

abbrev pub filing : Filing
filing = record {
  project_id = 1;
  identifier = none;
  title = "a task";
  body = "text";
  kind = "task";
  status = opened;
  severity = "medium";
  external_refs = none;
  diagnostic_keys = none;
  embedding = none;
  frontmatter_version = 1;
}

-- The database behind a call, or the one before it.
abbrev pub after : {A : Type 0} → Db → Result (A × Db) → Db
after db (ok (a, end)) = end
after db (err e) = db

abbrev pub value : {A : Type 0} → A → Result (A × Db) → A
value d (ok (a, end)) = a
value d (err e) = d

abbrev pub op : ℕ → OpType → Payload → Op
op n op_type payload = record {
  op_id = n;
  entity_id = 1;
  entity_type = work_item;
  op_type = op_type;
  lamport = n;
  actor_id = some "worker";
  payload = payload;
  parent_op_ids = [];
}

abbrev pub asks : Status → Payload
asks s = record no_payload { fields = record no_fields { status = is s } }

-- All that a run computes with.
unfoldable pub execute : {A : Type 0} → Tx A → Db → Result (A × Db)
unfolding agent_notes.Lifecycle.is_canonical agent_notes.Lifecycle.is_legacy
    agent_notes.Lifecycle.is_valid agent_notes.Lifecycle.is_terminal agent_notes.Lifecycle.is_open
    agent_notes.Lifecycle.rank agent_notes.Lifecycle.status_eq
    agent_notes.Lifecycle.valid_transition agent_notes.Lifecycle.legacy_source_alias
    agent_notes.Lifecycle.target_alias agent_notes.Lifecycle.get_status
    agent_notes.Lifecycle.map_legacy_to_canonical agent_notes.Lifecycle.transition_for
    agent_notes.Ops.has_any agent_notes.Ops.Objects.lookup agent_notes.Ops.Objects.insert
    agent_notes.Ops.Objects.update agent_notes.Ops.Objects.within agent_notes.Ops.Objects.dict_eq
    agent_notes.Kernel.status_rank agent_notes.Kernel.is_status_type agent_notes.Kernel.requested
    agent_notes.Kernel.against agent_notes.Kernel.challenge agent_notes.Kernel.contest
    agent_notes.Kernel.resolve_status_lattice agent_notes.Kernel.update_fields
    agent_notes.Kernel.apply_payload agent_notes.Kernel.group_ops agent_notes.Kernel.fold_op
    agent_notes.Kernel.fold_each agent_notes.Kernel.settle agent_notes.Kernel.fold_group
    agent_notes.Kernel.fold_groups agent_notes.Kernel.fold_chain
    agent_notes.Kernel.fold_work_item_state agent_notes.Kernel.insert_op agent_notes.Kernel.sort_ops
    agent_notes.Kernel.is_seen agent_notes.Kernel.unique agent_notes.Kernel.merge_entity
    agent_notes.Kernel.apply_each agent_notes.Kernel.flush_group agent_notes.Kernel.reconcile_loop
    agent_notes.Kernel.reconciled_state agent_notes.Store.embedding_equal agent_notes.Store.◌>>=◌
    agent_notes.Store.pure agent_notes.Store.raise agent_notes.Store.reads agent_notes.Store.lift
    agent_notes.Store.require agent_notes.Store.found_or agent_notes.Store.has_blob
    agent_notes.Store.store_blob agent_notes.Store.get_blob agent_notes.Store.insert_id
    agent_notes.Store.sorted_ids agent_notes.Store.make_op_id agent_notes.Store.new_op
    agent_notes.Store.insert_log agent_notes.Store.commit_op agent_notes.Store.entity_ops
    agent_notes.Store.write_row agent_notes.Store.cache_state agent_notes.Store.fold_work_item
    agent_notes.Store.refold agent_notes.Store.emit_event agent_notes.Store.write_change
    agent_notes.Store.Rows.row_of agent_notes.Store.Rows.find_entity agent_notes.Store.Rows.find_row
    agent_notes.Store.Rows.upsert agent_notes.Store.Rows.remove_row
    agent_notes.Review.in_review_state agent_notes.Review.is_advanced agent_notes.Review.is_positive
    agent_notes.Review.is_reset agent_notes.Review.is_authored agent_notes.Review.is_content
    agent_notes.Review.gated agent_notes.Review.review_transition_for
    agent_notes.Review.is_bookkeeping agent_notes.Review.work_ops agent_notes.Review.content_edits
    agent_notes.Review.add_person agent_notes.Review.people_of agent_notes.Review.implementers
    agent_notes.Review.scan agent_notes.Review.check_model agent_notes.Review.check
    agent_notes.Review.Attempts.find_attempt agent_notes.Review.Attempts.set_attempt
    agent_notes.Review.Attempts.get_attempt agent_notes.Review.Attempts.compare_and_set
    agent_notes.Review.Attempts.mark_running agent_notes.Review.Attempts.mark_result_validated
    agent_notes.Review.Attempts.mark_transition_pending
    agent_notes.Review.Attempts.mark_transition_applied agent_notes.Review.Attempts.mark_failed
    agent_notes.Review.Attempts.artifact_verdict agent_notes.Review.Attempts.attempt_reviewer
    agent_notes.Review.Attempts.consume_attempt agent_notes.WorkItem.find_project
    agent_notes.WorkItem.resolve_workspace_for_project agent_notes.WorkItem.require_repo_project
    agent_notes.WorkItem.validate_vocab agent_notes.WorkItem.validate_given
    agent_notes.WorkItem.load_work_item_row agent_notes.WorkItem.differing
    agent_notes.WorkItem.drift agent_notes.WorkItem.create_op_id agent_notes.WorkItem.max_lamport
    agent_notes.WorkItem.anchor_op agent_notes.WorkItem.verify_seal agent_notes.WorkItem.write_seal
    agent_notes.WorkItem.seal_drifted agent_notes.WorkItem.seal agent_notes.WorkItem.seal_found
    agent_notes.WorkItem.seal_for_write agent_notes.WorkItem.Create.write_filing
    agent_notes.WorkItem.Create.file_work_item agent_notes.WorkItem.Update.changed_fields
    agent_notes.WorkItem.Update.store_body agent_notes.WorkItem.Update.new_status
    agent_notes.WorkItem.Update.approve agent_notes.WorkItem.Update.preflight
    agent_notes.WorkItem.Update.move_status agent_notes.WorkItem.Update.move_if_changed
    agent_notes.WorkItem.Update.edit_fields agent_notes.WorkItem.Update.diffs
    agent_notes.WorkItem.Update.any_diff agent_notes.WorkItem.Update.apply_edit
    agent_notes.WorkItem.Update.update_work_item agent_notes.WorkItem.Close.without_lease
    agent_notes.WorkItem.Close.delete_lease agent_notes.WorkItem.Close.closable
    agent_notes.WorkItem.Close.write_close agent_notes.WorkItem.Close.close_work_item
    agent_notes.WorkItem.Close.write_force agent_notes.WorkItem.Close.close_work_item_force
    agent_notes.WorkItem.Close.write_waiver agent_notes.WorkItem.Close.attest_gate_waiver
    agent_notes.WorkItem.Verdict.transition agent_notes.WorkItem.Verdict.name
    agent_notes.WorkItem.Verdict.target_status agent_notes.WorkItem.Verdict.choose_reviewer
    agent_notes.WorkItem.Verdict.given_attempt agent_notes.WorkItem.Verdict.refuse_attempt
    agent_notes.WorkItem.Verdict.judge agent_notes.WorkItem.Verdict.consume
    agent_notes.WorkItem.Verdict.merged_diagnostics agent_notes.WorkItem.Verdict.write_verdict
    agent_notes.WorkItem.Verdict.review_transition agent_notes.WorkItem.Leases.find_lease
    agent_notes.WorkItem.Leases.put_lease agent_notes.WorkItem.Leases.extend_lease
    agent_notes.WorkItem.Leases.grant_lease agent_notes.WorkItem.Leases.renew_lease
    agent_notes.WorkItem.Leases.write_claim agent_notes.WorkItem.Leases.claim_work_item
    agent_notes.WorkItem.Leases.reopen_claimed agent_notes.WorkItem.Leases.write_release
    agent_notes.WorkItem.Leases.release_work_item agent_notes.WorkItem.Leases.report_heartbeat
    agent_notes.WorkItem.Leases.write_heartbeat agent_notes.WorkItem.Leases.heartbeat_work_item
    agent_notes.WorkItem.Reconcile.commit_merge agent_notes.WorkItem.Reconcile.write_merge
    agent_notes.WorkItem.Reconcile.reconcile_entity agent_notes.WorkItem.Delete.delete_row
    agent_notes.WorkItem.Delete.delete_found agent_notes.WorkItem.Delete.delete_work_item
    agent_notes.Prelude.Text.strip agent_notes.Verifier.verify_op_id
    agent_notes.Verifier.verify_signature agent_notes.Verifier.verify_hash_chain
    agent_notes.Verifier.apply_policy agent_notes.Verifier.tally agent_notes.Verifier.op_violations
    agent_notes.Verifier.verify_loop agent_notes.Verifier.verify_ops
    agent_notes.Verifier.verify_entity agent_notes.Verifier.verify_all
    agent_notes.Verifier.Cache.cache_diffs agent_notes.Verifier.Cache.compare_entity
    agent_notes.Verifier.Cache.count_entity agent_notes.Verifier.Cache.cache_loop
    agent_notes.Verifier.Cache.insert_distinct agent_notes.Verifier.Cache.distinct_ids
    agent_notes.Verifier.Cache.known_entities agent_notes.Verifier.Cache.verify_cache
    agent_notes.Verifier.Gate.initial_status agent_notes.Verifier.Gate.winning_status_op
    agent_notes.Verifier.Gate.trail_group agent_notes.Verifier.Gate.trail_groups
    agent_notes.Verifier.Gate.reconstruct_status_transitions
    agent_notes.Verifier.Gate.check_degraded_completion agent_notes.Verifier.Gate.gate_loop
    agent_notes.Verifier.Gate.verify_gate_integrity
execute m db = m db
