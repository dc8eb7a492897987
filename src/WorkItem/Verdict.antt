-- ===== src/WorkItem/Verdict.antt =====
-- `review_transition` of core/work_item/_native.py.
use agent_notes.Prelude.{
  if◌then◌else◌, str_eq, ℕ, String, Bool, true, false, not, Option, none, some, [], ◌∷◌,
  no_op_transition, attempt_not_applicable,
}
use agent_notes.Lifecycle.{
  Status, in_human_review, done, in_progress, status_eq, transition_for, Transition,
}
use agent_notes.Ops.Objects.{
  Json, str, arr, obj, Items, nil, cons, member, end, Dict, lookup, insert,
}
use agent_notes.Ops.{
  set_field, set_status, work_item, is, no_fields, Payload, no_payload, authored, Evidence,
  Reviewer,
}
use agent_notes.Store.Rows.{Row}
use agent_notes.Store.{
  Host, Tx, ◌>>=◌, ◌>>◌, pure, raise, reads, lift, require, commit_op, refold, write_change,
  emit_event, entity_ops, item_status_changed, status_changed,
}
use agent_notes.Review.{is_positive, implementers, check, process_reviewer}
use agent_notes.Review.Attempts.{attempt_reviewer, consume_attempt}
use agent_notes.WorkItem.{resolve_workspace_for_project, load_work_item_row, seal_for_write}

pub data Verdict : Type 0 where
  adversarial_pass accept reject request_changes : Verdict

-- The name of the verdict, as a transition.
unfoldable pub transition : Verdict → Transition
transition adversarial_pass = Transition.adversarial_pass
transition accept = Transition.accept
transition reject = Transition.reject
transition request_changes = Transition.request_changes

unfoldable pub name : Verdict → String
name adversarial_pass = "adversarial_pass"
name accept = "accept"
name reject = "reject"
name request_changes = "request_changes"

-- _REVIEW_TRANSITION_TO_STATUS
unfoldable pub target_status : Verdict → Status
target_status adversarial_pass = in_human_review
target_status accept = done
target_status reject = in_progress
target_status request_changes = in_progress

-- The running process, or the delegated attempt.
unfoldable pub choose_reviewer : Host → Option String → ℕ → ℕ → Tx Reviewer
choose_reviewer host none project_id entity_id = pure (process_reviewer host)
choose_reviewer host (some attempt_id) project_id entity_id =
    attempt_reviewer host attempt_id project_id entity_id

-- `if attempt_id:`, where the empty string counts as none.
unfoldable pub given_attempt : Option String → Option String
given_attempt none = none
given_attempt (some attempt_id) = if str_eq attempt_id "" then none else some attempt_id

unfoldable pub refuse_attempt : Option String → Tx (Option (Reviewer × Evidence))
refuse_attempt none = pure none
refuse_attempt (some attempt_id) = raise attempt_not_applicable

-- A positive verdict is checked for independence; any other takes no attempt.
unfoldable pub judge :
    Host → Row → ℕ → Bool → Option String → Option String → Tx (Option (Reviewer × Evidence))
unfolding choose_reviewer given_attempt refuse_attempt
judge host old project_id positive acknowledgement attempt_id = elim positive [
  | true ↦ do
    reviewer ← choose_reviewer host (given_attempt attempt_id) project_id old.entity_id
    people ← reads (λ db. implementers (entity_ops old.entity_id db.op_log))
    found ← lift (check people reviewer acknowledgement)
    pure (some (reviewer, found))
  | false ↦ refuse_attempt (given_attempt attempt_id)
]

abbrev evidence_of : Option (Reviewer × Evidence) → Option Evidence
evidence_of none = none
evidence_of (some (r, e)) = some e

unfoldable pub consume : Option (Reviewer × Evidence) → Transition → ℕ → Tx (Unit {0})
consume none t op_id = pure tt
consume (some (r, e)) t op_id = consume_attempt r t op_id

abbrev pub note : Host → Verdict → String → Json
unfolding name
note host v text = obj (
    member "transition" (str (name v)) (
      member "note" (str text)
        (member "actor_id" (str host.actor_id) (member "at" (str host.timestamp) end))))

abbrev pub snoc : Items → Json → Items
snoc nil v = cons v nil
snoc (cons x xs) v = cons x (snoc xs v)

-- `list(old_diag.get("review_notes") or [])`
abbrev pub notes_in : Option Json → Items
notes_in (some (arr xs)) = xs
notes_in _ = nil

-- `{**old_diag, "review_notes": review_notes}`
unfoldable pub merged_diagnostics : Host → Verdict → String → Dict → Dict
unfolding lookup insert
merged_diagnostics host v text old =
    insert "review_notes" (arr (snoc (notes_in (lookup "review_notes" old)) (note host v text))) old

abbrev verdict_payload : Host → Verdict → String → Option Evidence → Payload
unfolding transition target_status
verdict_payload host v text found =
    authored
      (record no_payload {
        fields = record no_fields { status = is (target_status v) };
        review_transition = some (transition v);
        independence = found;
        extra = ("review_note", str text) ∷ [];
      })
      host.producer

abbrev note_payload : Host → Verdict → Dict → Payload
unfolding transition
note_payload host v diagnostics =
    authored
      (record no_payload {
        fields = record no_fields { diagnostic_keys = some diagnostics };
        review_transition = some (transition v);
      })
      host.producer

-- The two ops of a verdict, the use of its attempt, and the fold.
unfoldable pub write_verdict :
    Host → ℕ → ℕ → String → Verdict → String → Row → Option (Reviewer × Evidence) → Tx Row
unfolding transition target_status consume merged_diagnostics
write_verdict host workspace_id project_id identifier v review_note old judged = do
  op ←
      commit_op host (some old.entity_id) work_item set_status
        (verdict_payload host v review_note (evidence_of judged)) (old.entity_id ∷ [])
  consume judged (transition v) op.op_id
  emit_event op old.entity_id identifier
      (item_status_changed old.status (target_status v) (some (transition v)))
  commit_op host (some old.entity_id) work_item set_field
      (note_payload host v (merged_diagnostics host v review_note old.diagnostic_keys))
      (old.entity_id ∷ [])
  folded ← refold old.entity_id
  write_change workspace_id project_id identifier
      (status_changed old.status (target_status v) (some (transition v, review_note)))
      (some host.actor_id)
  pure folded

unfoldable pub review_transition :
    Host → ℕ → String → Verdict → String → Option String → Option String → Tx Row
unfolding transition target_status judge status_eq transition_for is_positive write_verdict
review_transition host project_id identifier v review_note acknowledgement attempt_id = do
  workspace_id ← resolve_workspace_for_project project_id
  seal_for_write host project_id identifier
  old ← load_work_item_row project_id identifier
  require (not (status_eq old.status (target_status v))) no_op_transition
  lift (transition_for old.status (target_status v))
  judged ← judge host old project_id (is_positive (transition v)) acknowledgement attempt_id
  write_verdict host workspace_id project_id identifier v review_note old judged
