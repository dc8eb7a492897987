-- ===== src/Tests/Review.antt =====
-- The theorems of Review on a reviewer of another lineage, and on a delegated attempt.
use agent_notes.Prelude.{
  String, ◌≡◌, ◌≢◌, refl, none, some, [], ◌∷◌, ok, err, All, attempt_state, not_independent,
}
use text.Mathlib.TextEquality.{eq_iff}
use agent_notes.Lifecycle.{accept}
use agent_notes.Ops.{Person, Reviewer, Evidence}
use agent_notes.Review.{check, process_reviewer}
use agent_notes.Review.Gate.{IsApart, check-IsApart, check-apart, check-human}
use agent_notes.Review.Attempts.{consume_attempt, attempt_reviewer}
use agent_notes.Review.Consumption.{consume_attempt-once, attempt_reviewer-once}
use agent_notes.Store.{Db, Attempt, result_validated, attested}
use agent_notes.Tests.{reviewer, empty_db, after, execute}
use agent_notes.Ops.{Op, create, is, no_fields, no_payload}

abbrev author : Person
author = record { actor_id = "worker"; lineage = some "claude"; model = some "claude" }

abbrev human : Reviewer
human = record (process_reviewer reviewer) { actor_id = "human:ann" }

abbrev no_evidence : Evidence
no_evidence = record {
  reviewer = human;
  implementers = [];
  independence = agent_notes.Ops.Independence.human;
  acknowledgement = none;
}

abbrev verdict_on : Reviewer → Evidence
verdict_on r = elim (check (author ∷ []) r none) [ ok e ↦ e | err x ↦ no_evidence ]

check-IsApart_example :
    (lineage : String) × (some "gpt" ≡ some lineage)
    × All (IsApart "reviewer" lineage) (author ∷ [])
unfolding execute
check-IsApart_example =
    check-IsApart (author ∷ []) (process_reviewer reviewer) (verdict_on (process_reviewer reviewer))
      refl refl

apart : All (IsApart "reviewer" "gpt") (author ∷ [])
apart = ((λ same. cc ((eq_iff "claude" "gpt").1 same)), tt)

check-apart_example : (e : Evidence) × (check (author ∷ []) (process_reviewer reviewer) none ≡ ok e)
unfolding execute
check-apart_example =
    check-apart (author ∷ []) (process_reviewer reviewer) "gpt" refl refl
      (λ same. cc ((eq_iff "gpt" "").1 same)) apart

check-human_example : All (λ (p : Person). p.actor_id ≢ "human:ann") (author ∷ [])
unfolding execute
check-human_example = check-human (author ∷ []) human (verdict_on human) refl refl

abbrev attempt : Attempt
attempt = record {
  attempt_id = "a1";
  project_id = 1;
  work_item_entity_id = 1;
  harness = "cli";
  model_identity = "gpt";
  reported_model_identity = none;
  identity_assurance = some attested;
  artifact_digest = none;
  intended_transition = none;
  native_op_id = none;
  status = result_validated;
  item_lamport = some 1;
}

abbrev attempt_db : Db
attempt_db = record empty_db { attempts = attempt ∷ [] }

abbrev delegate : Reviewer
delegate = record (process_reviewer reviewer) { attempt_id = some "a1" }

abbrev consumed_db : Db
consumed_db = after attempt_db (execute (consume_attempt delegate accept 9) attempt_db)

consume_attempt-once_example : consume_attempt delegate accept 10 consumed_db ≡ err attempt_state
unfolding execute
consume_attempt-once_example =
    consume_attempt-once delegate accept 9 "a1" attempt_db tt consumed_db refl refl accept 10

attempt_reviewer-once_example : attempt_reviewer reviewer "a1" 1 1 consumed_db ≡ err not_independent
unfolding execute
attempt_reviewer-once_example =
    attempt_reviewer-once reviewer delegate accept 9 "a1" attempt_db tt consumed_db refl refl "a1"
      refl 1 1
