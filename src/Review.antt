-- ===== src/Review.antt =====
-- core/work_item/_independence.py: who worked on an item, and whether a reviewer may approve it; and
-- the compare-and-set journal of core/work_item/_review_journal.py that a delegated review uses up.
pub mod Gate
pub mod Attempts
pub mod Consumption
use agent_notes.Prelude.Text.{strip}
use agent_notes.Prelude.{
  ℕ, String, ◌≡◌, Bool, true, false, not, Option, none, some, List, [], ◌∷◌, ◌++◌, ◌&&◌, ◌||◌, ◌==◌,
  ltb, str_eq, starts_with, if◌then◌else◌, Result, ok, err, and_then, is_empty, any,
  not_independent, attempt_state, leb,
}
use agent_notes.Lifecycle.{
  Status, in_review, in_human_review, in_progress, done, closed, status_eq, Transition,
  adversarial_pass, accept, reject, request_changes,
}
use agent_notes.Ops.Objects.{Json, Dict}
use agent_notes.Ops.{
  OpType, create, set_field, set_status, claim, close, merge, Fields, Producer, Person, Reviewer,
  Evidence, Independence, acknowledged, human, verified, unverified_legacy,
  no_recorded_implementers, Payload, Op, has_key,
}
use agent_notes.Store.{
  Db, Host, Attempt, AttemptStatus, result_validated, transition_pending, transition_applied,
  Assurance, attested, asserted, degraded, entity_ops, get_blob, Tx, default_to,
}

-- REVIEW_STATES
unfoldable pub in_review_state : Status → Bool
in_review_state in_review = true
in_review_state in_human_review = true
in_review_state _ = false

-- _ADVANCED
unfoldable pub is_advanced : Status → Bool
is_advanced in_human_review = true
is_advanced done = true
is_advanced closed = true
is_advanced _ = false

-- POSITIVE_TRANSITIONS
unfoldable pub is_positive : Transition → Bool
is_positive adversarial_pass = true
is_positive accept = true
is_positive _ = false

-- _RESET_TRANSITIONS
unfoldable pub is_reset : Option Transition → Bool
is_reset (some reject) = true
is_reset (some request_changes) = true
is_reset _ = false

-- _AUTHORED_OPS
unfoldable pub is_authored : OpType → Bool
is_authored create = true
is_authored set_field = true
is_authored set_status = true
is_authored claim = true
is_authored close = true
is_authored merge = true
is_authored _ = false

-- _CONTENT_OPS
unfoldable pub is_content : OpType → Bool
is_content create = true
is_content set_field = true
is_content merge = true
is_content _ = false

unfoldable pub gated : Status → Status → Bool
unfolding in_review_state is_advanced status_eq
gated old new = in_review_state old && is_advanced new && not (status_eq new old)

-- The verdict of a move to the status, by its target.
verdict_to : Status → Status → Option Transition
verdict_to old in_human_review = some adversarial_pass
verdict_to old done = some accept
verdict_to old closed = some accept
verdict_to old in_progress =
    if status_eq old in_human_review then some reject else some request_changes
verdict_to old _ = none

unfoldable pub review_transition_for : Status → Status → Option Transition
unfolding in_review_state status_eq verdict_to
review_transition_for old new =
    if not (in_review_state old) || status_eq new old then none else verdict_to old new

abbrev has_verdict : Option Transition → Bool
has_verdict none = false
has_verdict (some t) = true

-- The keys of the payload beside the producer block are `{"diagnostic_keys"}` alone.
only_diagnostics : Payload → Option Dict
only_diagnostics p =
    if has_key p.fields.project_id
      || has_key p.fields.identifier
      || has_key p.fields.title
      || has_key p.fields.body_hash
      || has_key p.fields.kind
      || has_key p.fields.status
      || has_key p.fields.severity
      || has_key p.fields.embedding
      || has_key p.fields.frontmatter_version
      || elim p.fields.external_refs [ none ↦ false | some d ↦ true ]
      || not (is_empty p.extra)
    then none
    else p.fields.diagnostic_keys

abbrev has_name : String → Dict → Bool
has_name k [] = false
has_name k ((j, v) ∷ d) = str_eq j k || has_name k d

-- `set(diag) == {k}`
abbrev all_named : String → Dict → Bool
all_named k [] = true
all_named k ((j, v) ∷ d) = str_eq j k && all_named k d

abbrev same_actor : Option String → Option String → Bool
same_actor none none = true
same_actor (some a) (some b) = str_eq a b
same_actor _ _ = false

abbrev is_set_status : OpType → Bool
is_set_status set_status = true
is_set_status _ = false

-- The op directly after a review status op, by the same actor.
follows_verdict : Op → Option Op → Bool
follows_verdict op none = false
follows_verdict op (some prev) =
    is_set_status prev.op_type
    && has_verdict prev.payload.review_transition
    && same_actor prev.actor_id op.actor_id

abbrev has_producer : Option Producer → Bool
has_producer none = false
has_producer (some p) = true

record_of_diagnostics : Op → Option Op → Option Dict → Bool
unfolding follows_verdict
record_of_diagnostics op prev none = false
record_of_diagnostics op prev (some diag) =
    not (is_empty diag) && all_named "gate_attestation" diag
    || not (has_producer op.payload.producer)
      && has_name "review_notes" diag
      && follows_verdict op prev

bookkeeping_type : OpType → Op → Option Op → Bool
unfolding record_of_diagnostics only_diagnostics
bookkeeping_type create op prev = not (has_key op.payload.fields.title)
bookkeeping_type set_field op prev = record_of_diagnostics op prev (only_diagnostics op.payload)
bookkeeping_type _ op prev = false

-- `_is_bookkeeping`
unfoldable pub is_bookkeeping : Op → Option Op → Bool
unfolding bookkeeping_type
is_bookkeeping op prev =
    has_verdict op.payload.review_transition || bookkeeping_type op.op_type op prev

-- `if op.get("actor_id")`
abbrev has_author : Option String → Bool
has_author none = false
has_author (some a) = not (str_eq a "")

-- The loop of `_work_ops`: `work` so far, the previous op, the ops to come.
unfoldable pub work_ops : List Op → Option Op → List Op → List Op
unfolding is_reset is_authored is_bookkeeping
work_ops work prev [] = work
work_ops work prev (op ∷ ops) =
    work_ops
      (if is_set_status op.op_type && is_reset op.payload.review_transition
        then []
        else if is_authored op.op_type && not (is_bookkeeping op prev) && has_author op.actor_id
        then work ++ op ∷ []
        else work)
      (some op) ops

-- `_content_edits`
unfoldable pub content_edits : Option Op → List Op → List Op
unfolding is_content is_bookkeeping
content_edits prev [] = []
content_edits prev (op ∷ ops) =
    let rest = content_edits (some op) ops in
    if is_content op.op_type && not (is_bookkeeping op prev) then op ∷ rest else rest

abbrev same_lineage : Option String → Option String → Bool
same_lineage none none = true
same_lineage (some a) (some b) = str_eq a b
same_lineage _ _ = false

abbrev is_person : String → Option String → Person → Bool
is_person actor lineage p = str_eq p.actor_id actor && same_lineage p.lineage lineage

lineage_in : Option Producer → Option String
lineage_in none = none
lineage_in (some p) = p.lineage

model_in : Option Producer → Option String
model_in none = none
model_in (some p) = p.model

-- `found.setdefault((actor_id, lineage), ...)`
unfoldable pub add_person : List Person → Op → List Person
unfolding lineage_in model_in
add_person found op =
    let actor = default_to op.actor_id "" in
    let lineage = lineage_in op.payload.producer in
    if any (is_person actor lineage) found
    then found
    else found
      ++ record { actor_id = actor; lineage = lineage; model = model_in op.payload.producer } ∷ []

unfoldable pub people_of : List Person → List Op → List Person
unfolding add_person
people_of found [] = found
people_of found (op ∷ ops) = people_of (add_person found op) ops

-- `implementers` over the item's ops in fold order
unfoldable pub implementers : List Op → List Person
unfolding people_of work_ops
implementers ops = people_of [] (work_ops [] none ops)

-- `process_reviewer`
abbrev pub process_reviewer : Host → Reviewer
process_reviewer host = record {
  actor_id = host.actor_id;
  producer = host.producer;
  attempt_id = none;
}

-- What `check` finds among the implementers: a clash, or whether one reported no model.
pub data Scan : Type 0 where
  clash : Scan
  clear : (unverified : Bool) → Scan

-- The loop over `people` for a reviewer with a known lineage.
unfoldable pub scan : String → String → Bool → List Person → Scan
scan actor lineage unverified [] = clear unverified
scan actor lineage unverified (p ∷ ps) =
    let known = scan actor lineage unverified ps in
    let unknown = scan actor lineage true ps in
    elim p.lineage [
      | some l ↦ if str_eq l lineage then clash else known
      | none ↦ if str_eq p.actor_id actor then clash else unknown
    ]

verdict_of : Bool → List Person → Independence
verdict_of true people = unverified_legacy
verdict_of false people = if is_empty people then no_recorded_implementers else verified

abbrev evidence : Reviewer → List Person → Independence → Option String → Evidence
evidence reviewer people independence acknowledgement = record {
  reviewer = reviewer;
  implementers = people;
  independence = independence;
  acknowledgement = acknowledgement;
}

-- The branch of a reviewer that is a model.
unfoldable pub check_model : Reviewer → List Person → Option String → Result Evidence
unfolding scan verdict_of
check_model reviewer people none = err not_independent
check_model reviewer people (some lineage) =
    if str_eq lineage ""
    then err not_independent
    else elim (scan reviewer.actor_id lineage false people) [
      | clash ↦ err not_independent
      | clear unverified ↦ ok (evidence reviewer people (verdict_of unverified people) none)
    ]

check_human : Reviewer → List Person → Result Evidence
check_human reviewer people =
    if any (λ (p : Person). str_eq p.actor_id reviewer.actor_id) people
    then err not_independent
    else ok (evidence reviewer people human none)

-- `check`, given what `implementers` returned
unfoldable pub check : List Person → Reviewer → Option String → Result Evidence
unfolding check_model check_human strip
check people reviewer (some reason) =
    if str_eq (strip reason) ""
    then err not_independent
    else ok (evidence reviewer people acknowledged (some (strip reason)))
check people reviewer none =
    if starts_with reviewer.actor_id "human:"
    then check_human reviewer people
    else check_model reviewer people reviewer.producer.lineage
