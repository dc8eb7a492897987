-- ===== src/Verifier.antt =====
-- core/verifier.py: the read-only checks of the op log. This module has the checks of one op and
-- the loop over the ops of a log.
-- The message of a violation is a constructor of `Problem`. An op_type or an entity_type outside the
-- known sets cannot be written down here: both are data types. The signing envelope is not part of
-- an op in this model, so the code that stores and checks it comes as a `Signing`.
pub mod Cache
pub mod Gate
pub mod Counts
pub mod Genuine
pub mod Trails
use agent_notes.Prelude.{
  ℕ, String, Bool, true, false, not, Option, none, some, List, [], ◌∷◌, ◌++◌, ◌+◌, ◌==◌, ◌&&◌, ◌||◌,
  any, filter, str_eq, if◌then◌else◌, is_empty,
}
use agent_notes.Lifecycle.{Status, Transition, is_valid}
use agent_notes.Ops.{EntityType, OpType, set_status, get, Op}
use agent_notes.Kernel.{is_seen, sort_ops}
use agent_notes.Store.{Host, make_op_id, entity_ops}

pub data Severity : Type 0 where
  error warning : Severity

-- The `rule` of a violation with what its message says.
pub data Problem : Type 0 where
  -- rule "hash"
  op_id_mismatch : ℕ → Problem
  seq_mismatch : ℕ → ℕ → Problem
  -- rule "parent"
  parent_not_found : ℕ → Problem
  -- rule "signature"
  unsigned_migration missing_envelope placeholder_signature no_public_key bad_signature : Problem
  -- rule "policy"
  missing_actor : Problem
  invalid_status : Option Status → Problem
  -- rule "cache"
  stale_row no_row : Problem
  field_mismatch : String → Problem
  -- rule "gate"
  force_close : Option Status → Status → Problem
  accept_without_pass : Problem
  bypassed : Option Transition → Option Status → Status → Problem

pub record Violation : Type 0 where
  pub op_id : ℕ
  pub problem : Problem
  pub severity : Severity

pub record VerificationResult : Type 0 where
  pub checked : ℕ
  pub passed : ℕ
  pub failed : ℕ
  pub violations : List Violation

abbrev pub no_result : VerificationResult
no_result = record { checked = 0; passed = 0; failed = 0; violations = [] }

abbrev violation : ℕ → Problem → Violation
violation op_id problem = record { op_id = op_id; problem = problem; severity = error }

seq_violation : Op → Option ℕ → Option Violation
seq_violation op none = none
seq_violation op (some seq) =
    if seq == op.lamport then none else some (violation op.op_id (seq_mismatch seq op.lamport))

-- `verify_op_id`; the stored envelope is not part of the payload here.
unfoldable pub verify_op_id : Host → Op → Option Violation
unfolding seq_violation
verify_op_id host op =
    let expected = make_op_id host op.entity_type op.op_type op.payload op.parent_op_ids in
    if expected == op.op_id
    then seq_violation op op.payload.op_seq
    else some (violation op.op_id (op_id_mismatch expected))

-- The stored envelope of an op, the key IDs of its signatures, and `verify_envelope`, which raises
-- ValueError where the signature does not match.
pub record Signing : Type 1 where
  pub Envelope : Type 0
  pub Key : Type 0
  pub envelope : Op → Option Envelope
  pub key_ids : Envelope → List String
  pub verifies : Envelope → Key → Bool

module _ (s : Signing) where
  open s use {Envelope, Key, envelope, key_ids, verifies}

  abbrev is_migration : Option String → Bool
  is_migration none = false
  is_migration (some a) = str_eq a "migration"

  unsigned : Op → Violation
  unsigned op =
      if is_migration op.actor_id
      then record (violation op.op_id unsigned_migration) { severity = warning }
      else violation op.op_id missing_envelope

  -- The keys are compared after the placeholder entry is looked for.
  signed : Op → Envelope → Bool → Option Key → Option Violation
  signed op e true none = none
  signed op e true (some key) = some (violation op.op_id placeholder_signature)
  signed op e false none = some (record (violation op.op_id no_public_key) { severity = warning })
  signed op e false (some key) =
      if verifies e key then none else some (violation op.op_id bad_signature)

  check_envelope : Op → Option Key → Option Envelope → Option Violation
  unfolding unsigned signed
  check_envelope op key none = some (unsigned op)
  check_envelope op key (some e) = signed op e (any (λ k. str_eq k "null") (key_ids e)) key

  unfoldable pub verify_signature : Op → Option Key → Option Violation
  unfolding check_envelope
  verify_signature op key = check_envelope op key (envelope op)

missing_parent : ℕ → ℕ → List ℕ → List ℕ → Option Violation
unfolding is_seen
missing_parent op_id entity_id existing [] = none
missing_parent op_id entity_id existing (parent ∷ parents) =
    if is_seen parent existing || parent == entity_id
    then missing_parent op_id entity_id existing parents
    else some (violation op_id (parent_not_found parent))

-- `verify_hash_chain`
unfoldable pub verify_hash_chain : Op → List ℕ → Option Violation
unfolding missing_parent
verify_hash_chain op existing = missing_parent op.op_id op.entity_id existing op.parent_op_ids

abbrev pub is_present : Option String → Bool
is_present none = false
is_present (some a) = not (str_eq a "")

abbrev valid_status : Option Status → Bool
unfolding is_valid
valid_status none = false
valid_status (some s) = is_valid s

abbrev sets_status : OpType → Bool
sets_status set_status = true
sets_status _ = false

unfoldable pub apply_policy : Op → Option Violation
unfolding is_valid
apply_policy op =
    if not (is_present op.actor_id)
    then some (violation op.op_id missing_actor)
    else if sets_status op.op_type && not (valid_status (get op.payload.fields.status))
    then some (violation op.op_id (invalid_status (get op.payload.fields.status)))
    else none

abbrev pub found : Option Violation → List Violation
found none = []
found (some v) = v ∷ []

abbrev is_error : Severity → Bool
is_error error = true
is_error warning = false

-- The counts of one op: warnings alone let it pass.
unfoldable pub tally : VerificationResult → List Violation → VerificationResult
tally result vs =
    let bad = any (λ (v : Violation). is_error v.severity) vs in
    record {
      checked = result.checked + 1;
      passed = if bad then result.passed else result.passed + 1;
      failed = if bad then result.failed + 1 else result.failed;
      violations = result.violations ++ vs;
    }

module _ (host : Host) (s : Signing) (key : Option s.Key) (check_policy : Bool) where
  -- The violations of one op, in the order of the checks.
  unfoldable pub op_violations : List ℕ → Op → List Violation
  unfolding verify_op_id verify_hash_chain verify_signature apply_policy
  op_violations seen op =
      found (verify_op_id host op)
      ++ (found (verify_hash_chain op seen)
          ++ (found (verify_signature s op key)
              ++ (if check_policy then found (apply_policy op) else [])))

  unfoldable pub verify_loop : VerificationResult → List ℕ → List Op → VerificationResult
  unfolding tally op_violations
  verify_loop result seen [] = result
  verify_loop result seen (op ∷ ops) =
      verify_loop (tally result (op_violations seen op)) (op.op_id ∷ seen) ops

  -- `_verify_ops`
  unfoldable pub verify_ops : List Op → VerificationResult
  unfolding verify_loop
  verify_ops ops = verify_loop no_result [] ops

  -- `_verify_entity`, over the log
  unfoldable pub verify_entity : ℕ → List Op → VerificationResult
  unfolding verify_ops
  verify_entity entity_id log = verify_ops (entity_ops entity_id log)

  -- `verify_all`; `wanted` is the test of the WHERE clause, if there is one.
  unfoldable pub verify_all : (EntityType → Bool) → List Op → VerificationResult
  unfolding verify_ops
  verify_all wanted log = verify_ops (sort_ops (filter (λ (o : Op). wanted o.entity_type) log))
