-- ===== src/Prelude/Results.antt =====
-- Code that raises: a value or the exception, one constructor for each `raise` of the work-item code.

pub data Error : Type 0 where
  -- `transition_for`: "Unsupported status transition"
  unsupported_transition : Error
  -- `resolve_workspace_for_project`
  project_not_found : Error
  -- `require_repo_project`
  not_repo_project : Error
  -- `validate_vocab`
  unknown_vocabulary : Error
  -- no cache row for the identifier
  not_found : Error
  -- the UNIQUE constraints of the tables
  unique_violation : Error
  -- "fold_work_item returned None after ... op"
  fold_failed : Error
  -- `SealError`
  seal_failed : Error
  -- `IndependenceError`
  not_independent : Error
  -- `close_work_item`'s refusals, `attest_gate_waiver`'s, and those of the leases
  already_done is_blocked is_deferred not_closable not_terminal no_op_chain : Error
  no_op_transition attempt_not_applicable not_claimable already_claimed not_claimed : Error
  -- `reconcile_entity` on an item in review
  under_review : Error
  -- `_compare_and_set` on a review attempt
  attempt_state : Error

pub data Result {ℓ} (A : Type ℓ) : Type ℓ where
  ok : A → Result A
  err : Error → Result A

abbrev pub and_then {ℓ κ} : {A : Type ℓ} {B : Type κ} → Result A → (A → Result B) → Result B
and_then (ok a) f = f a
and_then (err e) f = err e
