-- ===== src/Verifier/Gate.antt =====
-- `verify_gate_integrity` of core/verifier.py: terminal items that the review gate did not pass.
use agent_notes.Prelude.{
  ℕ, Bool, true, false, not, Option, none, some, List, [], ◌∷◌, ◌++◌, ◌+◌, ◌&&◌, any, map, filter,
  if◌then◌else◌, ok, err, Result,
}
use agent_notes.Lifecycle.{
  Status, opened, in_review, in_human_review, other, status_eq, is_terminal, target_alias,
  Transition, accept, close_from_open, transition_for,
}
use agent_notes.Ops.Objects.{lookup}
use agent_notes.Ops.{OpType, create, close, get_or, Op}
use agent_notes.Kernel.{State, group_ops, is_status_op, new_status, resolve_status_lattice}
use agent_notes.Store.{Db, entity_ops, fold_entity}
use agent_notes.Verifier.{
  VerificationResult, no_result, Problem, force_close, accept_without_pass, bypassed, warning,
}
use agent_notes.Verifier.Cache.{distinct_ids, is_work_item}

pub record Change : Type 0 where
  pub old : Option Status
  pub new : Status
  pub op : Op

-- The transitions so far, and the status.
pub record Trail : Type 0 where
  pub transitions : List Change
  pub status : Option Status

abbrev is_create : OpType → Bool
is_create create = true
is_create _ = false

-- A group without status ops: a create op sets the status.
unfoldable pub initial_status : Option Status → List Op → Option Status
initial_status status [] = status
initial_status status (op ∷ ops) =
    initial_status (if is_create op.op_type then get_or op.payload.fields.status opened else status)
      ops

abbrev pub same_status : Option Status → Option Status → Bool
unfolding status_eq
same_status none none = true
same_status (some a) (some b) = status_eq a b
same_status _ _ = false

-- `_winning_status_op`: the first op that asks for the status, or else the last one.
unfoldable pub winning_status_op : Op → List Op → Status → Op
unfolding status_eq
winning_status_op op [] s = op
winning_status_op op (next ∷ ops) s =
    if same_status (new_status op) (some s) then op else winning_status_op next ops s

abbrev pub move : Trail → Op → List Op → Option Status → Trail
unfolding status_eq winning_status_op
move t op ops none = t
move t op ops (some s) = if same_status (some s) t.status then t else record {
  transitions =
      t.transitions ++ record { old = t.status; new = s; op = winning_status_op op ops s } ∷ [];
  status = some s;
}

unfoldable pub trail_group : Trail → List Op → List Op → Trail
unfolding initial_status move resolve_status_lattice
trail_group t group [] = record t { status = initial_status t.status group }
trail_group t group (op ∷ ops) = move t op ops (resolve_status_lattice (op ∷ ops) t.status)

unfoldable pub trail_groups : Trail → List (List Op) → Trail
unfolding trail_group
trail_groups t [] = t
trail_groups t (g ∷ gs) = trail_groups (trail_group t g (filter is_status_op g)) gs

abbrev pub no_trail : Trail
no_trail = record { transitions = []; status = none }

-- `_reconstruct_status_transitions`
unfoldable pub reconstruct_status_transitions : List Op → Trail
unfolding trail_groups
reconstruct_status_transitions ops = trail_groups no_trail (group_ops [] none [] ops)

-- The last transition into a terminal status, and the transitions before it.
last_terminal :
    List Change → List Change → Option (List Change × Change) → Option (List Change × Change)
unfolding is_terminal
last_terminal before [] best = best
last_terminal before (c ∷ cs) best =
    last_terminal (before ++ c ∷ []) cs (if is_terminal c.new then some (before, c) else best)

-- `_canonical`, and `or ""`
abbrev canonical_or_empty : Option Status → Status
unfolding target_alias
canonical_or_empty none = other ""
canonical_or_empty (some s) = target_alias s

-- `except ValueError: tname = None`
abbrev name_or_none : Result (Option Transition) → Option Transition
name_or_none (ok t) = t
name_or_none (err e) = none

abbrev is_pass : Change → Bool
unfolding status_eq
is_pass c = same_status c.old (some in_review) && status_eq c.new in_human_review

abbrev is_close : OpType → Bool
is_close close = true
is_close _ = false

judge_transition : List Change → Change → Option Transition → Option Problem
judge_transition before c (some close_from_open) = none
judge_transition before c (some accept) =
    if any is_pass before then none else some accept_without_pass
judge_transition before c t = some (bypassed t c.old c.new)

judge_completion : Option (List Change × Change) → Option Problem
unfolding judge_transition transition_for target_alias
judge_completion none = none
judge_completion (some (before, c)) =
    if is_close c.op.op_type
    then some (force_close c.old c.new)
    else judge_transition before c
        (name_or_none (transition_for (canonical_or_empty c.old) (target_alias c.new)))

-- `_has_gate_attestation`
abbrev pub has_gate_attestation : State → Bool
unfolding lookup
has_gate_attestation s = elim (lookup "gate_attestation" s.diagnostic_keys) [
  | none ↦ false
  | some v ↦ true
]

abbrev pub terminal_state : Option Status → Bool
unfolding is_terminal
terminal_state none = false
terminal_state (some s) = is_terminal s

-- `_check_degraded_completion`
unfoldable pub check_degraded_completion : List Op → State → Option Problem
unfolding judge_completion last_terminal reconstruct_status_transitions
check_degraded_completion ops folded =
    if not (terminal_state folded.status)
    then none
    else if has_gate_attestation folded
    then none
    else judge_completion (last_terminal [] (reconstruct_status_transitions ops).transitions none)

abbrev pub reported : ℕ → Option Problem → VerificationResult → VerificationResult
reported e none r = record r { checked = r.checked + 1; passed = r.passed + 1 }
reported e (some p) r = record r {
  checked = r.checked + 1;
  violations = r.violations ++ record { op_id = e; problem = p; severity = warning } ∷ [];
}

-- An entity without ops, or whose fold is empty, is skipped.
check_entity : Db → VerificationResult → ℕ → Option State → VerificationResult
unfolding check_degraded_completion
check_entity db r e none = r
check_entity db r e (some folded) =
    reported e (check_degraded_completion (entity_ops e db.op_log) folded) r

unfoldable pub gate_loop : Db → VerificationResult → List ℕ → VerificationResult
unfolding check_entity
gate_loop db r [] = r
gate_loop db r (e ∷ es) = gate_loop db (check_entity db r e (fold_entity db.op_log e)) es

abbrev pub gate_entities : Option ℕ → Db → List ℕ
unfolding distinct_ids
gate_entities none db =
    distinct_ids
      (map (λ (o : Op). o.entity_id) (filter (λ (o : Op). is_work_item o.entity_type) db.op_log))
gate_entities (some e) db = e ∷ []

-- `_verify_gate_integrity`
unfoldable pub verify_gate_integrity : Option ℕ → Db → VerificationResult
unfolding gate_loop
verify_gate_integrity entity_id db = gate_loop db no_result (gate_entities entity_id db)
