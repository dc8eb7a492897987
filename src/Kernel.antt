-- ===== src/Kernel.antt =====
-- core/kernel.py, the pure part: the status lattice, the fold of an op chain into a work item's
-- state, the merge of two chains and the in-memory fold of `reconcile_entity`.
pub mod Lattice
pub mod Folding
pub mod Merging
pub mod Convergence
pub mod Identity
pub mod Snapshots
use agent_notes.Prelude.{
  ℕ, String, ◌≡◌, Bool, true, false, not, Option, none, some, List, [], ◌∷◌, ◌++◌, ◌&&◌, ◌||◌, ◌==◌,
  ltb, if◌then◌else◌, is_empty, filter,
}
use agent_notes.Prelude.Int.{ℤ, negsuc, ltb_ℤ, eqb_ℤ}
use agent_notes.Lifecycle.{Status, opened, closed, rank}
use agent_notes.Ops.Objects.{Json, Dict, update}
use agent_notes.Ops.{
  OpType, create, set_status, set_field, snapshot, merge, close, Fields, Payload, Op, get, get_or,
  assign, has_any,
}

-- `_status_rank`
unfoldable pub status_rank : Option Status → ℤ
unfolding rank
status_rank none = negsuc 0
status_rank (some s) = rank s

unfoldable pub is_status_type : OpType → Bool
is_status_type set_status = true
is_status_type close = true
is_status_type _ = false

-- `op["op_type"] in ("set_status", "close")`
abbrev pub is_status_op : Op → Bool
is_status_op op = is_status_type op.op_type

-- The status that a status op asks for: `close` asks for `closed`.
unfoldable pub requested : OpType → Payload → Option Status
requested close p = some closed
requested _ p = get p.fields.status

abbrev pub new_status : Op → Option Status
new_status op = requested op.op_type op.payload

-- `winning_status` and `winning_op_id`, which the loop sets together.
abbrev pub Winner : Type 0
Winner = Option (Status × ℕ)

unfoldable pub against : Winner → Status → ℕ → Winner
unfolding status_rank
against none s op_id = some (s, op_id)
against (some (w, winning_op_id)) s op_id =
    if ltb_ℤ (status_rank (some w)) (status_rank (some s))
    then some (s, op_id)
    else if eqb_ℤ (status_rank (some s)) (status_rank (some w)) && ltb op_id winning_op_id
    then some (s, op_id)
    else some (w, winning_op_id)

-- The loop body: an op without a status is passed over.
unfoldable pub challenge : Winner → Op → Winner
unfolding against requested
challenge w op = elim (new_status op) [ none ↦ w | some s ↦ against w s op.op_id ]

unfoldable pub contest : Winner → List Op → Winner
contest w [] = w
contest w (op ∷ ops) = contest (challenge w op) ops

abbrev pub winning_status : Winner → Option Status
winning_status none = none
winning_status (some (s, op_id)) = some s

unfoldable pub resolve_status_lattice : List Op → Option Status → Option Status
unfolding contest challenge requested
resolve_status_lattice [] current = current
resolve_status_lattice (op ∷ []) current = new_status op
resolve_status_lattice (op ∷ op' ∷ ops) current = winning_status (contest none (op ∷ op' ∷ ops))

-- The state accumulator of the folds.
pub record State : Type 0 where
  pub entity_id : ℕ
  pub project_id : Option ℕ
  pub identifier : Option String
  pub title : Option String
  pub body_hash : Option ℕ
  pub kind : Option String
  pub status : Option Status
  pub severity : Option String
  pub external_refs : Dict
  pub diagnostic_keys : Dict
  pub embedding : Option Json
  pub frontmatter_version : Option ℕ

abbrev pub initial : ℕ → State
initial entity_id = record {
  entity_id = entity_id;
  project_id = none;
  identifier = none;
  title = none;
  body_hash = none;
  kind = none;
  status = none;
  severity = some "medium";
  external_refs = [];
  diagnostic_keys = [];
  embedding = none;
  frontmatter_version = some 1;
}

abbrev or_empty : Option Dict → Dict
or_empty none = []
or_empty (some d) = d

abbrev or_old : Option Dict → Dict → Dict
or_old none old = old
or_old (some d) old = d

abbrev updated : Option Dict → Dict → Dict
updated none old = old
updated (some d) old = update old d

-- `state.update(fields)`
unfoldable pub update_fields : State → Fields → State
update_fields s f = record s {
  project_id = assign f.project_id s.project_id;
  identifier = assign f.identifier s.identifier;
  title = assign f.title s.title;
  body_hash = assign f.body_hash s.body_hash;
  kind = assign f.kind s.kind;
  status = assign f.status s.status;
  severity = assign f.severity s.severity;
  external_refs = or_old f.external_refs s.external_refs;
  diagnostic_keys = or_old f.diagnostic_keys s.diagnostic_keys;
  embedding = assign f.embedding s.embedding;
  frontmatter_version = assign f.frontmatter_version s.frontmatter_version;
}

-- `state.update(payload.get(key, {}))`
abbrev update_state : State → Option Fields → State
update_state s none = s
update_state s (some f) = update_fields s f

apply_create : State → Fields → State
apply_create s f = record s {
  project_id = get f.project_id;
  identifier = get f.identifier;
  title = get f.title;
  body_hash = get f.body_hash;
  kind = get f.kind;
  status = get_or f.status opened;
  severity = get_or f.severity "medium";
  external_refs = or_empty f.external_refs;
  diagnostic_keys = or_empty f.diagnostic_keys;
  embedding = get f.embedding;
  frontmatter_version = get_or f.frontmatter_version 1;
}

apply_set_field : State → Fields → State
apply_set_field s f = record s {
  title = assign f.title s.title;
  body_hash = assign f.body_hash s.body_hash;
  kind = assign f.kind s.kind;
  severity = assign f.severity s.severity;
  external_refs = updated f.external_refs s.external_refs;
  diagnostic_keys = updated f.diagnostic_keys s.diagnostic_keys;
  embedding = assign f.embedding s.embedding;
  frontmatter_version = assign f.frontmatter_version s.frontmatter_version;
}

unfoldable pub apply_payload : OpType → State → Payload → State
unfolding apply_create apply_set_field update_fields
apply_payload create s p = apply_create s p.fields
apply_payload set_field s p = apply_set_field s p.fields
apply_payload snapshot s p = update_state s p.sealed_state
apply_payload merge s p = update_state s p.merged_state
apply_payload _ s p = s

-- `_apply_op_to_state`
abbrev pub apply_op_to_state : State → Op → State
apply_op_to_state s op = apply_payload op.op_type s op.payload

-- `groups`, `current_lamport` and `current_group` of the grouping loop.
abbrev pub differs : ℕ → Option ℕ → Bool
differs l none = true
differs l (some m) = not (l == m)

abbrev pub close_group : List (List Op) → List Op → List (List Op)
close_group groups group = if is_empty group then groups else groups ++ group ∷ []

unfoldable pub group_ops : List (List Op) → Option ℕ → List Op → List Op → List (List Op)
group_ops groups current group [] = close_group groups group
group_ops groups current group (op ∷ ops) = elim (differs op.lamport current) [
  | true ↦ group_ops (close_group groups group) (some op.lamport) (op ∷ []) ops
  | false ↦ group_ops groups current (group ++ op ∷ []) ops
]

pub record Folded : Type 0 where
  pub state : State
  pub tombstoned : Bool

abbrev pub sealed : Payload → Bool
sealed p = elim p.sealed_state [ none ↦ false | some f ↦ has_any f ]

abbrev pub is_snapshot : OpType → Bool
is_snapshot snapshot = true
is_snapshot _ = false

-- One round of the loop over a group; status ops are left for the end of the group.
unfoldable pub fold_op : Folded → Op → Folded
unfolding is_status_type apply_payload
fold_op acc op =
    if is_status_op op
    then acc
    else if is_snapshot op.op_type && op.payload.tombstone
    then record acc { tombstoned = true }
    else record {
      state = apply_op_to_state acc.state op;
      tombstoned = if is_snapshot op.op_type && sealed op.payload then false else acc.tombstoned;
    }

unfoldable pub fold_each : Folded → List Op → Folded
fold_each acc [] = acc
fold_each acc (op ∷ ops) = fold_each (fold_op acc op) ops

-- `if status_ops: state["status"] = _resolve_status_lattice(status_ops, state.get("status"))`
unfoldable pub settle : State → List Op → State
settle s [] = s
settle s (op ∷ ops) = record s { status = resolve_status_lattice (op ∷ ops) s.status }

unfoldable pub fold_group : Folded → List Op → Folded
unfolding fold_each
fold_group acc group =
    let after = fold_each acc group in
    record after { state = settle after.state (filter is_status_op group) }

unfoldable pub fold_groups : Folded → List (List Op) → Folded
fold_groups acc [] = acc
fold_groups acc (g ∷ gs) = fold_groups (fold_group acc g) gs

abbrev pub fresh : ℕ → Folded
fresh entity_id = record { state = initial entity_id; tombstoned = false }

-- The loops of `fold_work_item_state`, over the ops in fold order.
unfoldable pub fold_chain : ℕ → List Op → Folded
fold_chain entity_id ops = fold_groups (fresh entity_id) (group_ops [] none [] ops)

-- A state without a project or an identifier is a dangling entity's.
abbrev pub is_dangling : State → Bool
is_dangling s = elim s.project_id [
  | none ↦ true
  | some p ↦ elim s.identifier [ none ↦ true | some i ↦ false ]
]

abbrev pub outcome : Folded → Option State
outcome acc =
    if acc.tombstoned then none else if is_dangling acc.state then none else some acc.state

-- `fold_work_item_state` of the ops that `_get_entity_ops` returns.
unfoldable pub fold_work_item_state : ℕ → List Op → Option State
unfolding fold_chain
fold_work_item_state entity_id [] = none
fold_work_item_state entity_id (op ∷ ops) = outcome (fold_chain entity_id (op ∷ ops))

-- The sort key (lamport, op_id), and Python's stable sort by it.
abbrev pub not_after : Op → Op → Bool
not_after a b = ltb a.lamport b.lamport || a.lamport == b.lamport && not (ltb b.op_id a.op_id)

unfoldable pub insert_op : Op → List Op → List Op
insert_op op [] = op ∷ []
insert_op op (x ∷ xs) = if not_after op x then op ∷ x ∷ xs else x ∷ insert_op op xs

unfoldable pub sort_ops : List Op → List Op
unfolding insert_op
sort_ops [] = []
sort_ops (op ∷ ops) = insert_op op (sort_ops ops)

-- The loop that keeps the first op of each op_id; `seen` is the set of the ids so far.
unfoldable pub is_seen : ℕ → List ℕ → Bool
is_seen i [] = false
is_seen i (j ∷ seen) = i == j || is_seen i seen

unfoldable pub unique : List ℕ → List Op → List Op
unfolding is_seen
unique seen [] = []
unique seen (op ∷ ops) = elim (is_seen op.op_id seen) [
  | true ↦ unique seen ops
  | false ↦ op ∷ unique (op.op_id ∷ seen) ops
]

unfoldable pub merge_entity : List Op → List Op → List Op
unfolding unique sort_ops
merge_entity local_ops remote_ops = sort_ops (unique [] (local_ops ++ remote_ops))

-- `_flush_group` of `reconcile_entity`
unfoldable pub apply_each : State → List Op → State
unfolding is_status_type apply_payload
apply_each s [] = s
apply_each s (op ∷ ops) = apply_each (if is_status_op op then s else apply_op_to_state s op) ops

unfoldable pub flush_group : State → List Op → State
unfolding apply_each settle
flush_group s group = settle (apply_each s group) (filter is_status_op group)

-- The loop of `reconcile_entity` over the merged ops, with the flush behind it.
unfoldable pub reconcile_loop : State → Option ℕ → List Op → List Op → State
reconcile_loop s current group [] = flush_group s group
reconcile_loop s current group (op ∷ ops) = elim (differs op.lamport current) [
  | true ↦ reconcile_loop (flush_group s group) (some op.lamport) (op ∷ []) ops
  | false ↦ reconcile_loop s current (group ++ op ∷ []) ops
]

unfoldable pub reconciled_state : ℕ → List Op → State
reconciled_state entity_id merged_ops = reconcile_loop (initial entity_id) none [] merged_ops
