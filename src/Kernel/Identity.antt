-- ===== src/Kernel/Identity.antt =====
-- About the fold of core/kernel.py and the entity that a state belongs to.
use agent_notes.Prelude.{ℕ, ◌≡◌, refl, ◌∙◌, some, List, [], ◌∷◌, arith, filter}
use agent_notes.Ops.{OpType, create, set_field, snapshot, merge, Payload, Op}
use agent_notes.Kernel.{
  State, Folded, apply_payload, fold_op, fold_each, settle, fold_group, fold_groups, fresh,
  fold_chain, group_ops, fold_work_item_state, outcome, is_status_op, none,
}

apply_payload-entity :
    (t : OpType) (s : State) (p : Payload) → (apply_payload t s p).entity_id ≡ s.entity_id
unfolding apply_payload
apply_payload-entity create s p = refl
apply_payload-entity set_field s p = refl
apply_payload-entity snapshot s p = ground arith
apply_payload-entity merge s p = ground arith
apply_payload-entity _ s p = refl

fold_op-entity : (acc : Folded) (op : Op) → (fold_op acc op).state.entity_id ≡ acc.state.entity_id
unfolding fold_op
fold_op-entity acc op = ground (arith, apply_payload-entity op.op_type acc.state op.payload)

fold_each-entity :
    (acc : Folded) (ops : List Op) → (fold_each acc ops).state.entity_id ≡ acc.state.entity_id
unfolding fold_each
fold_each-entity acc [] = refl
fold_each-entity acc (op ∷ ops) = fold_each-entity (fold_op acc op) ops ∙ fold_op-entity acc op

settle-entity : (s : State) (ops : List Op) → (settle s ops).entity_id ≡ s.entity_id
unfolding settle
settle-entity s [] = refl
settle-entity s (op ∷ ops) = refl

fold_groups-entity :
    (acc : Folded) (gs : List (List Op))
    → (fold_groups acc gs).state.entity_id ≡ acc.state.entity_id
unfolding fold_groups fold_group
fold_groups-entity acc [] = refl
fold_groups-entity acc (g ∷ gs) =
    fold_groups-entity (fold_group acc g) gs
    ∙ (settle-entity (fold_each acc g).state (filter is_status_op g) ∙ fold_each-entity acc g)

outcome-entity :
    (acc : Folded) (s : State) → outcome acc ≡ some s → s.entity_id ≡ acc.state.entity_id
outcome-entity acc s h = ground arith

pub fold-entity :
    (e : ℕ) (ops : List Op) (s : State) → fold_work_item_state e ops ≡ some s → s.entity_id ≡ e
unfolding fold_work_item_state fold_chain
fold-entity e [] s h = cc
fold-entity e (op ∷ ops) s h =
    outcome-entity (fold_chain e (op ∷ ops)) s h
    ∙ fold_groups-entity (fresh e) (group_ops [] none [] (op ∷ ops))
