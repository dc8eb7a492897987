-- ===== src/Tests/Kernel.antt =====
-- The theorems of Kernel on the chains of two replicas.
use agent_notes.Prelude.{
  ◌≡◌, refl, ◌⊎◌, inl, inr, ◌↔◌, true, none, some, List, [], ◌∷◌, ◌++◌, arith, In,
}
use agent_notes.Lifecycle.{Status, opened, in_progress, done}
use agent_notes.Ops.{Op, create, set_status, snapshot, no_payload, no_fields, is}
use agent_notes.Kernel.{
  merge_entity, resolve_status_lattice, reconciled_state, fold_chain, fold_work_item_state,
  new_status,
}
use agent_notes.Kernel.Merging.{IsCoherent, In-merge_entity}
use agent_notes.Kernel.Convergence.{merge_entity_comm, merge_entity_assoc}
use agent_notes.Kernel.Lattice.{RankLe, SameOps, resolve_fail_safe, resolve_order_free}
use agent_notes.Kernel.Folding.{reconciled_state-eq-fold}
use agent_notes.Kernel.Snapshots.{fold_tombstone, fold_status}
use agent_notes.Tests.{op, asks, execute}

abbrev pub filed_op : Op
filed_op = op 1 create (record no_payload {
  fields = record no_fields { project_id = is 1; identifier = is "WI-1"; title = is "a task" };
})

abbrev pub started : Op
started = op 2 set_status (asks in_progress)

abbrev finished : Op
finished = record (op 3 set_status (asks done)) { lamport = 2 }

abbrev deleted_op : Op
deleted_op = op 4 snapshot (record no_payload { tombstone = true })

abbrev pub here : List Op
here = filed_op ∷ started ∷ []

abbrev there : List Op
there = filed_op ∷ finished ∷ []

both-IsCoherent : IsCoherent (here ++ there)
both-IsCoherent x y m n e = ground arith

three-IsCoherent : IsCoherent (here ++ (there ++ deleted_op ∷ []))
three-IsCoherent x y m n e = ground arith

merge_entity_comm_example : merge_entity here there ≡ merge_entity there here
merge_entity_comm_example = merge_entity_comm here there both-IsCoherent

merge_entity_assoc_example :
    merge_entity (merge_entity here there) (deleted_op ∷ [])
    ≡ merge_entity here (merge_entity there (deleted_op ∷ []))
merge_entity_assoc_example = merge_entity_assoc here there (deleted_op ∷ []) three-IsCoherent

In-merge_entity_example :
    In finished (merge_entity here there) ↔ (In finished here ⊎ In finished there)
In-merge_entity_example = In-merge_entity here there finished both-IsCoherent

resolve_fail_safe_example :
    (w : Status) × (resolve_status_lattice (finished ∷ started ∷ []) (some opened) ≡ some w)
    × RankLe in_progress w
    × ((y : Op) × In y (finished ∷ started ∷ []) × (new_status y ≡ some w))
unfolding execute
resolve_fail_safe_example =
    resolve_fail_safe finished (started ∷ []) (some opened) started in_progress (inr (inl refl))
      refl

swapped : SameOps (finished ∷ started ∷ []) (started ∷ finished ∷ [])
swapped = record {
  left = λ x m. ground arith;
  right = λ x m. ground arith;
  ids = λ x y m n e. ground arith;
}

resolve_order_free_example :
    resolve_status_lattice (finished ∷ started ∷ []) (some opened)
    ≡ resolve_status_lattice (started ∷ finished ∷ []) (some opened)
resolve_order_free_example =
    resolve_order_free finished started (started ∷ []) (finished ∷ []) (some opened) swapped

reconciled_state-eq-fold_example :
    reconciled_state 1 (filed_op ∷ started ∷ deleted_op ∷ [])
    ≡ (fold_chain 1 (filed_op ∷ started ∷ deleted_op ∷ [])).state
reconciled_state-eq-fold_example =
    reconciled_state-eq-fold 1 (filed_op ∷ started ∷ deleted_op ∷ [])
      ((λ h. refl), ((λ h. refl), ((λ h. refl), tt)))

fold_tombstone_example : fold_work_item_state 1 (here ++ deleted_op ∷ []) ≡ none
fold_tombstone_example = fold_tombstone 1 here deleted_op (omega arith, (omega arith, tt)) refl refl

abbrev closing : Op
closing = op 5 set_status (asks done)

fold_status_example :
    fold_chain 1 (here ++ closing ∷ [])
    ≡ record (fold_chain 1 here) { state = record (fold_chain 1 here).state { status = some done } }
unfolding execute
fold_status_example = fold_status 1 here closing (omega arith, (omega arith, tt)) refl
