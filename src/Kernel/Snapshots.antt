-- ===== src/Kernel/Snapshots.antt =====
-- About the last op of a chain and the fold of core/kernel.py.
use agent_notes.Prelude.{
  ℕ, ◌<◌, ◌≡◌, refl, ap, ◌∙◌, true, false, none, some, List, [], ◌∷◌, ◌++◌, arith, All,
}
use agent_notes.Ops.{snapshot, heartbeat, Fields, has_any, Op}
use agent_notes.Kernel.{
  Folded, fold_op, settle, fold_group, fold_chain, fold_work_item_state, outcome, is_status_op,
  update_fields, requested, resolve_status_lattice,
}
use agent_notes.Kernel.Folding.{fold_chain-snoc}

-- The op comes after all ops of the chain.
abbrev pub IsLast : Op → List Op → Type 0
IsLast op ops = All (λ (x : Op). x.lamport < op.lamport) ops

fold-outcome :
    (e : ℕ) (ops : List Op) (op : Op)
    → fold_work_item_state e (ops ++ op ∷ []) ≡ outcome (fold_chain e (ops ++ op ∷ []))
unfolding fold_work_item_state
fold-outcome e [] op = refl
fold-outcome e (x ∷ ops) op = refl

pub fold-snoc :
    (e : ℕ) (ops : List Op) (op : Op)
    → IsLast op ops
    → fold_work_item_state e (ops ++ op ∷ []) ≡ outcome (fold_group (fold_chain e ops) (op ∷ []))
fold-snoc e ops op last = fold-outcome e ops op ∙ ap outcome (fold_chain-snoc e ops op last)

group_tombstone :
    (acc : Folded) (op : Op)
    → op.op_type ≡ snapshot
    → op.payload.tombstone ≡ true
    → outcome (fold_group acc (op ∷ [])) ≡ none
unfolding fold_group fold_op
group_tombstone acc op t d = ground arith

-- A tombstone at the end of a chain folds the entity to absent, whatever came before.
pub fold_tombstone :
    (e : ℕ) (ops : List Op) (op : Op)
    → IsLast op ops
    → op.op_type ≡ snapshot
    → op.payload.tombstone ≡ true
    → fold_work_item_state e (ops ++ op ∷ []) ≡ none
fold_tombstone e ops op last t d =
    fold-snoc e ops op last ∙ group_tombstone (fold_chain e ops) op t d

pub group_sealed :
    (acc : Folded) (op : Op) (f : Fields)
    → op.op_type ≡ snapshot
    → op.payload.tombstone ≡ false
    → op.payload.sealed_state ≡ some f
    → has_any f ≡ true
    → fold_group acc (op ∷ []) ≡ record { state = update_fields acc.state f; tombstoned = false }
unfolding fold_group fold_op settle
group_sealed acc op f t d s h = ground arith

pub group_heartbeat :
    (acc : Folded) (op : Op) → op.op_type ≡ heartbeat → fold_group acc (op ∷ []) ≡ acc
unfolding fold_group fold_op settle
group_heartbeat acc op t = ground arith

group_status :
    (acc : Folded) (op : Op)
    → is_status_op op ≡ true
    → fold_group acc (op ∷ [])
      ≡ record acc { state = record (acc.state) { status = requested op.op_type op.payload } }
unfolding fold_group fold_op settle resolve_status_lattice
group_status acc op t = ground arith

-- A status op alone at its lamport sets the status that it asks for, whatever the rank: the lattice
-- decides between concurrent ops only.
pub fold_status :
    (e : ℕ) (ops : List Op) (op : Op)
    → IsLast op ops
    → is_status_op op ≡ true
    → fold_chain e (ops ++ op ∷ []) ≡ record (fold_chain e ops) {
      state = record (fold_chain e ops).state { status = requested op.op_type op.payload };
    }
fold_status e ops op last t = fold_chain-snoc e ops op last ∙ group_status (fold_chain e ops) op t
