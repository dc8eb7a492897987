-- ===== src/Kernel/Folding.antt =====
-- About the fold of core/kernel.py over a chain that is extended at its end, and about the in-memory
-- fold of `reconcile_entity`.
use agent_notes.Prelude.{
  if◌then◌else◌, All-append, ℕ, ◌<◌, ◌≡◌, refl, sym, ap, ◌∙◌, true, false, none, some, Option, List,
  [], ◌∷◌, ◌++◌, arith, Bool-cases, All, filter, inl, inr, All-append,
}
use mathlib.Core.List.{append_assoc, append-nil}
use agent_notes.Ops.{Op}
use agent_notes.Kernel.{
  apply_op_to_state, settle, apply_each, flush_group, reconcile_loop, reconciled_state,
  is_status_op, State, Folded, differs, close_group, group_ops, fold_op, fold_each, fold_group,
  fold_groups, fresh, fold_chain, not_after, insert_op, sort_ops, apply_each, flush_group,
  reconcile_loop, reconciled_state, settle, is_status_op,
}

pub fold_groups-append :
    (acc : Folded) (gs hs : List (List Op))
    → fold_groups acc (gs ++ hs) ≡ fold_groups (fold_groups acc gs) hs
unfolding fold_groups
fold_groups-append acc [] hs = refl
fold_groups-append acc (g ∷ gs) hs = fold_groups-append (fold_group acc g) gs hs

close_group-prefix :
    (gs : List (List Op)) (g : List Op) (hs : List (List Op))
    → close_group gs g ++ hs ≡ gs ++ (close_group [] g ++ hs)
close_group-prefix gs [] hs = refl
close_group-prefix gs (x ∷ g) hs = append_assoc gs ((x ∷ g) ∷ []) hs

group_ops-new :
    (gs : List (List Op)) (current : Option ℕ) (g ops : List Op) (op : Op)
    → differs op.lamport current ≡ true
    → group_ops gs current g (op ∷ ops)
      ≡ group_ops (close_group gs g) (some op.lamport) (op ∷ []) ops
unfolding group_ops
group_ops-new gs current g ops op e = rw (e, group_ops)

group_ops-same :
    (gs : List (List Op)) (current : Option ℕ) (g ops : List Op) (op : Op)
    → differs op.lamport current ≡ false
    → group_ops gs current g (op ∷ ops) ≡ group_ops gs current (g ++ op ∷ []) ops
unfolding group_ops
group_ops-same gs current g ops op e = rw (e, group_ops)

-- The groups that are closed before the loop stay in front.
group_ops-prefix :
    (gs : List (List Op)) (current : Option ℕ) (g ops : List Op)
    → group_ops gs current g ops ≡ gs ++ group_ops [] current g ops
group_ops-prefix gs current [] [] = unfold group_ops in simp append-nil
group_ops-prefix gs current (x ∷ g) [] = unfold group_ops in refl
group_ops-prefix gs current g (op ∷ ops) = elim (Bool-cases (differs op.lamport current)) [
  | inl e ↦
      let l : Option ℕ = some op.lamport in
      rw (group_ops-new gs current g ops op e, group_ops-new [] current g ops op e)
        (rw (group_ops-prefix (close_group gs g) l (op ∷ []) ops) (
          close_group-prefix gs g (group_ops [] l (op ∷ []) ops)
          ∙ ap (λ (t : List (List Op)). gs ++ t)
              (sym (group_ops-prefix (close_group [] g) l (op ∷ []) ops))))
  | inr e ↦
      rw (group_ops-same gs current g ops op e, group_ops-same [] current g ops op e)
        (group_ops-prefix gs current (g ++ op ∷ []) ops)
]

-- An op whose lamport is new makes a group of its own at the end.
group_ops-snoc :
    (gs : List (List Op)) (current : Option ℕ) (g ops : List Op) (op : Op)
    → differs op.lamport current ≡ true
    → All (λ (x : Op). x.lamport < op.lamport) ops
    → group_ops gs current g (ops ++ op ∷ []) ≡ group_ops gs current g ops ++ (op ∷ []) ∷ []
group_ops-snoc gs current g [] op d h =
    rw (group_ops-new gs current g [] op d) (unfold group_ops in refl)
group_ops-snoc gs current g (x ∷ ops) op d h = elim (Bool-cases (differs x.lamport current)) [
  | inl e ↦
      group_ops-new gs current g (ops ++ op ∷ []) x e
      ∙ (group_ops-snoc (close_group gs g) (some x.lamport) (x ∷ []) ops op (ground (arith, h.0))
            h.1
          ∙ ap (λ (t : List (List Op)). t ++ (op ∷ []) ∷ [])
              (sym (group_ops-new gs current g ops x e)))
  | inr e ↦
      group_ops-same gs current g (ops ++ op ∷ []) x e
      ∙ (group_ops-snoc gs current (g ++ x ∷ []) ops op d h.1
          ∙ ap (λ (t : List (List Op)). t ++ (op ∷ []) ∷ [])
              (sym (group_ops-same gs current g ops x e)))
]

-- Folding one more op, later than all others, is one more group after the fold of the others.
pub fold_chain-snoc :
    (e : ℕ) (ops : List Op) (op : Op)
    → All (λ (x : Op). x.lamport < op.lamport) ops
    → fold_chain e (ops ++ op ∷ []) ≡ fold_group (fold_chain e ops) (op ∷ [])
unfolding fold_chain fold_groups
fold_chain-snoc e ops op h =
    ap (fold_groups (fresh e)) (group_ops-snoc [] none [] ops op refl h)
    ∙ fold_groups-append (fresh e) (group_ops [] none [] ops) ((op ∷ []) ∷ [])

insert_op-snoc :
    (x op : Op) (ops : List Op)
    → x.lamport < op.lamport
    → insert_op x (ops ++ op ∷ []) ≡ insert_op x ops ++ op ∷ []
unfolding insert_op
insert_op-snoc x op [] h = ground arith
insert_op-snoc x op (y ∷ ops) h = ground (arith, insert_op-snoc x op ops h)

-- The ORDER BY leaves the latest op where it is: at the end.
pub sort_ops-snoc :
    (ops : List Op) (op : Op)
    → All (λ (x : Op). x.lamport < op.lamport) ops
    → sort_ops (ops ++ op ∷ []) ≡ sort_ops ops ++ op ∷ []
unfolding sort_ops
sort_ops-snoc [] op h = refl
sort_ops-snoc (x ∷ ops) op h =
    rw (sort_ops-snoc ops op h.1) (insert_op-snoc x op (sort_ops ops) h.0)

insert_op-All :
    (P : Op → Type 0) (x : Op) (ops : List Op) → P x → All P ops → All P (insert_op x ops)
unfolding insert_op
insert_op-All P x [] p h = (p, tt)
insert_op-All P x (y ∷ ops) p h = elim (Bool-cases (not_after x y)) [
  | inl e ↦ rw e (p, h)
  | inr e ↦ rw e (h.0, insert_op-All P x ops p h.1)
]

pub sort_ops-All : (P : Op → Type 0) (ops : List Op) → All P ops → All P (sort_ops ops)
unfolding sort_ops
sort_ops-All P [] h = tt
sort_ops-All P (x ∷ ops) h = insert_op-All P x (sort_ops ops) h.0 (sort_ops-All P ops h.1)

-- A tombstone restates no state: `delete_work_item` writes `{"tombstone": True}` alone.
abbrev pub IsPlain : Op → Type 0
IsPlain op = op.payload.tombstone ≡ true → op.payload.sealed_state ≡ none

fold_op-state :
    (acc : Folded) (op : Op)
    → IsPlain op
    → (fold_op acc op).state
      ≡ (if is_status_op op then acc.state else apply_op_to_state acc.state op)
unfolding fold_op
fold_op-state acc op h = ground (arith, h)

fold_each-state :
    (acc : Folded) (ops : List Op)
    → All IsPlain ops
    → (fold_each acc ops).state ≡ apply_each acc.state ops
unfolding fold_each apply_each
fold_each-state acc [] h = refl
fold_each-state acc (op ∷ ops) h =
    fold_each-state (fold_op acc op) ops h.1
    ∙ ap (λ (s : State). apply_each s ops) (fold_op-state acc op h.0)

fold_group-state :
    (acc : Folded) (g : List Op)
    → All IsPlain g
    → (fold_group acc g).state ≡ flush_group acc.state g
unfolding fold_group flush_group
fold_group-state acc g h =
    ap (λ (s : State). settle s (filter is_status_op g)) (fold_each-state acc g h)

closed_group-state :
    (acc : Folded) (g : List Op)
    → All IsPlain g
    → (fold_groups acc (close_group [] g)).state ≡ flush_group acc.state g
unfolding fold_groups
closed_group-state acc [] h = unfold flush_group in refl
closed_group-state acc (x ∷ g) h = fold_group-state acc (x ∷ g) h

reconcile_loop-new :
    (s : State) (current : Option ℕ) (g ops : List Op) (op : Op)
    → differs op.lamport current ≡ true
    → reconcile_loop s current g (op ∷ ops)
      ≡ reconcile_loop (flush_group s g) (some op.lamport) (op ∷ []) ops
unfolding reconcile_loop
reconcile_loop-new s current g ops op e = rw (e, reconcile_loop)

reconcile_loop-same :
    (s : State) (current : Option ℕ) (g ops : List Op) (op : Op)
    → differs op.lamport current ≡ false
    → reconcile_loop s current g (op ∷ ops) ≡ reconcile_loop s current (g ++ op ∷ []) ops
unfolding reconcile_loop
reconcile_loop-same s current g ops op e = rw (e, reconcile_loop)

fold_groups-reconcile :
    (acc : Folded) (current : Option ℕ) (g ops : List Op)
    → All IsPlain g
    → All IsPlain ops
    → (fold_groups acc (group_ops [] current g ops)).state ≡ reconcile_loop acc.state current g ops
fold_groups-reconcile acc current g [] hg h =
    unfold group_ops reconcile_loop in closed_group-state acc g hg
fold_groups-reconcile acc current g (op ∷ ops) hg h =
    elim (Bool-cases (differs op.lamport current)) [
      | inl e ↦
          let l : Option ℕ = some op.lamport in
          rw
            (
              group_ops-new [] current g ops op e,
              reconcile_loop-new acc.state current g ops op e,
              group_ops-prefix (close_group [] g) l (op ∷ []) ops,
              fold_groups-append acc (close_group [] g) (group_ops [] l (op ∷ []) ops),
            )
            (fold_groups-reconcile (fold_groups acc (close_group [] g)) l (op ∷ []) ops (h.0, tt)
                h.1
              ∙ ap (λ (s : State). reconcile_loop s l (op ∷ []) ops) (closed_group-state acc g hg))
      | inr e ↦
          rw
            (group_ops-same [] current g ops op e, reconcile_loop-same acc.state current g ops op e)
            (fold_groups-reconcile acc current (g ++ op ∷ []) ops
              (All-append IsPlain g (op ∷ []) hg (h.0, tt)) h.1)
    ]

-- `reconcile_entity` folds the merged ops by a loop of its own. Over ops whose tombstones restate no
-- state it computes the very state that `fold_work_item_state` would, tombstones aside.
pub reconciled_state-eq-fold :
    (entity_id : ℕ) (ops : List Op)
    → All IsPlain ops
    → reconciled_state entity_id ops ≡ (fold_chain entity_id ops).state
unfolding reconciled_state fold_chain
reconciled_state-eq-fold entity_id ops h =
    sym (fold_groups-reconcile (fresh entity_id) none [] ops tt h)
