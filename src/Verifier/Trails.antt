-- ===== src/Verifier/Trails.antt =====
-- About the status that `_reconstruct_status_transitions` of core/verifier.py ends with.
use agent_notes.Prelude.{
  ℕ, ◌≡◌, refl, sym, ap, ◌∙◌, true, Option, none, some, List, [], ◌∷◌, ◌++◌, arith, All, filter,
  Bool-cases, inl, inr, All-append,
}
use agent_notes.Lifecycle.{Status, status_eq}
use agent_notes.Lifecycle.Transitions.{status_eq_iff}
use agent_notes.Ops.{Op, OpType, create, set_status, close, snapshot, merge}
use agent_notes.Kernel.{
  Folded, fold_each, fold_op, settle, fold_group, fold_groups, fold_chain, fresh, group_ops,
  is_status_op, new_status, resolve_status_lattice, apply_payload, close_group, differs,
  is_status_type,
}
use agent_notes.Kernel.Lattice.{resolve_fail_safe}
use agent_notes.Verifier.Gate.{
  winning_status_op, Trail, no_trail, initial_status, move, trail_group, trail_groups,
  reconstruct_status_transitions, same_status,
}

-- The op sets a status only as a create op or as a status op that names one: no seal or merge
-- restates the row.
abbrev SetsOwn : OpType → Op → Type 0
SetsOwn snapshot op = ⊥
SetsOwn merge op = ⊥
SetsOwn set_status op = (s : Status) × (new_status op ≡ some s)
SetsOwn close op = (s : Status) × (new_status op ≡ some s)
SetsOwn _ op = Unit

abbrev pub IsOrdinary : Op → Type 0
IsOrdinary op = SetsOwn op.op_type op

payload_status :
    (acc : Folded) (op : Op) (t : OpType)
    → op.op_type ≡ t
    → SetsOwn t op
    → (fold_op acc op).state.status ≡ initial_status acc.state.status (op ∷ [])
unfolding fold_op initial_status apply_payload
payload_status acc op snapshot e h = absurd h
payload_status acc op merge e h = absurd h
payload_status acc op create e h = ground (arith, e)
payload_status acc op _ e h = ground (arith, e)

initial_status-cons :
    (status : Option Status) (op : Op) (ops : List Op)
    → initial_status status (op ∷ ops) ≡ initial_status (initial_status status (op ∷ [])) ops
unfolding initial_status
initial_status-cons status op ops = refl

each_status :
    (acc : Folded) (ops : List Op)
    → All IsOrdinary ops
    → (fold_each acc ops).state.status ≡ initial_status acc.state.status ops
unfolding fold_each
each_status acc [] h = unfold initial_status in refl
each_status acc (op ∷ ops) h =
    each_status (fold_op acc op) ops h.1
    ∙ (ap (λ (s : Option Status). initial_status s ops) (payload_status acc op op.op_type refl h.0)
        ∙ sym (initial_status-cons acc.state.status op ops))

-- A group with a status op resolves to some status, whatever the status before it.
resolve_any :
    (op : Op) (ops : List Op) (a b : Option Status)
    → resolve_status_lattice (op ∷ ops) a ≡ resolve_status_lattice (op ∷ ops) b
unfolding resolve_status_lattice
resolve_any op [] a b = refl
resolve_any op (next ∷ ops) a b = refl

move_status :
    (t : Trail) (op : Op) (ops : List Op) (o : Option Status) (s : Status)
    → o ≡ some s
    → (move t op ops o).status ≡ some s
unfolding status_eq winning_status_op
move_status t op ops none s e = cc
move_status t op ops (some w) s e = elim (Bool-cases (same_status (some w) t.status)) [
  | inl b ↦ rw b (moved t.status refl (rw e at b))
  | inr b ↦ rw b e
]
  where
    moved : (o : Option Status) → t.status ≡ o → same_status (some s) o ≡ true → t.status ≡ some s
    moved none q b = cc
    moved (some u) q b = q ∙ ap some (sym ((status_eq_iff s u).0 b))

status_of :
    (t : OpType) (op : Op)
    → op.op_type ≡ t
    → is_status_op op ≡ true
    → SetsOwn t op
    → (s : Status) × (new_status op ≡ some s)
unfolding is_status_type
status_of set_status op e b h = h
status_of close op e b h = h
status_of _ op e b h = cc (rw e at b)

head_status :
    (g : List Op) (op : Op) (ops : List Op)
    → All IsOrdinary g
    → filter is_status_op g ≡ op ∷ ops
    → (s : Status) × (new_status op ≡ some s)
head_status [] op ops h e = cc
head_status (x ∷ g) op ops h e = elim (Bool-cases (is_status_op x)) [
  | inl b ↦
      let same : x ≡ op = ground (arith, e, b) in rw (← same) (status_of x.op_type x refl b h.0)
  | inr b ↦ head_status g op ops h.1 (rw b at e)
]

group_status :
    (acc : Folded) (t : Trail) (g : List Op)
    → All IsOrdinary g
    → acc.state.status ≡ t.status
    → (fold_group acc g).state.status ≡ (trail_group t g (filter is_status_op g)).status
unfolding fold_group
group_status acc t g h e = settled (filter is_status_op g) refl
  where
    settled :
        (status_ops : List Op)
        → filter is_status_op g ≡ status_ops
        → (settle (fold_each acc g).state status_ops).status ≡ (trail_group t g status_ops).status
    settled [] q =
        unfold settle trail_group in
        (each_status acc g h ∙ ap (λ (o : Option Status). initial_status o g) e)
    settled (op ∷ ops) q =
        let (s, n) = head_status g op ops h q in
        let (w, resolved, _, _) = resolve_fail_safe op ops t.status op s (inl refl) n in
        unfold settle trail_group in
        (resolve_any op ops (fold_each acc g).state.status t.status
          ∙ (resolved
              ∙ sym (move_status t op ops (resolve_status_lattice (op ∷ ops) t.status) w resolved)))

groups_status :
    (acc : Folded) (t : Trail) (gs : List (List Op))
    → All (λ (g : List Op). All IsOrdinary g) gs
    → acc.state.status ≡ t.status
    → (fold_groups acc gs).state.status ≡ (trail_groups t gs).status
unfolding fold_groups trail_groups
groups_status acc t [] h e = e
groups_status acc t (g ∷ gs) h e =
    groups_status (fold_group acc g) (trail_group t g (filter is_status_op g)) gs h.1
      (group_status acc t g h.0 e)

close_group-All :
    (P : Op → Type 0) (gs : List (List Op)) (g : List Op)
    → All (λ (x : List Op). All P x) gs
    → All P g
    → All (λ (x : List Op). All P x) (close_group gs g)
close_group-All P gs [] h k = h
close_group-All P gs (x ∷ g) h k = All-append (λ (y : List Op). All P y) gs ((x ∷ g) ∷ []) h (k, tt)

group_ops-All :
    (P : Op → Type 0) (gs : List (List Op)) (current : Option ℕ) (g ops : List Op)
    → All (λ (x : List Op). All P x) gs
    → All P g
    → All P ops
    → All (λ (x : List Op). All P x) (group_ops gs current g ops)
unfolding group_ops
group_ops-All P gs current g [] h k m = close_group-All P gs g h k
group_ops-All P gs current g (op ∷ ops) h k m = elim (Bool-cases (differs op.lamport current)) [
  | inl e ↦
      rw (e, group_ops)
        (group_ops-All P (close_group gs g) (some op.lamport) (op ∷ []) ops
          (close_group-All P gs g h k) (m.0, tt) m.1)
  | inr e ↦
      rw (e, group_ops)
        (group_ops-All P gs current (g ++ op ∷ []) ops h (All-append P g (op ∷ []) k (m.0, tt)) m.1)
]

-- Over a chain without seals and merges, whose status ops all name a status, the reconstructed
-- chain of transitions ends with the folded status, concurrent ops included.
pub reconstruct-status :
    (entity_id : ℕ) (ops : List Op)
    → All IsOrdinary ops
    → (reconstruct_status_transitions ops).status ≡ (fold_chain entity_id ops).state.status
unfolding reconstruct_status_transitions fold_chain
reconstruct-status entity_id ops h = sym (
    groups_status (fresh entity_id) no_trail (group_ops [] none [] ops)
      (group_ops-All IsOrdinary [] none [] ops tt tt h) refl)
